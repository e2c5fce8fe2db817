-- ===== src/Control/Routes.antt =====
-- The paths of the control plane and the checks on a request for an image.
use lazyd.Base.{
  ◌-◌, ◌<◌, ◌≡◌, refl, ap, ◌↔◌, arith, Text, text, text_eq_refl, false, some, [], ◌∷◌, ◌++◌, length,
  length-append, take, drop, any, ltb, ◌==◌,
}
use lazyd.Errors.{ok}
use lazyd.Prepare.{PrepareImageRequest}
use lazyd.Control.{
  strip_prefix, strip_suffix, one_segment, instances_prefix, instance_id, ensure_range_instance_id,
  validate_prepare_request, is_blank,
}

strip_prefix-append : (p s : Text) → strip_prefix p (p ++ s) ≡ some s
unfolding strip_prefix
strip_prefix-append [] s = refl
strip_prefix-append (c ∷ p) s = ground (arith, strip_prefix-append p s)

take-append : (s t : Text) → take (length s) (s ++ t) ≡ s
take-append [] t = refl
take-append (c ∷ s) t = ap (λ x. c ∷ x) (take-append s t)

drop-append : (s t : Text) → drop (length s) (s ++ t) ≡ t
drop-append [] t = refl
drop-append (c ∷ s) t = drop-append s t

strip_suffix-append : (suffix s : Text) → strip_suffix suffix (s ++ suffix) ≡ some s
unfolding strip_suffix
strip_suffix-append suffix s =
    let n : length (s ++ suffix) - length suffix ≡ length s =
      omega (arith, length-append s suffix) in
    let long : ltb (length (s ++ suffix)) (length suffix) ≡ false =
      ground (arith, length-append s suffix) in
    rw (n, long, drop-append s suffix, text_eq_refl suffix, take-append s suffix) refl

-- The name of an instance in a path: not empty, and without a slash.
abbrev pub IsSegment : Text → Type 0
IsSegment id = (length id == 0 ≡ false) × (any (λ c. c == b'/') id ≡ false)

one_segment-IsSegment : (id : Text) → IsSegment id → one_segment id ≡ some id
unfolding one_segment
one_segment-IsSegment id h = rw (h.0, h.1) refl

named : (id : Text) → IsSegment id → instance_id (instances_prefix ++ id) ≡ some id
unfolding instance_id
named id h = rw (strip_prefix-append instances_prefix id, instance_id) (one_segment-IsSegment id h)

ranges :
    (id : Text)
    → IsSegment id
    → ensure_range_instance_id (instances_prefix ++ (id ++ text "/ranges/ensure")) ≡ some id
unfolding ensure_range_instance_id
ranges id h =
    rw
      (
        strip_prefix-append instances_prefix (id ++ text "/ranges/ensure"),
        ensure_range_instance_id,
        strip_suffix-append (text "/ranges/ensure") id,
      )
      (one_segment-IsSegment id h)

-- For each name that is not empty and has no slash, instance_id of the path of the instance and
-- ensure_range_instance_id of the path of its ranges are the name.
pub routes_lem :
    (id : Text)
    → IsSegment id
    → (instance_id (text "/api/v1/instances/" ++ id) ≡ some id)
      × (ensure_range_instance_id (text "/api/v1/instances/" ++ (id ++ text "/ranges/ensure"))
          ≡ some id)
routes_lem id h = (named id h, ranges id h)

-- validate_prepare_request accepts a request exactly when its image reference is not blank, it has
-- layers, and neither its fetch unit nor its alignment is zero.
pub validate_prepare_request_iff :
    (request : PrepareImageRequest)
    → (validate_prepare_request request ≡ ok tt) ↔ (
        (is_blank request.image_ref ≡ false)
        × (0 < length request.layers)
        × (0 < request.fetch.unit_bytes)
        × (0 < request.pmem.alignment_bytes))
unfolding validate_prepare_request
validate_prepare_request_iff request =
    (λ h. (ground arith, ground arith, ground arith, ground arith), λ h. ground arith)
