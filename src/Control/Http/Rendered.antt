-- ===== src/Control/Http/Rendered.antt =====
-- What a client reads from the bytes that `render_response` gives.
use lazyd.Base.{
  ℕ, ◌+◌, ◌<◌, ◌≡◌, refl, ap, sym, subst, ◌∙◌, inl, inr, arith, Text, Bytes, some, [], ◌∷◌, ◌++◌,
  length, drop, length-append, u64_end,
}
use lazyd.Errors.{Result, ok, err, status_code, message}
use lazyd.Exec.{Result-cases}
use lazyd.Control.{Response, ControlJson, json}
use lazyd.Control.Http.{parse_headers, head_of, response_of, render_response}
use lazyd.Control.Http.Framed.{IsAscii, HasKnownType, parse_headers-head_of}

drop-length : (s t : Bytes) → drop (length s) (s ++ t) ≡ t
drop-length [] t = refl
drop-length (c ∷ s) t = drop-length s t

-- The head of `bytes` says how long the body is, and the body follows it up to their end.
abbrev pub Reads : (Bytes → Result (Unit {0})) → Bytes → Response → Type 0
Reads from_utf8 bytes r =
    (n : ℕ) × (parse_headers from_utf8 bytes ≡ ok (some (n, length r.body)))
    × (n + length r.body ≡ length bytes)
    × (drop n bytes ≡ r.body)

known_type :
    (codec : ControlJson) (response : Result Response)
    → ((r : Response) → response ≡ ok r → HasKnownType r)
    → (r : Response) → response_of codec response ≡ ok r
    → HasKnownType r
unfolding response_of
known_type codec (ok s) known r h = known r h
known_type codec (err e) known r h = elim (Result-cases (codec.error_body (message e))) [
  | inr (f, q) ↦ let z = rw (q, response_of) at h in absurd cc
  | inl (body, q) ↦
      let z = rw (q, response_of) at h in
      let same : json (status_code e) body ≡ r = cc in
      subst HasKnownType same (inr (unfold json in refl))
]

-- The bytes of a rendered response have a head that says how long the body is, and then the body.
pub render_response-Reads :
    (codec : ControlJson) (from_utf8 : Bytes → Result (Unit {0})) (response : Result Response)
    (bytes : Bytes)
    → ((head : Text) → IsAscii head → from_utf8 head ≡ ok tt)
    → ((r : Response) → response ≡ ok r → HasKnownType r)
    → render_response codec response ≡ ok bytes
    → length bytes < u64_end
    → (r : Response) × (response_of codec response ≡ ok r) × Reads from_utf8 bytes r
unfolding render_response
render_response-Reads codec from_utf8 response bytes accepts known q small =
    elim (Result-cases (response_of codec response)) [
      | inr (e, h) ↦ let z = rw (h, render_response) at q in absurd cc
      | inl (r, h) ↦
          let z = rw (h, render_response) at q in
          let same : head_of r ++ r.body ≡ bytes = cc in
          let size : length (head_of r) + length r.body ≡ length bytes =
            sym (length-append (head_of r) r.body) ∙ ap length same in
          let fits : length r.body < u64_end = omega (arith, size) in
          (
            r,
            h,
            (
              length (head_of r),
              subst (λ b. parse_headers from_utf8 b ≡ ok (some (length (head_of r), length r.body)))
                  same
                  (parse_headers-head_of r (known_type codec response known r h) from_utf8 accepts
                    fits),
              size,
              subst (λ b. drop (length (head_of r)) b ≡ r.body) same
                  (drop-length (head_of r) r.body),
            ),
          )
    ]
