-- ===== src/Fanotify/Loop/Denied.antt =====
-- The events of `run_event_loop` that are denied.
use lazyd.Base.{
  ℕ, ◌+◌, ◌<◌, ◌≡◌, refl, arith, Text, text, some, insert, text_eq, ltb, if◌then◌else◌, u64_end,
}
use lazyd.Errors.{Error, err, bad_request}
use lazyd.Instance.{Instance, admit, ensure_range}
use lazyd.Fanotify.{FanotifyEvent, fan_deny}
use lazyd.Fanotify.Marks.{instance_id_for_fd}
use lazyd.Registry.{World, Setup, get, ensure, ensure_instance}
use lazyd.Fanotify.Loop.{decide}

admit_refuses :
    (i : Instance) (offset len : ℕ)
    → 0 < len
    → i.config.blob.size < offset + len
    → (e : Error) × (admit i offset len ≡ err e)
unfolding admit
admit_refuses i offset len pos over = (
  bad_request (
      if ltb (offset + len) u64_end
      then text "range exceeds blob size"
      else text "range overflows u64"),
  ground arith,
)

module _ (setup : Setup) (event : FanotifyEvent) (w : World) (id : Text) (i : Instance) where
  ensure_refuses :
      (e : Error)
      → get id w ≡ some i
      → admit i event.range.offset event.range.len ≡ err e
      → ensure setup id event.range.offset event.range.len w
        ≡ some (err e, record w { instances = insert text_eq id i w.instances })
  unfolding ensure ensure_instance ensure_range
  ensure_refuses e q h = rw (q, ensure, ensure_instance, ensure_range, h)

  decide_refuses :
      (e : Error) (v : World)
      → instance_id_for_fd setup.kernel event.fd w.marks ≡ some id
      → ensure setup id event.range.offset event.range.len w ≡ some (err e, v)
      → decide setup event w ≡ some (fan_deny, v)
  unfolding decide
  decide_refuses e v q h = rw (q, decide, h)

  -- An event for a file that is marked for a registered instance, whose range is not empty and
  -- ends behind the blob of the instance, is denied, and neither the disk nor the requests to the
  -- registry change.
  pub decide_outside :
      instance_id_for_fd setup.kernel event.fd w.marks ≡ some id
      → get id w ≡ some i
      → 0 < event.range.len
      → i.config.blob.size < event.range.offset + event.range.len
      → (v : World) × (decide setup event w ≡ some (fan_deny, v))
        × (v.disk ≡ w.disk)
        × (v.calls ≡ w.calls)
  decide_outside marked registered pos over =
      let (e, h) = admit_refuses i event.range.offset event.range.len pos over in
      (
        record w { instances = insert text_eq id i w.instances },
        decide_refuses e _ marked (ensure_refuses e registered h),
        refl,
        refl,
      )
