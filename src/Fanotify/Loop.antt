-- ===== src/Fanotify/Loop.antt =====
-- `run_event_loop` of src/fanotify.rs: every event of a buffer gets one answer, and access is
-- allowed only to bytes that are in the cache.
pub mod Allowed
pub mod Denied
use lazyd.Base.{
  ℕ, Text, Bytes, Bool, true, false, Option, none, some, List, [], ◌∷◌, ◌++◌, if◌then◌else◌,
}
use lazyd.Errors.{Result, ok, err}
use lazyd.Fanotify.{
  FanotifyEvent, FanotifyRange, Parse, panics, out_of_fuel, returns, parse_events, fan_allow,
  fan_deny,
}
use lazyd.Fanotify.Marks.{instance_id_for_fd}
use lazyd.Registry.{World, Setup, get, ensure}

-- The world, the responses that were written and the descriptors that were closed.
pub record LoopState : Type 0 where
  pub world : World
  pub responses : List (ℕ × ℕ)
  pub closed : List ℕ

-- `respond` and `close_event_fd`; an error of the write is dropped.
unfoldable pub finish : ℕ → ℕ → LoopState → LoopState
finish fd response s = record s {
  responses = s.responses ++ (fd, response) ∷ [];
  closed = s.closed ++ fd ∷ [];
}

-- `match … { Ok(()) => true, Err(err) => false }`
abbrev pub is_ok {ℓ} : {A : Type ℓ} → Result A → Bool
is_ok (ok _) = true
is_ok (err _) = false

module _ (setup : Setup) where
  -- The answer for the range of an event, and the world behind it. A name without an instance is an
  -- error of `ensure`.
  unfoldable pub decide : FanotifyEvent → World → Option (ℕ × World)
  decide event w = elim (instance_id_for_fd setup.kernel event.fd w.marks) [
    | none ↦ some (fan_deny, w)
    | some instance_id ↦ elim (ensure setup instance_id event.range.offset event.range.len w) [
      | none ↦ none
      | some (r, v) ↦ some (if is_ok r then fan_allow else fan_deny, v)
    ]
  ]

  -- The body of the loop over the events; `none` while the loop waits in it.
  unfoldable pub handle_event : FanotifyEvent → LoopState → Option LoopState
  handle_event event s = elim (decide event s.world) [
    | none ↦ none
    | some (response, v) ↦ some (finish event.fd response (record s { world = v }))
  ]

  unfoldable pub handle_events : List FanotifyEvent → LoopState → Option LoopState
  handle_events [] s = some s
  handle_events (event ∷ events) s = elim (handle_event event s) [
    | none ↦ none
    | some t ↦ handle_events events t
  ]

  -- One round of the loop, with what `read` has put into the buffer.
  unfoldable pub handle_buffer : Bytes → LoopState → Parse (Option LoopState)
  handle_buffer buf s = elim (parse_events buf) [
    | panics ↦ panics
    | out_of_fuel ↦ out_of_fuel
    | returns events ↦ returns (handle_events events s)
  ]

  -- `libc::read` into the buffer of the loop: the bytes, or an error, whatever it is. Behind EAGAIN
  -- and EINTR the loop sleeps, behind another error it warns, and then it goes on.
  unfoldable pub handle_read : Result Bytes → LoopState → Parse (Option LoopState)
  handle_read (err _) s = returns (some s)
  handle_read (ok buf) s = handle_buffer buf s

  -- The loop on the reads that have returned.
  unfoldable pub run_event_loop : List (Result Bytes) → LoopState → Parse (Option LoopState)
  run_event_loop [] s = returns (some s)
  run_event_loop (read ∷ reads) s = elim (handle_read read s) [
    | panics ↦ panics
    | out_of_fuel ↦ out_of_fuel
    | returns none ↦ returns none
    | returns (some t) ↦ run_event_loop reads t
  ]
