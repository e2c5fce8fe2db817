-- ===== src/Instance.antt =====
-- src/instance.rs, `Instance`: one registered blob, its cache file and its bitmap.
pub mod Write
pub mod Amplify
pub mod Backed
pub mod Fetch
pub mod Ensure
pub mod Outcome
pub mod Pages
pub mod Reopen
pub mod Fixed
pub mod Tasks
use mathlib.Core.Logic.{dite}
use mathlib.Core.WellFounded.{Acc}
use native.Mathlib.Decide.{dec_lt}
use lazyd.Base.{
  decimal, ◌<◌, arith, length-drop, ℕ, zero, suc, ◌+◌, ◌-◌, ◌*◌, ◌/◌, ◌%◌, Text, Bytes, text, Bool,
  true, false, ◌&&◌, ◌||◌, not, Option, none, some, List, [], ◌∷◌, ◌++◌, length, drop, any, retain,
  ltb, leb, ◌==◌, if◌then◌else◌, div_ceil, checked_add, wrapping_mul, min,
}
use lazyd.Errors.{Error, IoError, bad_request, remote, io, Result, ok, err, reject_if, ok_or}
use lazyd.Exec.{Exec, pure, fail, lift, gets, modify, zoom, ◌>>=◌, ◌>>◌}
use lazyd.Disk.{Disk, write_at, sync}
use lazyd.RangeMap.{
  BlobDescriptor, RangeMap, MapState, is_range_ready, set_range_ready, bitmap_unit_bytes,
}
use lazyd.Remote.{RemoteSource, AuthConfig, RemoteBackend}

pub data TriggerMode : Type 0 where
  fanotify external : TriggerMode

abbrev pub default_fetch_unit_bytes : ℕ
default_fetch_unit_bytes = bitmap_unit_bytes

pub record FetchConfig : Type 0 where
  pub unit_bytes : ℕ

pub record InstanceConfig : Type 0 where
  pub instance_id : Text
  pub target_path : Text
  pub blob : BlobDescriptor
  pub source : RemoteSource
  pub auth : Option AuthConfig
  pub fetch : FetchConfig
  pub trigger_mode : TriggerMode

pub record Range : Type 0 where
  pub offset : ℕ
  pub len : ℕ

unfoldable pub end : Range → Option ℕ
end r = checked_add r.offset r.len

unfoldable pub overlaps : Range → Range → Bool
unfolding end
overlaps r other = elim (end r) [
  | none ↦ false
  | some e ↦ elim (end other) [
    | none ↦ false
    | some other_end ↦ ltb r.offset other_end && ltb other.offset e
  ]
]

unfoldable pub range_eq : Range → Range → Bool
range_eq a b = a.offset == b.offset && a.len == b.len

-- The open file is the one at `config.target_path`.
pub record Instance : Type 0 where
  pub config : InstanceConfig
  pub range_map : RangeMap
  pub trusted : Bool
  pub inflight : List Range

-- An instance with the disk that it writes to and the requests that it has made to the registry.
pub record InstanceState : Type 0 where
  pub inst : Instance
  pub disk : Disk
  pub calls : List (ℕ × ℕ)

abbrev pub on_map : {A : Type 0} → Exec MapState A → Exec InstanceState A
on_map =
    zoom (λ s. record { map = s.inst.range_map; disk = s.disk })
      (λ s m. record s { inst = record s.inst { range_map = m.map }; disk = m.disk })

abbrev pub on_disk : {A : Type 0} → Exec Disk A → Exec InstanceState A
on_disk = zoom (λ s. s.disk) (λ s d. record s { disk = d })

unfoldable pub amplify_to_fetch_unit : Instance → ℕ → ℕ → Result Range
amplify_to_fetch_unit i offset len =
    let unit = i.config.fetch.unit_bytes in
    elim (checked_add offset len) [
      | none ↦ err (bad_request (text "range overflows u64"))
      | some end ↦
          let fetch_offset = wrapping_mul (offset / unit) unit in
          let fetch_end = min (wrapping_mul (div_ceil end unit) unit) i.config.blob.size in
          ok (record { offset = fetch_offset; len = fetch_end - fetch_offset })
    ]

abbrev write_zero : IoError
write_zero = record { raw_os_error = none; display = text "failed to write target_path" }

abbrev Shorter : Bytes → Bytes → Type 0
Shorter xs ys = length xs < length ys

Acc-Shorter : (n : ℕ) (xs : Bytes) → length xs < n → Acc Shorter xs
Acc-Shorter zero xs h = absurd (omega arith)
Acc-Shorter (suc n) xs h = Acc.intro xs (λ ys lt. Acc-Shorter n ys (omega arith))

drop-Shorter : (n : ℕ) (xs : Bytes) → 0 < n → 0 < length xs → Shorter (drop n xs) xs
drop-Shorter n xs h k = omega (arith, length-drop n xs)

-- One round of the loop of `write_all_at`, behind its call of `write_at`; `again` is the loop on
-- the bytes that are left.
write_round : ((n : ℕ) → 0 < n → Exec Disk Unit) → Result ℕ × Disk → Result (Unit {0}) × Disk
write_round again (err e, d) = (err e, d)
write_round again (ok n, d) = dite (dec_lt 0 n) (λ h. again n h d) (λ _. (err (io write_zero), d))

-- The loop of `write_all_at`, on the bytes that are left; each round writes at least one of them,
-- or ends the loop.
write_loop : Text → (bytes : Bytes) → Acc Shorter bytes → ℕ → Exec Disk Unit
write_loop path bytes (Acc.intro _ smaller) offset d =
    dite (dec_lt 0 (length bytes))
      (λ p.
        write_round
          (λ n h.
            write_loop path (drop n bytes) (smaller (drop n bytes) (drop-Shorter n bytes h p))
              (offset + n))
          (write_at path bytes offset d))
      (λ _. (ok tt, d))

unfoldable pub write_all_at : Text → Bytes → ℕ → Exec Disk Unit
unfolding write_loop write_round Acc-Shorter drop-Shorter dec_lt
write_all_at path bytes offset =
    write_loop path bytes (Acc-Shorter (suc (length bytes)) bytes (omega arith)) offset

-- `reserve_inflight` where no range in flight overlaps this one. While one does, the source sleeps
-- and tries again; `ensure_range` is `none` then.
unfoldable pub reserve_inflight : Range → InstanceState → InstanceState
reserve_inflight range s = record s {
  inst = record s.inst { inflight = s.inst.inflight ++ range ∷ [] };
}

-- The drop of an `InflightGuard`.
unfoldable pub release_inflight : Range → InstanceState → InstanceState
release_inflight range s = record s {
  inst = record s.inst { inflight = retain (λ item. not (range_eq item range)) s.inst.inflight };
}

-- The part of `ensure_range` before it may wait: done at once, or the range to fetch.
unfoldable pub admit : Instance → ℕ → ℕ → Result (Option Range)
admit i offset len = if len == 0 then ok none else elim (checked_add offset len) [
  | none ↦ err (bad_request (text "range overflows u64"))
  | some end ↦
      if ltb i.config.blob.size end
      then err (bad_request (text "range exceeds blob size"))
      else if not i.trusted
      then err (remote (text "instance is not trusted"))
      else if is_range_ready i.range_map offset len
      then ok none
      else elim (amplify_to_fetch_unit i offset len) [ err e ↦ err e | ok range ↦ ok (some range) ]
]

-- `inflight.iter().any(|item| item.overlaps(range))`
unfoldable pub is_busy : Range → InstanceState → Bool
is_busy range s = any (λ item. overlaps item range) s.inst.inflight

abbrev short_read : ℕ → ℕ → Error
short_read got wanted =
    remote
      (text "remote returned " ++ (decimal got ++ (text " bytes, expected " ++ decimal wanted)))

-- `self.remote.read_range(range.offset, range.len)`
unfoldable pub read_range : RemoteBackend → Range → Exec InstanceState Bytes
read_range backend range s = (
  backend s.calls range.offset range.len,
  record s { calls = s.calls ++ (range.offset, range.len) ∷ [] },
)

-- What `ensure_range` does with the bytes that the registry has sent.
unfoldable pub store : Range → Bytes → Exec InstanceState Unit
store range bytes s =
    (if not (length bytes == range.len) then fail (short_read (length bytes) range.len) else do
      on_disk (write_all_at s.inst.config.target_path bytes range.offset)
      on_map (set_range_ready range.offset range.len))
      s

-- The part of `ensure_range` that runs with the range in flight.
unfoldable pub fetch : RemoteBackend → ℕ → ℕ → Range → Exec InstanceState Unit
unfolding read_range store
fetch backend offset len range = do
  ready ← gets (λ s. is_range_ready s.inst.range_map offset len)
  if ready then pure tt else do bytes ← read_range backend range; store range bytes

-- `none` is for a call that sleeps, since a range in flight overlaps its own.
unfoldable pub ensure_range :
    RemoteBackend → ℕ → ℕ → InstanceState → Option (Result (Unit {0}) × InstanceState)
unfolding reserve_inflight release_inflight
ensure_range backend offset len s = elim (admit s.inst offset len) [
  | err e ↦ some (err e, s)
  | ok none ↦ some (ok tt, s)
  | ok (some range) ↦
      let (r, t) = fetch backend offset len range (reserve_inflight range s) in
      if is_busy range s then none else some (r, release_inflight range t)
]
