-- ===== src/Instance/Pages.antt =====
-- `Instance::prepare_fetch_range`: whole pages of the blob for the data plane.
pub mod Genuine
pub mod Kept
use lazyd.Base.{
  ℕ, ◌+◌, ◌-◌, ◌*◌, ◌/◌, ◌%◌, ◌≡◌, Text, text, Bool, true, false, ◌||◌, not, Option, none, some,
  ltb, leb, ◌==◌, if◌then◌else◌, checked_add, div_ceil, wrapping_mul, min,
}
use lazyd.Errors.{bad_request, Error, Result, ok, err}
use lazyd.Disk.{sync}
use lazyd.Remote.{RemoteBackend}
use lazyd.Instance.{Instance, InstanceState, ensure_range, on_disk}

-- `data::FetchRange`
pub record FetchRange : Type 0 where
  pub off : ℕ
  pub len : ℕ
  pub dev_off : ℕ

-- An open `std::fs::File`, as the path that it was opened at
abbrev pub Handle : Type 0
Handle = Text

unfoldable pub blob_page_end : ℕ → ℕ → ℕ
blob_page_end blob_size page_size = wrapping_mul (div_ceil blob_size page_size) page_size

-- The checks, and the part of the request that lies within the blob.
unfoldable pub page_len : ℕ → ℕ → ℕ → ℕ → Result ℕ
page_len blob_size offset len page_size =
    if page_size == 0
    then err (bad_request (text "page size must be greater than zero"))
    else if len == 0
    then err (bad_request (text "fetch len must be greater than zero"))
    else if not (offset % page_size == 0) || not (len % page_size == 0)
    then err (bad_request (text "fetch off and len must be page-aligned"))
    else elim (checked_add offset len) [
      | none ↦ err (bad_request (text "range overflows u64"))
      | some end ↦
          if leb blob_size offset || ltb (blob_page_end blob_size page_size) end
          then err (bad_request (text "fetch range exceeds lazy blob tail page"))
          else ok (min blob_size end - offset)
    ]

-- The range, with a clone of the handle `self.target`, which the instance opened at its target.
unfoldable pub hand_out :
    ℕ → ℕ → Result (Unit {0}) × InstanceState → Result (FetchRange × Handle) × InstanceState
hand_out offset len (err e, t) = (err e, t)
hand_out offset len (ok _, t) =
    let (r, u) = on_disk sync t in
    (
      elim r [
        | err e ↦ err e
        | ok _ ↦
            ok (record { off = offset; len = len; dev_off = offset }, u.inst.config.target_path)
      ],
      u,
    )

unfoldable pub prepare_fetch_range :
    RemoteBackend
    → ℕ
    → ℕ
    → ℕ
    → InstanceState
    → Option (Result (FetchRange × Handle) × InstanceState)
prepare_fetch_range backend offset len page_size s =
    elim (page_len s.inst.config.blob.size offset len page_size) [
      | err e ↦ some (err e, s)
      | ok real_len ↦ elim (ensure_range backend offset real_len s) [
        | none ↦ none
        | some out ↦ some (hand_out offset len out)
      ]
    ]
