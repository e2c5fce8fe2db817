-- ===== src/Fanotify.antt =====
-- src/fanotify.rs: the events of the kernel, which ask for access to a marked file. This file has
-- the reader of a buffer of events; `Loop` answers them.
pub mod Loop
pub mod Marks
pub mod Reads
pub mod Roundtrip
use lazyd.Base.{
  ℕ, zero, suc, ◌+◌, ◌-◌, ◌*◌, ◌/◌, ◌%◌, ◌^◌, Bytes, Bool, true, false, ◌&&◌, ◌||◌, not, Option,
  none, some, List, [], ◌∷◌, ◌++◌, length, get_or, take, drop, ltb, leb, ◌==◌, if◌then◌else◌,
}

abbrev pub fan_pre_access : ℕ
fan_pre_access = 2 ^ 20

abbrev pub fan_event_info_type_range : ℕ
fan_event_info_type_range = 6

abbrev pub fan_allow : ℕ
fan_allow = 1

abbrev pub fan_deny : ℕ
fan_deny = 2

abbrev pub default_zero_count_window : ℕ
default_zero_count_window = 4 * 1024 * 1024

pub record FanotifyRange : Type 0 where
  pub offset : ℕ
  pub len : ℕ

-- The descriptors are the bit patterns of `i32`.
pub record FanotifyEventMetadata : Type 0 where
  pub event_len : ℕ
  pub metadata_len : ℕ
  pub mask : ℕ
  pub fd : ℕ

pub record FanotifyEventInfoHeader : Type 0 where
  pub info_type : ℕ
  pub len : ℕ

pub record FanotifyEventInfoRange : Type 0 where
  pub offset : ℕ
  pub count : ℕ

pub record FanotifyEvent : Type 0 where
  pub fd : ℕ
  pub range : FanotifyRange

-- `size_of`
abbrev pub metadata_size : ℕ
metadata_size = 24

abbrev pub header_size : ℕ
header_size = 4

abbrev pub range_size : ℕ
range_size = 24

-- The value of `n` bytes from `i` on, the least first, as x86-64 and aarch64 have it.
unfoldable pub le : ℕ → ℕ → Bytes → ℕ
le zero i bytes = 0
le (suc n) i bytes = get_or bytes i 0 + 256 * le n (i + 1) bytes

-- A return; or a panic, of the `assert!` in `read_unaligned` or of a slice that is out of bounds;
-- or the model's own end of its fuel.
pub data Parse {ℓ} (A : Type ℓ) : Type ℓ where
  panics out_of_fuel : Parse A
  returns : A → Parse A

abbrev pub then_parse {ℓ κ} : {A : Type ℓ} {B : Type κ} → Parse A → (A → Parse B) → Parse B
then_parse panics f = panics
then_parse out_of_fuel f = out_of_fuel
then_parse (returns a) f = f a

-- `read_unaligned::<T>`, with the size and the fields of `T`
abbrev pub read_unaligned {ℓ} : {T : Type ℓ} → ℕ → (Bytes → T) → Bytes → Parse T
read_unaligned size fields bytes =
    if leb size (length bytes) then returns (fields bytes) else panics

-- The first `n` of the bytes, as a slice
unfoldable pub slice : ℕ → Bytes → Parse Bytes
slice n bytes = if ltb (length bytes) n then panics else returns (take n bytes)

unfoldable pub metadata_fields : Bytes → FanotifyEventMetadata
metadata_fields bytes = record {
  event_len = le 4 0 bytes;
  metadata_len = le 2 6 bytes;
  mask = le 8 8 bytes;
  fd = le 4 16 bytes;
}

unfoldable pub header_fields : Bytes → FanotifyEventInfoHeader
header_fields bytes = record { info_type = le 1 0 bytes; len = le 2 2 bytes }

unfoldable pub range_fields : Bytes → FanotifyEventInfoRange
range_fields bytes = record { offset = le 8 8 bytes; count = le 8 16 bytes }

unfoldable pub range_of : FanotifyEventInfoRange → FanotifyRange
range_of info = record {
  offset = info.offset;
  len = if info.count == 0 then default_zero_count_window else info.count;
}

-- The loop of `parse_range`, on the bytes `event[cursor..]`
unfoldable pub parse_range_from : ℕ → Bytes → Parse (Option FanotifyRange)
parse_range_from zero rest = out_of_fuel
parse_range_from (suc fuel) rest =
    let again : ℕ → Parse (Option FanotifyRange) = λ n. parse_range_from fuel (drop n rest) in
    if ltb (length rest) header_size
    then returns none
    else then_parse (read_unaligned header_size header_fields rest) (λ header.
      if ltb header.len header_size || ltb (length rest) header.len
      then returns none
      else if header.info_type == fan_event_info_type_range && leb range_size header.len
      then then_parse (read_unaligned range_size range_fields rest)
          (λ info. returns (some (range_of info)))
      else again header.len)

unfoldable pub parse_range : Bytes → ℕ → Parse (Option FanotifyRange)
parse_range event metadata_len = parse_range_from (length event + 1) (drop metadata_len event)

-- `metadata.mask & FAN_PRE_ACCESS != 0`
abbrev pub is_pre_access : ℕ → Bool
is_pre_access mask = mask / fan_pre_access % 2 == 1

-- The event that starts `rest`, `&buf[cursor..cursor + event_len]`, if it asks for access and has a
-- range.
unfoldable pub event_of : FanotifyEventMetadata → Bytes → Parse (List FanotifyEvent)
event_of metadata rest =
    if is_pre_access metadata.mask
    then then_parse (slice metadata.event_len rest) (λ event.
      then_parse (parse_range event metadata.metadata_len) (λ found. elim found [
        | none ↦ returns []
        | some range ↦ returns (record { fd = metadata.fd; range = range } ∷ [])
      ]))
    else returns []

-- The loop of `parse_events`, on the bytes `buf[cursor..]`
unfoldable pub parse_events_from : ℕ → Bytes → Parse (List FanotifyEvent)
parse_events_from zero rest = out_of_fuel
parse_events_from (suc fuel) rest =
    let again : ℕ → Parse (List FanotifyEvent) = λ n. parse_events_from fuel (drop n rest) in
    if ltb (length rest) metadata_size
    then returns []
    else then_parse (read_unaligned metadata_size metadata_fields rest) (λ metadata.
      if ltb (length rest) metadata.event_len || leb metadata.event_len metadata_size
      then returns []
      else then_parse (event_of metadata rest)
          (λ found. then_parse (again metadata.event_len) (λ events. returns (found ++ events))))

unfoldable pub parse_events : Bytes → Parse (List FanotifyEvent)
parse_events buf = parse_events_from (length buf + 1) buf
