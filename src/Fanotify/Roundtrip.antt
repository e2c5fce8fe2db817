-- ===== src/Fanotify/Roundtrip.antt =====
-- The events that the kernel writes are the events that are read.
use lazyd.Base.{
  ℕ, zero, suc, ◌+◌, ◌*◌, ◌/◌, ◌%◌, ◌^◌, ◌<◌, ◌≡◌, refl, arith, Bytes, true, false, some, List, [],
  ◌∷◌, ◌++◌, length, take, drop, ltb, leb, ◌==◌, if◌then◌else◌,
}
use lazyd.Fanotify.{
  FanotifyEvent, returns, le, header_fields, range_fields, metadata_fields, range_of,
  parse_range_from, parse_range, event_of, slice, parse_events_from, parse_events, metadata_size,
  fan_pre_access,
}

unfoldable pub le_bytes : ℕ → ℕ → Bytes
le_bytes zero v = []
le_bytes (suc n) v = v % 256 ∷ le_bytes n (v / 256)

-- An event for access to a range of the file that `fd` is open at, as the kernel lays it out.
pub record KernelEvent : Type 0 where
  pub fd : ℕ
  pub pid : ℕ
  pub offset : ℕ
  pub count : ℕ

-- The numbers are those of their types.
pub record IsRepresentable (e : KernelEvent) : Type 0 where
  pub fd : e.fd < 2 ^ 32
  pub offset : e.offset < 2 ^ 64
  pub count : e.count < 2 ^ 64

-- A metadata record of 24 bytes, and one information record of 24 bytes.
unfoldable pub encode : KernelEvent → Bytes
encode e =
    48 ∷ 0 ∷ 0 ∷ 0 ∷ 3 ∷ 0 ∷ 24 ∷ 0 ∷ 0 ∷ 0 ∷ 16 ∷ 0 ∷ 0 ∷ 0 ∷ 0 ∷ 0 ∷ le_bytes 4 e.fd
    ++ le_bytes 4 e.pid
    ++ 6 ∷ 0 ∷ 24 ∷ 0 ∷ 0 ∷ 0 ∷ 0 ∷ 0 ∷ le_bytes 8 e.offset
    ++ le_bytes 8 e.count

unfoldable pub encode_all : List KernelEvent → Bytes
encode_all [] = []
encode_all (e ∷ es) = encode e ++ encode_all es

unfoldable pub decoded : KernelEvent → FanotifyEvent
decoded e = record {
  fd = e.fd;
  range = record { offset = e.offset; len = if e.count == 0 then 4 * 1024 * 1024 else e.count };
}

fd_read : (e : KernelEvent) (rest : Bytes) → e.fd < 2 ^ 32 → le 4 16 (encode e ++ rest) ≡ e.fd
unfolding encode le le_bytes
fd_read e rest h = omega arith

offset_read : (e : KernelEvent) → e.offset < 2 ^ 64 → le 8 8 (drop 24 (encode e)) ≡ e.offset
unfolding encode le le_bytes
offset_read e h = omega arith

count_read : (e : KernelEvent) → e.count < 2 ^ 64 → le 8 16 (drop 24 (encode e)) ≡ e.count
unfolding encode le le_bytes
count_read e h = omega arith

-- `rest` behind the event
metadata_read :
    (e : KernelEvent) (rest : Bytes)
    → IsRepresentable e
    → metadata_fields (encode e ++ rest)
      ≡ record { event_len = 48; metadata_len = 24; mask = fan_pre_access; fd = e.fd }
unfolding metadata_fields
metadata_read e rest r =
    let len : le 4 0 (encode e ++ rest) ≡ 48 =
      unfold encode in unfold le in unfold le_bytes in omega arith in
    let meta : le 2 6 (encode e ++ rest) ≡ 24 =
      unfold encode in unfold le in unfold le_bytes in omega arith in
    let mask : le 8 8 (encode e ++ rest) ≡ fan_pre_access =
      unfold encode in unfold le in unfold le_bytes in omega arith in
    rw (len, meta, mask, fd_read e rest r.fd) refl

header_read :
    (e : KernelEvent) → header_fields (drop 24 (encode e)) ≡ record { info_type = 6; len = 24 }
unfolding header_fields encode le le_bytes
header_read e = refl

range_read :
    (e : KernelEvent)
    → IsRepresentable e
    → range_fields (drop 24 (encode e)) ≡ record { offset = e.offset; count = e.count }
unfolding range_fields
range_read e r = rw (offset_read e r.offset, count_read e r.count) refl

length-encode : (e : KernelEvent) → length (drop 24 (encode e)) ≡ 24
unfolding encode le_bytes
length-encode e = refl

parse_range-encode :
    (fuel : ℕ) (e : KernelEvent)
    → IsRepresentable e
    → parse_range_from (suc fuel) (drop 24 (encode e))
      ≡ returns (some (range_of (record { offset = e.offset; count = e.count })))
unfolding parse_range_from
parse_range-encode fuel e r = rw (length-encode e, header_read e, range_read e r) refl

take_event :
    (e : KernelEvent) (rest : Bytes)
    → (take 48 (encode e ++ rest) ≡ encode e)
      × (drop 48 (encode e ++ rest) ≡ rest)
      × (length (encode e ++ rest) ≡ 48 + length rest)
unfolding encode le_bytes
take_event e rest = (refl, refl, omega arith)

slice_event : (e : KernelEvent) (rest : Bytes) → slice 48 (encode e ++ rest) ≡ returns (encode e)
unfolding slice
slice_event e rest =
    let t = take_event e rest in
    let whole : ltb (48 + length rest) 48 ≡ false = ground arith in rw (slice, t.2, whole, t.0) refl

parse_range_event :
    (e : KernelEvent)
    → IsRepresentable e
    → parse_range (encode e) 24
      ≡ returns (some (range_of (record { offset = e.offset; count = e.count })))
unfolding parse_range encode le_bytes
parse_range_event e r = parse_range-encode 48 e r

event_of-encode :
    (e : KernelEvent) (rest : Bytes)
    → IsRepresentable e
    → event_of
        (record { event_len = 48; metadata_len = 24; mask = fan_pre_access; fd = e.fd })
        (encode e ++ rest)
      ≡ returns (decoded e ∷ [])
unfolding event_of decoded range_of
event_of-encode e rest r = rw (event_of, slice_event e rest, parse_range_event e r) refl

abbrev pub AllRepresentable : List KernelEvent → Type 0
AllRepresentable [] = Unit {0}
AllRepresentable (e ∷ es) = IsRepresentable e × AllRepresentable es

unfoldable pub decoded_all : List KernelEvent → List FanotifyEvent
decoded_all [] = []
decoded_all (e ∷ es) = decoded e ∷ decoded_all es

parse_events_from-encode :
    (fuel : ℕ) (e : KernelEvent) (rest : Bytes) (events : List FanotifyEvent)
    → IsRepresentable e
    → parse_events_from fuel rest ≡ returns events
    → parse_events_from (suc fuel) (encode e ++ rest) ≡ returns (decoded e ∷ events)
unfolding parse_events_from
parse_events_from-encode fuel e rest events r q =
    let t = take_event e rest in
    let a : ltb (48 + length rest) metadata_size ≡ false = ground arith in
    let b : leb metadata_size (48 + length rest) ≡ true = ground arith in
    let c : ltb (48 + length rest) 48 ≡ false = ground arith in
    rw (t.2, a, b, metadata_read e rest r, c, event_of-encode e rest r, t.1, q) refl

read_all :
    (fuel : ℕ) (es : List KernelEvent)
    → AllRepresentable es
    → length (encode_all es) < fuel
    → parse_events_from fuel (encode_all es) ≡ returns (decoded_all es)
unfolding encode_all decoded_all parse_events_from
read_all zero es r h = absurd (omega arith)
read_all (suc fuel) [] r h = refl
read_all (suc fuel) (e ∷ es) r h =
    parse_events_from-encode fuel e (encode_all es) (decoded_all es) r.0
      (read_all fuel es r.1 (let t = (take_event e (encode_all es)).2 in omega arith))

-- A buffer of events for access, each as a metadata record of 24 bytes and a range record of 24
-- bytes, with numbers of their types, reads as these events in their order; an event whose count
-- is zero gets a window of 4 MiB.
pub parse_events-encode_all :
    (es : List KernelEvent)
    → AllRepresentable es
    → parse_events (encode_all es) ≡ returns (decoded_all es)
unfolding parse_events
parse_events-encode_all es r = read_all (length (encode_all es) + 1) es r (omega arith)
