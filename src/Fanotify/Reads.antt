-- ===== src/Fanotify/Reads.antt =====
-- The reader of events ends on every buffer, and never reads behind the end of it.
use lazyd.Base.{
  ℕ, zero, suc, ◌+◌, ◌<◌, ◌≡◌, inl, inr, arith, Bytes, true, false, ◌&&◌, ◌||◌, none, some, List,
  [], ◌∷◌, ◌++◌, length, length-drop, take, drop, ltb, leb, ◌==◌, Bool-cases, Option-cases,
}
use lazyd.Fanotify.{
  FanotifyEvent, FanotifyEventMetadata, Parse, returns, header_fields, range_fields,
  metadata_fields, range_of, parse_range_from, parse_range, event_of, slice, parse_events_from,
  parse_events, header_size, range_size, metadata_size, fan_event_info_type_range, is_pre_access,
}

abbrev Returns {ℓ} : {A : Type ℓ} → Parse A → Type ℓ
Returns {A = A} p = (a : A) × (p ≡ returns a)

parse_range_from-Returns :
    (fuel : ℕ) (rest : Bytes) → length rest < fuel → Returns (parse_range_from fuel rest)
unfolding parse_range_from
parse_range_from-Returns zero rest h = absurd (omega arith)
parse_range_from-Returns (suc fuel) rest h = elim (Bool-cases (ltb (length rest) header_size)) [
  | inl a ↦ (none, rw a)
  | inr a ↦
      let enough : leb header_size (length rest) ≡ true = ground arith in
      elim (Bool-cases
        (ltb (header_fields rest).len header_size || ltb (length rest) (header_fields rest).len)) [
          | inl b ↦ (none, rw (a, enough, b))
          | inr b ↦
              elim (Bool-cases (
                (header_fields rest).info_type == fan_event_info_type_range
                && leb range_size (header_fields rest).len)) [
                  | inl c ↦
                      let whole : leb range_size (length rest) ≡ true = ground arith in
                      (some (range_of (range_fields rest)), rw (a, enough, b, c, whole))
                  | inr c ↦
                      let (found, q) =
                        parse_range_from-Returns fuel (drop (header_fields rest).len rest)
                          (ground (arith, length-drop (header_fields rest).len rest)) in
                      (found, rw (a, enough, b, c, q))
                ]
        ]
]

parse_range-Returns : (event : Bytes) (metadata_len : ℕ) → Returns (parse_range event metadata_len)
unfolding parse_range
parse_range-Returns event n =
    parse_range_from-Returns (length event + 1) (drop n event) (omega (arith, length-drop n event))

event_of-Returns :
    (metadata : FanotifyEventMetadata) (rest : Bytes)
    → ltb (length rest) metadata.event_len ≡ false
    → Returns (event_of metadata rest)
unfolding event_of slice
event_of-Returns metadata rest whole = elim (Bool-cases (is_pre_access metadata.mask)) [
  | inr a ↦ ([], rw a)
  | inl a ↦
      let (found, q) = parse_range-Returns (take metadata.event_len rest) metadata.metadata_len in
      elim (Option-cases found) [
        | inl z ↦ ([], rw (a, slice, whole, q, z))
        | inr (range, z) ↦
            (record { fd = metadata.fd; range = range } ∷ [], rw (a, slice, whole, q, z))
      ]
]

parse_events_from-Returns :
    (fuel : ℕ) (rest : Bytes) → length rest < fuel → Returns (parse_events_from fuel rest)
unfolding parse_events_from
parse_events_from-Returns zero rest h = absurd (omega arith)
parse_events_from-Returns (suc fuel) rest h = elim (Bool-cases (ltb (length rest) metadata_size)) [
  | inl a ↦ ([], rw a)
  | inr a ↦
      let enough : leb metadata_size (length rest) ≡ true = ground arith in
      elim (Bool-cases (
        ltb (length rest) (metadata_fields rest).event_len
        || leb (metadata_fields rest).event_len metadata_size)) [
          | inl b ↦ ([], rw (a, enough, b))
          | inr b ↦
              let (found, q) = event_of-Returns (metadata_fields rest) rest (ground arith) in
              let (events, e) =
                parse_events_from-Returns fuel (drop (metadata_fields rest).event_len rest)
                  (ground (arith, length-drop (metadata_fields rest).event_len rest)) in
              (found ++ events, rw (a, enough, b, q, e))
        ]
]

-- On every buffer, whatever its bytes, parse_events returns: the assertion of read_unaligned never
-- fails, the slice of an event is within the buffer, and the model's fuel is enough.
pub parse_events_lem :
    (buf : Bytes) → (events : List FanotifyEvent) × (parse_events buf ≡ returns events)
unfolding parse_events
parse_events_lem buf = parse_events_from-Returns (length buf + 1) buf (omega arith)
