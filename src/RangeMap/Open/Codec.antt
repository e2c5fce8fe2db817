-- ===== src/RangeMap/Open/Codec.antt =====
-- `encode_header` and `read_header` of src/range_map.rs are inverse to each other.
use lazyd.Base.{
  ℕ, ◌+◌, ◌-◌, ◌≤◌, ◌≡◌, refl, ap, inl, inr, Bytes, true, some, [], ◌∷◌, ◌++◌, length, take,
  replicate, ltb, arith, Bool-cases, text_eq_sound, length-append, length-replicate, ltb→le,
}
use lazyd.Errors.{ok, err}
use lazyd.Exec.{Result-cases}
use lazyd.RangeMap.{header_size}
use lazyd.RangeMap.Open.{
  Header, header_eq, HeaderCodec, CodecLaws, is_terminator, IsLine, position, encode_header,
  decode_header,
}

pub header_eq_sound : (a b : Header) → header_eq a b ≡ true → a ≡ b
unfolding header_eq
header_eq_sound a b h =
    ground (arith, text_eq_sound a.magic b.magic, text_eq_sound a.blob_digest b.blob_digest)

position-line :
    (b : Bytes) (c : ℕ) (rest : Bytes)
    → IsLine b
    → is_terminator c ≡ true
    → position is_terminator (b ++ c ∷ rest) ≡ some (length b)
unfolding position
position-line [] c rest h t = rw t
position-line (x ∷ b) c rest h t = rw (h.0, position-line b c rest h.1 t)

take-append : (b c : Bytes) → take (length b) (b ++ c) ≡ b
take-append [] c = refl
take-append (x ∷ b) c = ap (λ t. x ∷ t) (take-append b c)

abbrev padded : Bytes → Bytes
padded encoded = encoded ++ b'\n' ∷ replicate (header_size - (length encoded + 1)) 0

length-padded :
    (encoded : Bytes) → length encoded + 1 ≤ header_size → length (padded encoded) ≡ header_size
length-padded encoded fits = simp (length-append, length-replicate) (omega arith)

module _ (json : HeaderCodec) (laws : CodecLaws json) where
  decode-padded :
      (h : Header) (encoded : Bytes)
      → json.to_vec h ≡ ok encoded
      → decode_header json (padded encoded) ≡ ok h
  unfolding decode_header
  decode-padded h [] q = absurd (laws.nonempty h [] q refl)
  decode-padded h (x ∷ encoded) q =
      rw
        (
          position-line (x ∷ encoded) b'\n' (replicate (header_size - (length (x ∷ encoded) + 1)) 0)
              (laws.one_line h (x ∷ encoded) q) refl,
          decode_header,
        )
        (rw (take-append encoded (b'\n' ∷ replicate (header_size - (length (x ∷ encoded) + 1)) 0))
          (ground (arith, laws.reads_back h (x ∷ encoded) q)))

  -- With JSON on one line that reads back, what encode_header gives is 4096 bytes long, and
  -- decoding it gives the header.
  pub decode-encode_header :
      (h : Header) (b : Bytes)
      → encode_header json h ≡ ok b
      → (length b ≡ header_size) × (decode_header json b ≡ ok h)
  unfolding encode_header
  decode-encode_header h b e = elim (Result-cases (json.to_vec h)) [
    | inr (x, q) ↦ let f : err x ≡ ok b = (rw (q, encode_header) at e) in cc
    | inl (encoded, q) ↦ elim (Bool-cases (ltb header_size (length encoded + 1))) [
      | inl big ↦ let f = (rw (q, encode_header, big) at e) in cc
      | inr fits ↦
          let f : ok (padded encoded) ≡ ok b = (rw (q, encode_header, fits) at e) in
          let same : padded encoded ≡ b = cc in
          rw (← same) (length-padded encoded (ltb→le _ _ fits), decode-padded h encoded q)
    ]
  ]
