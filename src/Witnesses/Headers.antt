-- ===== src/Witnesses/Headers.antt =====
-- JSON that knows one header, and what `encode_header` makes of it.
use lazyd.Base.{
  ◌+◌, ◌-◌, ◌^◌, if◌then◌else◌, ◌≡◌, refl, ap, subst, inl, inr, text, text_eq, [], ◌∷◌, replicate,
}
use lazyd.Errors.{Error, ok, err}
use lazyd.Base.{Bool-cases, ◌++◌}
use lazyd.Base.{sym, Bytes}
use lazyd.RangeMap.Open.{Header, HeaderCodec, CodecLaws, encode_header, header_eq, magic, IsLine}
use lazyd.RangeMap.Open.Codec.{header_eq_sound}

abbrev pub one_header : Header
one_header = record {
  magic = magic;
  version = 1;
  unit_bytes = 2 ^ 20;
  blob_digest = text "sha256:a";
  blob_size = 5;
  slot_count = 1;
}

abbrev pub toy_json : HeaderCodec
toy_json = record {
  to_vec = λ h. if header_eq h one_header then ok (65 ∷ []) else err (Error.json []);
  from_slice = λ b. ok one_header;
}

toy_cases : (h : Header) (b : Bytes) → toy_json.to_vec h ≡ ok b → (h ≡ one_header) × (65 ∷ [] ≡ b)
toy_cases h b q = elim (Bool-cases (header_eq h one_header)) [
  | inl e ↦ (header_eq_sound h one_header e, let z = rw e at q in cc)
  | inr e ↦ absurd (let z = rw e at q in cc)
]

pub toy_json-CodecLaws : CodecLaws toy_json
toy_json-CodecLaws = record {
  reads_back = λ h b q. ap ok (sym (toy_cases h b q).0);
  nonempty = λ h b q z. let e = (toy_cases h b q).1 in cc;
  one_line = λ h b q. subst IsLine (toy_cases h b q).1 (refl, tt);
}

abbrev pub header_bytes : Bytes
header_bytes = (65 ∷ []) ++ b'\n' ∷ replicate (4096 - (1 + 1)) 0

pub one_header_runs : encode_header toy_json one_header ≡ ok header_bytes
unfolding encode_header header_eq text text_eq
one_header_runs = refl
