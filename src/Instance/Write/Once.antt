-- ===== src/Instance/Write/Once.antt =====
-- One `write_at` of a task that shares the file with others.
use lazyd.Base.{
  ℕ, ◌+◌, ◌≤◌, ◌<◌, ◌≡◌, refl, ◌⊎◌, inl, inr, Text, Bytes, length, get_or, drop, arith,
}
use lazyd.Errors.{Error, io, ok, err}
use lazyd.Disk.{Disk, write_at}
use lazyd.Instance.{write_zero}
use lazyd.Instance.Write.{
  byte_at, Written, WroteSome, write_at-WroteSome, Written-refl, Written-round, now,
}

-- The first `n` of the bytes are in the file, and nothing but these bytes was written.
pub record Put (path : Text) (bytes : Bytes) (offset : ℕ) (d : Disk) (n : ℕ) (e : Disk)
    : Type 0 where
  pub few : n ≤ length bytes
  pub written : Written path bytes offset d (err (io write_zero)) e
  pub new : (k : ℕ) → k < n → byte_at e path (offset + k) ≡ get_or bytes k 0

pub write_at-Put :
    (path : Text) (bytes : Bytes) (offset : ℕ) (d : Disk)
    → ((x : Error) × (n : ℕ) × ((write_at path bytes offset d).0 ≡ err x)
        × Put path bytes offset d n (write_at path bytes offset d).1)
      ⊎ ((n : ℕ) × ((write_at path bytes offset d).0 ≡ ok n)
          × Put path bytes offset d n (write_at path bytes offset d).1)
unfolding WroteSome
write_at-Put path bytes offset d = elim (write_at-WroteSome path bytes offset d) [
  | inl (x, q, same) ↦ inl (
    x,
    0,
    q,
    record {
      few = omega arith;
      written = Written-refl path bytes offset d _ _ same (λ z. cc);
      new = λ k lt. absurd (omega arith);
    },
  )
  | inr (n, q, le, f) ↦
      let e : Disk = (write_at path bytes offset d).1 in
      let rest : Written path (drop n bytes) (offset + n) e (err (io write_zero)) e =
        Written-refl path (drop n bytes) (offset + n) e e (err (io write_zero)) refl (λ z. cc) in
      inr (
        n,
        q,
        record {
          few = le;
          written = Written-round path bytes offset d e e (err (io write_zero)) n le f rest;
          new = now path bytes offset d e e (err (io write_zero)) n le f rest;
        },
      )
]
