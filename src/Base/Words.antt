-- ===== src/Base/Words.antt =====
-- Arithmetic of `u64` and `usize` as the standard library gives it, on a 64-bit target.
use Prim.Native.Nat.{ℕ, ◌+◌, ◌*◌, ◌/◌, ◌%◌, ◌^◌, ◌≤◌, ◌<◌}
use mathlib.Core.Option.{Option, none, some}
use native.Mathlib.Omega.{arith}
use lazyd.Base.Tests.{ltb, if◌then◌else◌}

abbrev pub u64_end : ℕ
u64_end = 2 ^ 64

-- `u64::checked_add`
abbrev pub checked_add : ℕ → ℕ → Option ℕ
checked_add a b = if ltb (a + b) u64_end then some (a + b) else none

-- `u64::checked_mul`
abbrev pub checked_mul : ℕ → ℕ → Option ℕ
checked_mul a b = if ltb (a * b) u64_end then some (a * b) else none

-- `+` and `*` of a build without overflow checks
abbrev pub wrapping_add : ℕ → ℕ → ℕ
wrapping_add a b = (a + b) % u64_end

abbrev pub wrapping_mul : ℕ → ℕ → ℕ
wrapping_mul a b = (a * b) % u64_end

-- `u64::div_ceil`
unfoldable pub div_ceil : ℕ → ℕ → ℕ
div_ceil a b = if ltb 0 (a % b) then a / b + 1 else a / b

pub div_ceil_upper : (a b : ℕ) → 0 < b → a ≤ div_ceil a b * b
unfolding div_ceil
div_ceil_upper a b h = grind arith

pub div_ceil_lower : (a b : ℕ) → 0 < b → div_ceil a b * b < a + b
unfolding div_ceil
div_ceil_lower a b h = grind arith
