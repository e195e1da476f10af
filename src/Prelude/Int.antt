-- ===== src/Prelude/Int.antt =====
-- Signed integers: `negsuc n` is -(n + 1).
use Prim.Native.Nat.{ℕ, ◌+◌, ◌-◌}
use mathlib.Core.Path.{◌≡◌}
use mathlib.Core.Bool.{Bool, true, false}
use native.Mathlib.Omega.{arith}
use operator_go.Prelude.Tests.{ltb, leb, eqb, if◌then◌else◌}

pub data ℤ : Type 0 where
  pos : ℕ → ℤ
  negsuc : ℕ → ℤ

-- `a < b`
abbrev pub ltz : ℤ → ℤ → Bool
ltz (pos a) (pos b) = ltb a b
ltz (pos a) (negsuc b) = false
ltz (negsuc a) (pos b) = true
ltz (negsuc a) (negsuc b) = ltb b a

-- `a == b`
abbrev pub eqz : ℤ → ℤ → Bool
eqz (pos a) (pos b) = eqb a b
eqz (negsuc a) (negsuc b) = eqb a b
eqz _ _ = false

pub eqz→eq : (a b : ℤ) → eqz a b ≡ true → a ≡ b
eqz→eq (pos a) (pos b) h = ground arith
eqz→eq (negsuc a) (negsuc b) h = ground arith
eqz→eq (pos a) (negsuc b) h = ground arith
eqz→eq (negsuc a) (pos b) h = ground arith

pub ltz_irrefl : (a : ℤ) → ltz a a ≡ false
ltz_irrefl (pos a) = ground arith
ltz_irrefl (negsuc a) = ground arith

pub ltz_trans : (a b c : ℤ) → ltz a b ≡ true → ltz b c ≡ true → ltz a c ≡ true
ltz_trans (pos a) (pos b) (pos c) p q = ground arith
ltz_trans (negsuc a) (negsuc b) (negsuc c) p q = ground arith
ltz_trans _ _ _ p q = ground arith

pub ltz_total : (a b : ℤ) → ltz a b ≡ false → ltz b a ≡ false → a ≡ b
ltz_total (pos a) (pos b) p q = ground arith
ltz_total (negsuc a) (negsuc b) p q = ground arith
ltz_total _ _ p q = ground arith

pub not-ltz_trans : (a b c : ℤ) → ltz a b ≡ false → ltz b c ≡ false → ltz a c ≡ false
not-ltz_trans (pos a) (pos b) (pos c) p q = ground arith
not-ltz_trans (negsuc a) (negsuc b) (negsuc c) p q = ground arith
not-ltz_trans _ _ _ p q = ground arith

pub ltz_asymm : (a b : ℤ) → ltz a b ≡ true → ltz b a ≡ false
ltz_asymm (pos a) (pos b) p = ground arith
ltz_asymm (negsuc a) (negsuc b) p = ground arith
ltz_asymm _ _ p = ground arith

-- `a - b`
abbrev pub minus : ℕ → ℕ → ℤ
minus a b = if leb b a then pos (a - b) else negsuc (b - a - 1)

-- `a + n`
abbrev pub plus : ℤ → ℕ → ℤ
plus (pos a) n = pos (a + n)
plus (negsuc a) n = minus n (a + 1)
