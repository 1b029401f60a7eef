-- ===== src/Base/Int.antt =====
-- Signed integers over the native numbers, for indices that may be negative.
use Prim.Native.Nat.{ℕ, ◌<◌}
use mathlib.Core.Path.{◌≡◌}
use mathlib.Core.Logic.{◌↔◌}
use mathlib.Core.Bool.{Bool, true, false}
use mathlib.Core.Option.{Option, none, some}
use native.Mathlib.Omega.{arith}
use guanaco.Base.Tests.{ltb, ◌==◌, if◌then◌else◌}

-- `negsuc n` is -(n + 1).
pub data ℤ : Type 0 where
  pos : ℕ → ℤ
  negsuc : ℕ → ℤ

infix 50 ◌==ℤ◌
abbrev pub ◌==ℤ◌ : ℤ → ℤ → Bool
pos a ==ℤ pos b = a == b
pos a ==ℤ negsuc b = false
negsuc a ==ℤ pos b = false
negsuc a ==ℤ negsuc b = a == b

abbrev pub ltb_ℤ : ℤ → ℤ → Bool
ltb_ℤ (pos a) (pos b) = ltb a b
ltb_ℤ (pos a) (negsuc b) = false
ltb_ℤ (negsuc a) (pos b) = true
ltb_ℤ (negsuc a) (negsuc b) = ltb b a

-- `if (id < 0 || id >= n) continue;`: the index, if it is in range.
abbrev pub index_of : ℤ → ℕ → Option ℕ
index_of (pos i) n = if ltb i n then some i else none
index_of (negsuc i) n = none

pub ==ℤ_iff : (a b : ℤ) → ((a ==ℤ b) ≡ true) ↔ (a ≡ b)
==ℤ_iff (pos a) (pos b) = (λ h. ground arith, λ h. ground arith)
==ℤ_iff (pos a) (negsuc b) = (λ h. cc, λ h. cc)
==ℤ_iff (negsuc a) (pos b) = (λ h. cc, λ h. cc)
==ℤ_iff (negsuc a) (negsuc b) = (λ h. ground arith, λ h. ground arith)

pub index_of-lt : (z : ℤ) (n : ℕ) {i : ℕ} → index_of z n ≡ some i → i < n
index_of-lt (pos a) n h = ground arith
index_of-lt (negsuc a) n h = cc
