-- ===== src/Base/Count.antt =====
-- Counting the indices below a bound that pass a test, as the source's index loops do.
use Prim.Native.Nat.{ℕ, zero, suc, ◌≤◌, ◌<◌}
use mathlib.Core.Path.{◌≡◌, refl, ap}
use mathlib.Core.Logic.{◌≢◌}
use mathlib.Core.Bool.{Bool, true, false}
use native.Mathlib.Omega.{arith}
use native.Mathlib.Decide.{ℕ_discrete}
use guanaco.Base.Tests.{if◌then◌else◌}

-- for (i = 0; i < n; ++i) if (p(i)) ++count;
unfoldable pub count_below : ℕ → (ℕ → Bool) → ℕ
count_below zero p = 0
count_below (suc n) p = if p n then suc (count_below n p) else count_below n p

pub count_below-le : (n : ℕ) (p : ℕ → Bool) → count_below n p ≤ n
unfolding count_below
count_below-le zero p = omega arith
count_below-le (suc n) p = ground (arith, count_below-le n p)

pub count_below-ext :
    (n : ℕ) (p q : ℕ → Bool) → ((i : ℕ) → i < n → p i ≡ q i) → count_below n p ≡ count_below n q
unfolding count_below
count_below-ext zero p q h = refl
count_below-ext (suc n) p q h =
    ground (arith, h n (omega arith), count_below-ext n p q (λ i l. h i (omega arith)))

pub count_below_mono :
    (n : ℕ) (p q : ℕ → Bool)
    → ((i : ℕ) → i < n → p i ≡ true → q i ≡ true)
    → count_below n p ≤ count_below n q
unfolding count_below
count_below_mono zero p q h = omega arith
count_below_mono (suc n) p q h =
    ground (arith, h n (omega arith), count_below_mono n p q (λ i l. h i (omega arith)))

-- Two tests that differ at one index only.
pub count_below-flip :
    (n k : ℕ) (p q : ℕ → Bool)
    → k < n
    → p k ≡ true
    → q k ≡ false
    → ((i : ℕ) → i ≢ k → p i ≡ q i)
    → count_below n p ≡ suc (count_below n q)
unfolding count_below
count_below-flip zero k p q l hp hq h = absurd (omega arith)
count_below-flip (suc n) k p q l hp hq h = elim (ℕ_discrete n k) [
  | yes e ↦
      ground
        (arith, ap p e, ap q e, count_below-ext n p q (λ i il. h i (λ c. absurd (omega arith))))
  | no ne ↦ ground (arith, h n ne, count_below-flip n k p q (omega arith) hp hq h)
]

pub count_below-zero : (n : ℕ) (p : ℕ → Bool) → count_below n p ≡ 0 → (i : ℕ) → i < n → p i ≡ false
unfolding count_below
count_below-zero zero p e i l = absurd (omega arith)
count_below-zero (suc n) p e i l = elim (ℕ_discrete i n) [
  | yes here ↦ ground (arith, ap p here)
  | no ne ↦ ground (arith, count_below-zero n p _ i (omega arith))
]

pub count_below-eq_zero :
    (n : ℕ) (p : ℕ → Bool) → ((i : ℕ) → i < n → p i ≡ false) → count_below n p ≡ 0
unfolding count_below
count_below-eq_zero zero p h = refl
count_below-eq_zero (suc n) p h =
    ground (arith, h n (omega arith), count_below-eq_zero n p (λ i l. h i (omega arith)))

pub count_below-all : (n : ℕ) (p : ℕ → Bool) → ((i : ℕ) → i < n → p i ≡ true) → count_below n p ≡ n
unfolding count_below
count_below-all zero p h = refl
count_below-all (suc n) p h =
    ground (arith, h n (omega arith), count_below-all n p (λ i l. h i (omega arith)))
