-- ===== src/Dense/Resident/Greedy.antt =====
-- src/guanaco_steppeloader.cpp, fill_resident_layers: the walk over the layers.
use mathlib.Core.Path.{subst}
use guanaco.Base.{
  ℕ, zero, suc, ◌+◌, ◌≤◌, ◌<◌, ◌≡◌, ◌⊎◌, inl, inr, ◌&&◌, List, refl, ◌∙◌, ltb, Bool-cases, arith,
  min, if◌then◌else◌,
}
use guanaco.Base.Words.{add64, add64_small, u64_mod}
use guanaco.Dense.{StreamTensor, layer_bytes}
use guanaco.Dense.Resident.{walk, resident_prefix}

-- The bytes of the first n layers, as a number.
unfoldable pub prefix_bytes : List (ℕ × List StreamTensor) → ℕ → ℕ
prefix_bytes layers zero = 0
prefix_bytes layers (suc n) = prefix_bytes layers n + layer_bytes layers n

prefix_bytes_mono :
    (layers : List (ℕ × List StreamTensor)) (w d : ℕ)
    → prefix_bytes layers w ≤ prefix_bytes layers (d + w)
unfolding prefix_bytes
prefix_bytes_mono layers w zero =
    let same : w ≡ 0 + w = omega arith in
    subst (λ m. prefix_bytes layers w ≤ prefix_bytes layers m) same (omega arith)
prefix_bytes_mono layers w (suc d) =
    let same : suc (d + w) ≡ suc d + w = omega arith in
    subst (λ m. prefix_bytes layers w ≤ prefix_bytes layers m) same
      (omega (arith, prefix_bytes_mono layers w d))

prefix_zero : (layers : List (ℕ × List StreamTensor)) → 0 ≡ prefix_bytes layers 0
unfolding prefix_bytes
prefix_zero layers = refl

-- The prefix of `r` layers fits, or is one layer at most, and one more layer does not fit; with a
-- budget of 0 it is all the layers.
abbrev pub Longest : ℕ → List (ℕ × List StreamTensor) → ℕ → ℕ → Type 0
Longest budget layers n r =
    (r ≤ n)
    × ((budget ≡ 0) ⊎ ((r ≤ 1) ⊎ (prefix_bytes layers r ≤ budget)))
    × ((r ≡ n) ⊎ ((0 < budget) × (1 ≤ r) × (budget < prefix_bytes layers (suc r))))

walk-Longest :
    (budget : ℕ) (layers : List (ℕ × List StreamTensor)) (left w used n : ℕ)
    → left + w ≡ n
    → used ≡ prefix_bytes layers w
    → prefix_bytes layers n < u64_mod
    → (budget ≡ 0) ⊎ ((w ≤ 1) ⊎ (prefix_bytes layers w ≤ budget))
    → Longest budget layers n (walk budget layers left w used)
unfolding walk prefix_bytes
walk-Longest budget layers zero w used n all_ same fits ok = (omega arith, ok, inl (omega arith))
walk-Longest budget layers (suc left) w used n all_ same fits ok =
    let end : left + suc w ≡ n = omega arith in
    let mono : prefix_bytes layers (suc w) ≤ prefix_bytes layers n =
      subst (λ m. prefix_bytes layers (suc w) ≤ prefix_bytes layers m) end
        (prefix_bytes_mono layers (suc w) left) in
    let sum : add64 used (layer_bytes layers w) ≡ prefix_bytes layers (suc w) =
      add64_small used (layer_bytes layers w) (omega (arith, mono, fits, same))
      ∙ omega (arith, same) in
    elim (Bool-cases (ltb 0 budget && ltb 0 w && ltb budget (add64 used (layer_bytes layers w)))) [
      | inl stop ↦
          rw (stop, walk) (omega arith, ok, inr (ground arith, ground arith, ground (arith, sum)))
      | inr go ↦
          rw (go, walk)
            (walk-Longest budget layers left (suc w) (add64 used (layer_bytes layers w)) n end sum
              fits (ground (arith, sum)))
    ]

at_least_one : (w n : ℕ) → 1 ≤ w → w ≤ n → w ≡ min (if ltb w 1 then 1 else w) n
at_least_one w n one low = ground arith

-- Where the bytes of all the layers fit a size_t and there is a layer, the resident prefix has a
-- layer at least and fits the budget or is one layer, and either it is all the layers or the
-- budget is not 0 and one more layer would not fit; with a budget of 0 it is all the layers.
pub resident_prefix-Longest :
    (budget : ℕ) (layers : List (ℕ × List StreamTensor)) (n : ℕ)
    → 0 < n
    → prefix_bytes layers n < u64_mod
    → (1 ≤ resident_prefix budget layers n)
      × Longest budget layers n (resident_prefix budget layers n)
unfolding resident_prefix
resident_prefix-Longest budget layers n some_ fits =
    let (low, fit, more) =
      walk-Longest budget layers n 0 0 n (omega arith) (prefix_zero layers) fits
        (inr (inl (omega arith))) in
    let w = walk budget layers n 0 0 in
    let one : 1 ≤ w = elim more [ inl all_ ↦ omega arith | inr (limited, a, b) ↦ a ] in
    let same : w ≡ resident_prefix budget layers n = at_least_one w n one low in
    subst (λ r. (1 ≤ r) × Longest budget layers n r) same (one, (low, fit, more))
