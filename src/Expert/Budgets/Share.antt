-- ===== src/Expert/Budgets/Share.antt =====
-- The budgets that recompute_budgets hands out.
use native.Mathlib.Nat.{div-lt_iff_lt-mul, mul-le-mul_right}
use native.Mathlib.Decide.{dec_le}
use guanaco.Base.{
  ◌⊎◌, ℕ, suc, ◌*◌, ◌/◌, ◌≤◌, ◌<◌, List, [], ◌∷◌, map, arith, length, All, Bool-cases, inl, inr,
  ◌==◌, ℤ, pos, negsuc, ltb, true, ◌%◌, ◌^◌, ◌≡◌, refl, sym, ap, All-map,
}
use guanaco.Text.{to_int}
use mathlib.Core.Path.{subst}
use guanaco.Expert.{ExpertTensor, Config, Experts}
use guanaco.Expert.Budgets.{
  share, at_least_one, above_zero, global_cap, distinct, set_budget, total_demand, assign_budgets,
  recompute_budgets,
}

at_least_one_lem : (z : ℤ) → 1 ≤ at_least_one z
at_least_one_lem (pos n) = ground arith
at_least_one_lem (negsuc n) = omega arith

share_bounds :
    (global cap demand d : ℕ)
    → 0 < global
    → (1 ≤ share global cap demand d) × (share global cap demand d ≤ global)
unfolding share
share_bounds global cap demand d h =
    let low = at_least_one_lem (to_int (pos (d * cap / demand))) in ground (arith, low)

div_mono : (a b n : ℕ) → a ≤ b → 0 < n → a / n ≤ b / n
div_mono a b n h pos_n =
    let below = (div-lt_iff_lt-mul {x = b} {y = suc (b / n)} pos_n).0 (omega arith) in
    let step = (div-lt_iff_lt-mul {x = a} {y = suc (b / n)} pos_n).1 (omega arith) in omega arith

-- A part of the demand gets a part of the cap.
portion_le : (cap demand d : ℕ) → 0 < demand → d ≤ demand → d * cap / demand ≤ cap
portion_le cap demand d h le =
    let most = mul-le-mul_right cap le in
    let below = (div-lt_iff_lt-mul {x = d * cap} {y = suc cap} h).1 (grind arith) in omega arith

to_int_small : (n : ℕ) → n < 2 ^ 31 → to_int (pos n) ≡ pos n
to_int_small n h =
    let same : n % 2 ^ 32 ≡ n = omega arith in
    let low : ltb n (2 ^ 31) ≡ true = ground arith in rw (same, low) refl

-- More distinct experts never get a tensor a smaller share, of a cap that fits an int.
share_mono :
    (global cap demand d e : ℕ)
    → 0 < demand
    → cap < 2 ^ 31
    → d ≤ e
    → e ≤ demand
    → share global cap demand d ≤ share global cap demand e
unfolding share
share_mono global cap demand d e h fits k most =
    let more = div_mono (d * cap) (e * cap) demand (mul-le-mul_right cap k) h in
    let le = portion_le cap demand e h most in
    let one = to_int_small (d * cap / demand) (omega (arith, more, le, fits)) in
    let two = to_int_small (e * cap / demand) (omega (arith, le, fits)) in
    rw (one, two) (ground (arith, more))

module _ {F : Type 0} where
  -- A budget in [1, global], that grows with the number of distinct experts the tensor has used.
  abbrev pub IsFair : ℕ → List (ExpertTensor F) → ExpertTensor F → Type 0
  IsFair global ts t =
      (1 ≤ t.budget)
      × (t.budget ≤ global)
      × All (λ u. (distinct u < distinct t) ⊎ (t.budget ≤ u.budget)) ts

  distinct-pos : (t : ExpertTensor F) → 0 < distinct t
  unfolding distinct
  distinct-pos t = ground arith

  total_demand-pos : (t : ExpertTensor F) (ts : List (ExpertTensor F)) → 0 < total_demand (t ∷ ts)
  unfolding total_demand
  total_demand-pos t ts = omega (arith, distinct-pos t)

  -- Each tensor's demand is a part of all of it.
  total_demand-parts : (ts : List (ExpertTensor F)) → All (λ t. distinct t ≤ total_demand ts) ts
  unfolding total_demand
  total_demand-parts [] = tt
  total_demand-parts (t ∷ ts) =
      (omega arith, All-map ts (λ u le. omega arith) (total_demand-parts ts))

  All-set_budget :
      (global cap demand : ℕ) (t : ExpertTensor F) (ts : List (ExpertTensor F))
      → 0 < demand
      → cap < 2 ^ 31
      → All (λ u. distinct u ≤ demand) ts
      → All
          (λ u.
            (distinct u < distinct (set_budget global cap demand t))
            ⊎ ((set_budget global cap demand t).budget ≤ u.budget))
          (map (set_budget global cap demand) ts)
  unfolding set_budget distinct
  All-set_budget global cap demand t [] h fits parts = tt
  All-set_budget global cap demand t (u ∷ us) h fits parts = (
    elim (dec_le (distinct t) (distinct u)) [
      | yes more ↦ inr (share_mono global cap demand (distinct t) (distinct u) h fits more parts.0)
      | no fewer ↦ inl (omega arith)
    ],
    All-set_budget global cap demand t us h fits parts.1,
  )

  map-IsFair :
      (global cap demand : ℕ) (us ts : List (ExpertTensor F))
      → 0 < global
      → 0 < demand
      → cap < 2 ^ 31
      → All (λ u. distinct u ≤ demand) us
      → All
          (IsFair global (map (set_budget global cap demand) us))
          (map (set_budget global cap demand) ts)
  unfolding set_budget
  map-IsFair global cap demand us [] g d fits parts = tt
  map-IsFair global cap demand us (t ∷ ts) g d fits parts =
      let (low, high) = share_bounds global cap demand (distinct t) g in
      (
        (low, high, All-set_budget global cap demand t us d fits parts),
        map-IsFair global cap demand us ts g d fits parts,
      )

  assign_budgets-IsFair :
      (global : ℕ) (ts : List (ExpertTensor F))
      → 0 < global
      → global * length ts < 2 ^ 31
      → All (IsFair global (assign_budgets global ts)) (assign_budgets global ts)
  unfolding assign_budgets
  assign_budgets-IsFair global [] h fits = tt
  assign_budgets-IsFair global (t ∷ ts) h fits =
      map-IsFair global (global * length (t ∷ ts)) (total_demand (t ∷ ts)) (t ∷ ts) (t ∷ ts) h
        (total_demand-pos t ts) fits (total_demand-parts (t ∷ ts))

  global_cap_lem :
      (c : Config F) → c.max_active_experts < 2 ^ 31 → c.max_active_experts ≡ global_cap c
  unfolding global_cap
  global_cap_lem c h = sym (ap (λ z. above_zero z) (to_int_small c.max_active_experts h))

  -- Where max_active_experts is not 0, and it and its product with the number of tensors fit an
  -- int, recompute_budgets leaves every tensor a budget between 1 and max_active_experts, and
  -- never a smaller one to a tensor that has used at least as many distinct experts.
  pub recompute_budgets-IsFair :
      (st : Experts F)
      → 0 < st.config.max_active_experts
      → st.config.max_active_experts < 2 ^ 31
      → st.config.max_active_experts * length st.tensors < 2 ^ 31
      → All
          (IsFair st.config.max_active_experts (recompute_budgets st).tensors)
          (recompute_budgets st).tensors
  unfolding recompute_budgets
  recompute_budgets-IsFair st h small fits =
      let same = global_cap_lem st.config small in
      let fair : All
          (IsFair st.config.max_active_experts (assign_budgets (global_cap st.config) st.tensors))
          (assign_budgets (global_cap st.config) st.tensors) =
        subst
          (λ g.
            All (IsFair st.config.max_active_experts (assign_budgets g st.tensors))
              (assign_budgets g st.tensors))
          same (assign_budgets-IsFair st.config.max_active_experts st.tensors h fits) in
      elim (Bool-cases (global_cap st.config == 0)) [
        | inl none_ ↦ absurd (ground (arith, none_, same, h))
        | inr some_ ↦ rw (some_, recompute_budgets) fair
      ]
