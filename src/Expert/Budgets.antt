-- ===== src/Expert/Budgets.antt =====
-- src/guanaco_steppeloader.cpp, recompute_budgets: the tensors share the global cap by demand. The
-- products are of long; one past 2 ^ 63, which is undefined, is a number here.
pub mod Share
use guanaco.Base.{
  ℕ, zero, ◌+◌, ◌*◌, ◌/◌, ◌||◌, ℤ, pos, negsuc, Bool, true, false, List, [], ◌∷◌, map,
  if◌then◌else◌, ltb, ◌==◌, get_or, length, count_below,
}
use guanaco.Text.{to_int}
use guanaco.Expert.{ExpertTensor, Config, Experts}

-- if (share < 1) share = 1
abbrev pub at_least_one : ℤ → ℕ
at_least_one (pos n) = if ltb n 1 then 1 else n
at_least_one (negsuc n) = 1

-- (int)((long) d.second * total_cap / total_demand), clamped to [1, global]
unfoldable pub share : ℕ → ℕ → ℕ → ℕ → ℕ
share global total_cap demand d =
    let floored = at_least_one (to_int (pos (d * total_cap / demand))) in
    if ltb global floored then global else floored

-- if (global <= 0) return
abbrev pub above_zero : ℤ → ℕ
above_zero (pos n) = n
above_zero (negsuc n) = 0

module _ {F : Type 0} where
  -- The experts ever used, and at least one.
  unfoldable pub distinct : ExpertTensor F → ℕ
  distinct t =
      let used = count_below t.num_experts (λ i. ltb 0 (get_or t.total_hits i 0)) in
      if used == 0 then 1 else used

  unfoldable pub total_demand : List (ExpertTensor F) → ℕ
  unfolding distinct
  total_demand [] = 0
  total_demand (t ∷ ts) = distinct t + total_demand ts

  unfoldable pub set_budget : ℕ → ℕ → ℕ → ExpertTensor F → ExpertTensor F
  unfolding share distinct
  set_budget global total_cap demand t = record t {
    budget = share global total_cap demand (distinct t);
  }

  unfoldable pub assign_budgets : ℕ → List (ExpertTensor F) → List (ExpertTensor F)
  unfolding set_budget total_demand
  assign_budgets global ts = map (set_budget global (global * length ts) (total_demand ts)) ts

  -- (int) config_.max_active_experts, where it is above 0
  unfoldable pub global_cap : Config F → ℕ
  global_cap c = above_zero (to_int (pos c.max_active_experts))

  unfoldable pub recompute_budgets : Experts F → Experts F
  unfolding assign_budgets
  recompute_budgets st =
      let global = global_cap st.config in
      if global == 0 then st else record st { tensors = assign_budgets global st.tensors }
