-- ===== src/Expert/Pin.antt =====
-- src/guanaco_steppeloader.cpp, maybe_pin_hot_experts, pin_from_seeded_totals and the part of
-- load_imatrix_prior behind the file: pin the top-ranked experts of each tensor.
pub mod Account
use Prim.Native.String.{String}
use guanaco.Base.{
  ℕ, zero, suc, min, Bool, true, false, ◌&&◌, ◌||◌, not, Option, none, some, List, [], ◌∷◌,
  if◌then◌else◌, ltb, ◌==◌, ℤ, pos, negsuc, get_or, set, length, range,
}
use guanaco.Base.Words.{add64, inc64}
use guanaco.Base.Sort.{sort}
use guanaco.Madvise.{Kernel}
use guanaco.Expert.{
  Floats, ExpertTensor, Config, Ledger, Experts, is_loaded, is_pinned, for_each, budget_of,
}
use guanaco.Expert.Slices.{fault_in}
use guanaco.Expert.Evict.{evict_to_budget}
use guanaco.Expert.Budgets.{recompute_budgets}
use guanaco.Expert.Ceiling.{enforce_expert_byte_ceiling}

module _ {F : Type 0} where
  abbrev pub is_mapped : ExpertTensor F → Bool
  is_mapped t = elim t.mmap_base [ none ↦ false | some _ ↦ true ]

  -- pinned[id] = true; ++pinned_total_; ++pinned_current_
  unfoldable pub set_pin : ExpertTensor F → ℕ → Ledger → ExpertTensor F × Ledger
  set_pin t id s = (
    record t { pinned = set t.pinned id true },
    record s { pinned_total = inc64 s.pinned_total; pinned_current = inc64 s.pinned_current },
  )

  module _ (k : Kernel) where
    -- A slice that is not resident is faulted in where the tensor is mapped.
    unfoldable pub pin_slice : ExpertTensor F → ℕ → Ledger → ExpertTensor F × Ledger
    unfolding fault_in set_pin
    pin_slice t id s =
        if not (is_loaded t id) && is_mapped t
        then set_pin (fault_in k t id s).0 id (fault_in k t id s).1
        else set_pin t id s

    -- for (rank = 0; rank < topk && rank < num_experts; ++rank) { … }: `unused` is the break's test.
    unfoldable pub pin_top :
        (ExpertTensor F → ℕ → Bool) → ℕ → List ℕ → ExpertTensor F → Ledger → ExpertTensor F × Ledger
    unfolding pin_slice
    pin_top unused zero order t s = (t, s)
    pin_top unused (suc topk) [] t s = (t, s)
    pin_top unused (suc topk) (id ∷ order) t s = elim (is_pinned t id) [
      | true ↦ pin_top unused topk order t s
      | false ↦ elim (unused t id) [
        | true ↦ (t, s)
        | false ↦ pin_top unused topk order (pin_slice t id s).0 (pin_slice t id s).1
      ]
    ]

    module _ (fl : Floats F) where
      abbrev pub window : ExpertTensor F → ℕ → F
      window t i = get_or t.window_hits i fl.zero_f

      -- The order of the windowed hotness, and its break: window_hits[id] <= 0.0f.
      unfoldable pub pin_hot : Config F → ExpertTensor F → Ledger → ExpertTensor F × Ledger
      unfolding pin_top
      pin_hot c t s =
          pin_top (λ u id. fl.le (window u id) fl.zero_f) (budget_of c t)
            (sort (λ a b. fl.gt (window t a) (window t b)) (range t.num_experts)) t s

      unfoldable pub pin_body : Config F → ExpertTensor F → Ledger → ExpertTensor F × Ledger
      unfolding pin_hot
      pin_body c t s =
          if t.num_experts == 0 || not (is_mapped t)
          then (t, s)
          else evict_to_budget fl k c (pin_hot c t s).0 (pin_hot c t s).1

      -- for (auto& kv : expert_tensors_) { … }
      unfoldable pub pin_all : Experts F → Experts F
      unfolding pin_body for_each
      pin_all st =
          let (ts, s) = for_each (pin_body st.config) st.tensors st.ledger in
          record st { tensors = ts; ledger = s }

      unfoldable pub maybe_pin_hot_experts : Experts F → Experts F
      unfolding pin_all
      maybe_pin_hot_experts st = enforce_expert_byte_ceiling k (pin_all (recompute_budgets st))

      -- The order of the totals, and its break: total_hits[id] <= 0.
      unfoldable pub pin_seeded : Config F → ExpertTensor F → Ledger → ExpertTensor F × Ledger
      unfolding pin_top
      pin_seeded c t s =
          pin_top (λ u id. get_or u.total_hits id 0 == 0) (budget_of c t)
            (sort (λ a b. ltb (get_or t.total_hits b 0) (get_or t.total_hits a 0))
              (range t.num_experts))
            t s

      unfoldable pub pin_from_seeded_totals : Experts F → Experts F
      unfolding pin_seeded for_each recompute_budgets
      pin_from_seeded_totals st =
          let b = recompute_budgets st in
          let (ts, s) = for_each (pin_seeded b.config) b.tensors b.ledger in
          record b { tensors = ts; ledger = s }
