-- ===== src/Tests/Expert.antt =====
-- Expert paging at concrete inputs.
use guanaco.Base.{
  ◌%◌, ℕ, zero, suc, ◌+◌, ◌-◌, ◌≤◌, ◌<◌, ◌≡◌, refl, true, false, some, [], ◌∷◌, arith, not, ◌⊎◌,
  count_below, min, All,
}
use guanaco.Base.Words.{u64_max}
use guanaco.Madvise.{dontneed, range_call, madvise_range}
use guanaco.Madvise.Range.{madvise_range_covers}
use guanaco.Expert.{is_loaded, recency, budget_of}
use guanaco.Expert.Books.{loaded_slices}
use guanaco.Expert.Evict.{is_hot, resident_count, evict_to_budget}
use guanaco.Expert.Evict.Bound.{evict_to_budget-count, evictable}
use guanaco.Expert.Evict.Order.{evict_to_budget-order}
use guanaco.Expert.Ceiling.{enforce_expert_byte_ceiling, has_slices}
use guanaco.Expert.Ceiling.Bound.{enforce_expert_byte_ceiling-bound}
use guanaco.Expert.Budgets.{recompute_budgets}
use guanaco.Expert.Budgets.Share.{recompute_budgets-IsFair, IsFair}
use guanaco.Base.{length}
use guanaco.Expert.Pilot.{predict_ranked}
use guanaco.Expert.Pilot.Bounds.{length-predict_ranked}
use guanaco.Tests.Data.{linux, whole, config, ledger, tensor, loaded_experts}

tensor_recency : (m : ℕ) → recency tensor m < u64_max
tensor_recency zero = omega arith
tensor_recency (suc zero) = omega arith
tensor_recency (suc (suc zero)) = omega arith
tensor_recency (suc (suc (suc m))) = omega arith

evict_to_budget-count_example :
    ((evict_to_budget whole linux config tensor ledger).0
      ≡ record tensor { loaded = (evict_to_budget whole linux config tensor ledger).0.loaded })
    × (resident_count whole linux (evict_to_budget whole linux config tensor ledger).0
          + min
              (resident_count whole linux tensor - budget_of config tensor)
              (evictable whole linux tensor)
        ≡ resident_count whole linux tensor)
evict_to_budget-count_example =
    evict_to_budget-count whole linux config tensor ledger 8192 refl (omega arith) refl
      tensor_recency

first_gone : is_loaded (evict_to_budget whole linux config tensor ledger).0 0 ≡ false
unfolding evict_to_budget count_below
first_gone = refl

second_kept : is_loaded (evict_to_budget whole linux config tensor ledger).0 1 ≡ true
unfolding evict_to_budget count_below
second_kept = refl

evict_to_budget-order_example :
    ((is_hot whole tensor 0 ≡ false) ⊎ (is_hot whole tensor 1 ≡ true))
    × ((is_hot whole tensor 0 ≡ not (is_hot whole tensor 1))
        ⊎ (recency tensor 0 ≤ recency tensor 1))
evict_to_budget-order_example =
    evict_to_budget-order whole linux config tensor ledger 0 1 tensor_recency refl first_gone
      (omega arith) refl second_kept

enforce_expert_byte_ceiling-bound_example :
    ((enforce_expert_byte_ceiling linux loaded_experts).ledger.expert_resident_bytes ≤ 15)
    ⊎ All
        (λ u. (has_slices u ≡ false) ⊎ (loaded_slices u ≡ 0))
        (enforce_expert_byte_ceiling linux loaded_experts).tensors
enforce_expert_byte_ceiling-bound_example =
    enforce_expert_byte_ceiling-bound linux loaded_experts (omega arith)

recompute_budgets-IsFair_example :
    All
      (IsFair 1 (recompute_budgets loaded_experts).tensors)
      (recompute_budgets loaded_experts).tensors
recompute_budgets-IsFair_example =
    recompute_budgets-IsFair loaded_experts (omega arith) (omega arith) (omega arith)

madvise_range_covers_example :
    ((madvise_range linux (some 5000) 100 dontneed ledger.advice).0.calls
      ≡ range_call linux 5000 100 dontneed ∷ ledger.advice.calls)
    × ((range_call linux 5000 100 dontneed).advice ≡ dontneed)
    × ((range_call linux 5000 100 dontneed).start % 4096 ≡ 0)
    × ((range_call linux 5000 100 dontneed).start ≤ 5000)
    × (5000 < (range_call linux 5000 100 dontneed).start + 4096)
    × (5100 ≤ (range_call linux 5000 100 dontneed).start + (range_call linux 5000 100 dontneed).len)
    × ((range_call linux 5000 100 dontneed).start + (range_call linux 5000 100 dontneed).len < 9196)
madvise_range_covers_example =
    madvise_range_covers linux 5000 100 dontneed ledger.advice (omega arith) (omega arith) refl

length-predict_ranked_example :
    length (predict_ranked whole config tensor (2 ∷ 5 ∷ 1 ∷ []) []) ≤ 0 + 1
length-predict_ranked_example = length-predict_ranked whole config tensor (2 ∷ 5 ∷ 1 ∷ []) []
