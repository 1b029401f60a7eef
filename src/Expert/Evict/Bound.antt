-- ===== src/Expert/Evict/Bound.antt =====
-- src/guanaco_steppeloader.cpp, evict_to_budget: the number of slices that a call gives up.
use native.Mathlib.Decide.{dec_lt}
use guanaco.Base.{
  ℕ, zero, suc, ◌+◌, ◌-◌, ◌≤◌, ◌<◌, ◌≡◌, refl, sym, ap, ◌∙◌, inl, inr, Bool, true, false, ◌&&◌,
  ◌||◌, not, some, arith, length, count_below, count_below-ext, min, &&_both,
}
use guanaco.Base.Words.{u64_max}
use guanaco.Madvise.{Kernel}
use guanaco.Expert.{Floats, ExpertTensor, Config, Ledger, is_loaded, is_pinned, recency, budget_of}
use guanaco.Expert.Evict.{may_evict, reclaim, resident_count, two_passes, evict_to_budget}
use guanaco.Expert.Evict.Reclaim.{
  loaded_count, reclaim-frame, reclaim-count, reclaim-exhausts, reclaim-length,
}

-- A count of what passes either test.
count_below-or :
    (n : ℕ) (p l : ℕ → Bool)
    → count_below n (λ i. p i || l i) ≡ count_below n p + count_below n (λ i. l i && not (p i))
unfolding count_below
count_below-or zero p l = omega arith
count_below-or (suc n) p l = ground (arith, count_below-or n p l)

module _ {F : Type 0} (fl : Floats F) (k : Kernel) where
  abbrev pub pinned_count : ExpertTensor F → ℕ
  pinned_count t = count_below t.num_experts (is_pinned t)

  -- The slices that eviction may take.
  abbrev pub evictable : ExpertTensor F → ℕ
  evictable t = loaded_count fl k (λ i. not (is_pinned t i)) t

  two_passes-frame :
      (n : ℕ) (t : ExpertTensor F) (s : Ledger)
      → (two_passes fl k n t s).0 ≡ record t { loaded = (two_passes fl k n t s).0.loaded }
  unfolding two_passes
  two_passes-frame n t s =
      let a = reclaim fl k true n t s in
      let first = reclaim-frame fl k true n t s in
      let second = reclaim-frame fl k false a.2 a.0 a.1 in
      second
      ∙ ap (λ (u : ExpertTensor F). record u { loaded = (reclaim fl k false a.2 a.0 a.1).0.loaded })
          first

  -- Eviction changes nothing of a tensor but residency bits.
  pub evict_to_budget-frame :
      (c : Config F) (t : ExpertTensor F) (s : Ledger)
      → (evict_to_budget fl k c t s).0 ≡ record t { loaded = (evict_to_budget fl k c t s).0.loaded }
  unfolding evict_to_budget
  evict_to_budget-frame c t s =
      ground (arith, two_passes-frame (resident_count fl k t - budget_of c t) t s)

  -- The slices that eviction may take, counted by the pins before it.
  abbrev unpinned : ExpertTensor F → ℕ → Bool
  unpinned t i = not (is_pinned t i)

  may_evict-any : (t : ExpertTensor F) (i : ℕ) → may_evict fl false t i ≡ unpinned t i
  may_evict-any t i = ground arith

  two_passes-count :
      (n : ℕ) (t : ExpertTensor F) (s : Ledger)
      → length t.loaded ≡ t.num_experts
      → ((i : ℕ) → recency t i < u64_max)
      → loaded_count fl k (unpinned t) (two_passes fl k n t s).0 + min n (evictable t) ≡ evictable t
  unfolding two_passes
  two_passes-count n t s len fresh =
      let a = reclaim fl k true n t s in
      let b = reclaim fl k false a.2 a.0 a.1 in
      let same = reclaim-frame fl k true n t s in
      let first = reclaim-count fl k (unpinned t) true n t s len (λ i e. (&&_both _ _ e).0) in
      let len_a = reclaim-length fl k true n t s ∙ len ∙ sym (ap (λ u. u.num_experts) same) in
      let pins : ((i : ℕ) → may_evict fl false a.0 i ≡ unpinned t i) =
        λ i. may_evict-any a.0 i ∙ ap (λ u. unpinned u i) same in
      let second =
        reclaim-count fl k (unpinned t) false a.2 a.0 a.1 len_a (λ i e. sym (pins i) ∙ e) in
      let fresh_a : ((i : ℕ) → recency a.0 i < u64_max) =
        λ i. omega (arith, ap (λ u. recency u i) same, fresh i) in
      elim (reclaim-exhausts fl k false a.2 a.0 a.1 fresh_a) [
        | inl all ↦ omega (arith, first, second, all)
        | inr empty ↦
            let none_left =
              sym
                (count_below-ext b.0.num_experts _ _ (λ i l. ap (◌&&◌ (is_loaded b.0 i)) (pins i)))
              ∙ empty in
            omega (arith, first, second, none_left)
      ]

  resident_count-split : (t : ExpertTensor F) → resident_count fl k t ≡ pinned_count t + evictable t
  resident_count-split t = count_below-or t.num_experts (is_pinned t) (is_loaded t)

  evict_to_budget-within :
      (c : Config F) (t : ExpertTensor F) (s : Ledger)
      → resident_count fl k t ≤ budget_of c t
      → evict_to_budget fl k c t s ≡ (t, s)
  unfolding evict_to_budget
  evict_to_budget-within c t s within = ground arith

  pub evict_to_budget-over :
      (c : Config F) (t : ExpertTensor F) (s : Ledger) (base : ℕ)
      → t.mmap_base ≡ some base
      → 0 < budget_of c t
      → budget_of c t < resident_count fl k t
      → evict_to_budget fl k c t s ≡ two_passes fl k (resident_count fl k t - budget_of c t) t s
  unfolding evict_to_budget
  evict_to_budget-over c t s base mapped some_budget over = ground arith

  two_passes-resident :
      (n : ℕ) (t : ExpertTensor F) (s : Ledger)
      → length t.loaded ≡ t.num_experts
      → ((i : ℕ) → recency t i < u64_max)
      → resident_count fl k (two_passes fl k n t s).0 + min n (evictable t) ≡ resident_count fl k t
  two_passes-resident n t s len fresh =
      let t' = (two_passes fl k n t s).0 in
      let same = two_passes-frame n t s in
      let pins : ((i : ℕ) → unpinned t' i ≡ unpinned t i) = λ i. ap (λ u. unpinned u i) same in
      omega (
        arith,
        two_passes-count n t s len fresh,
        resident_count-split t,
        resident_count-split t',
        ap pinned_count same,
        count_below-ext t'.num_experts _ _ (λ i l. ap (◌&&◌ (is_loaded t' i)) (pins i)),
      )

  -- A mapped tensor with a budget gives up as many slices as it is over the budget, or all its
  -- loaded unpinned ones if they are fewer, and nothing of the tensor changes but residency bits;
  -- its use counters are below UINT64_MAX and it has a bit for each expert.
  pub evict_to_budget-count :
      (c : Config F) (t : ExpertTensor F) (s : Ledger) (base : ℕ)
      → t.mmap_base ≡ some base
      → 0 < budget_of c t
      → length t.loaded ≡ t.num_experts
      → ((i : ℕ) → recency t i < u64_max)
      → let t' = (evict_to_budget fl k c t s).0 in
        (t' ≡ record t { loaded = t'.loaded })
        × (resident_count fl k t' + min (resident_count fl k t - budget_of c t) (evictable t)
            ≡ resident_count fl k t)
  evict_to_budget-count c t s base mapped some_budget len fresh =
      elim (dec_lt (budget_of c t) (resident_count fl k t)) [
        | yes over ↦ rw (evict_to_budget-over c t s base mapped some_budget over) (
          two_passes-frame (resident_count fl k t - budget_of c t) t s,
          two_passes-resident (resident_count fl k t - budget_of c t) t s len fresh,
        )
        | no within ↦ rw (evict_to_budget-within c t s (omega arith)) (refl, omega arith)
      ]

  pub evict_to_budget-cases {ℓ} :
      (P : ExpertTensor F × Ledger → Type ℓ) (c : Config F) (t : ExpertTensor F) (s : Ledger)
      → P (t, s)
      → ((n : ℕ) → P (two_passes fl k n t s))
      → P (evict_to_budget fl k c t s)
  unfolding evict_to_budget
  evict_to_budget-cases P c t s idle runs =
      ground (arith, runs (resident_count fl k t - budget_of c t))
