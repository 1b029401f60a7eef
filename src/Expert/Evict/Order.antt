-- ===== src/Expert/Evict/Order.antt =====
-- Which slices evict_to_budget takes first.
use mathlib.Core.Bool.{false≢true}
use guanaco.Base.{
  ◌⊎◌, not, ℕ, ◌≤◌, ◌<◌, ◌≡◌, sym, ap, ◌∙◌, inl, inr, true, false, arith, Bool-cases,
  count_below-zero,
}
use guanaco.Base.Words.{u64_max}
use guanaco.Madvise.{Kernel}
use guanaco.Expert.{Floats, ExpertTensor, Config, Ledger, is_loaded, is_pinned, recency}
use guanaco.Expert.Evict.{is_hot, reclaim, two_passes, evict_to_budget}
use guanaco.Expert.Evict.Bound.{evict_to_budget-cases}
use guanaco.Expert.Evict.Reclaim.{
  reclaim-frame, reclaim-exhausts, reclaim_mono, reclaim-spares, reclaim-lru, reclaim-zero,
}

module _ {F : Type 0} (fl : Floats F) (k : Kernel) where
  -- Pass B starts only when pass A has left no cold slice.
  cold_gone :
      (n : ℕ) (t : ExpertTensor F) (s : Ledger) (i j : ℕ)
      → ((m : ℕ) → recency t m < u64_max)
      → is_loaded (reclaim fl k true n t s).0 i ≡ true
      → is_loaded (two_passes fl k n t s).0 i ≡ false
      → j < t.num_experts
      → is_pinned t j ≡ false
      → is_hot fl t j ≡ false
      → is_loaded (reclaim fl k true n t s).0 j ≡ false
  unfolding two_passes
  cold_gone n t s i j fresh held gone l unpinned cold =
      let a = reclaim fl k true n t s in
      elim (reclaim-exhausts fl k true n t s fresh) [
        | inl done ↦ absurd (
            false≢true (
              sym gone
              ∙ ap (λ m. is_loaded (reclaim fl k false m a.0 a.1).0 i) done
              ∙ ap (λ r. is_loaded r.0 i) (reclaim-zero fl k false a.0 a.1)
              ∙ held))
        | inr empty ↦
            let same = ap (λ u. u.num_experts) (reclaim-frame fl k true n t s) in
            let none_left = count_below-zero a.0.num_experts _ empty j (omega arith) in ground arith
      ]

  -- While a cold slice that is not pinned stays, no hot slice is evicted.
  two_passes-hot :
      (n : ℕ) (t : ExpertTensor F) (s : Ledger) (i j : ℕ)
      → ((m : ℕ) → recency t m < u64_max)
      → is_hot fl t i ≡ true
      → is_loaded t i ≡ true
      → is_loaded (two_passes fl k n t s).0 i ≡ false
      → j < t.num_experts
      → is_pinned t j ≡ false
      → is_hot fl t j ≡ false
      → is_loaded (two_passes fl k n t s).0 j ≡ false
  unfolding two_passes
  two_passes-hot n t s i j fresh hot held gone l unpinned cold =
      let a = reclaim fl k true n t s in
      let spared = reclaim-spares fl k true n t s i (ground arith) in
      let gone_j = cold_gone n t s i j fresh (spared ∙ held) gone l unpinned cold in
      elim (Bool-cases (is_loaded (two_passes fl k n t s).0 j)) [
        | inl kept ↦ absurd (false≢true (sym gone_j ∙ reclaim_mono fl k false a.2 a.0 a.1 j kept))
        | inr gone' ↦ gone'
      ]

  -- Among slices that are equally hot, the less recently used go first.
  two_passes-lru :
      (n : ℕ) (t : ExpertTensor F) (s : Ledger) (i j : ℕ)
      → ((m : ℕ) → recency t m < u64_max)
      → is_hot fl t i ≡ is_hot fl t j
      → is_loaded t i ≡ true
      → is_loaded (two_passes fl k n t s).0 i ≡ false
      → j < t.num_experts
      → is_pinned t j ≡ false
      → is_loaded (two_passes fl k n t s).0 j ≡ true
      → recency t i ≤ recency t j
  unfolding two_passes
  two_passes-lru n t s i j fresh alike held gone l unpinned kept =
      let a = reclaim fl k true n t s in
      let same = reclaim-frame fl k true n t s in
      let kept_a = reclaim_mono fl k false a.2 a.0 a.1 j kept in
      elim (Bool-cases (is_loaded a.0 i)) [
        | inl later ↦
            let pin_j = ap (λ u. is_pinned u j) same in
            let r =
              reclaim-lru fl k false a.2 a.0 a.1 i j (omega (arith, ap (λ u. u.num_experts) same))
                (ground arith) later gone kept in
            omega (arith, r, ap (λ u. recency u i) same, ap (λ u. recency u j) same)
        | inr first ↦ elim (Bool-cases (is_hot fl t j)) [
          | inl hot ↦
              absurd
                (false≢true (sym first ∙ reclaim-spares fl k true n t s i (ground arith) ∙ held))
          | inr cold ↦ reclaim-lru fl k true n t s i j l (ground arith) held first kept_a
        ]
      ]

  evict_to_budget-kept :
      (c : Config F) (t : ExpertTensor F) (s : Ledger) (i j : ℕ)
      → ((m : ℕ) → recency t m < u64_max)
      → is_loaded t i ≡ true
      → is_loaded (evict_to_budget fl k c t s).0 i ≡ false
      → j < t.num_experts
      → is_pinned t j ≡ false
      → is_loaded (evict_to_budget fl k c t s).0 j ≡ true
      → (is_hot fl t i ≡ true → is_hot fl t j ≡ true)
        × (is_hot fl t i ≡ is_hot fl t j → recency t i ≤ recency t j)
  evict_to_budget-kept c t s i j fresh held gone l unpinned kept =
      evict_to_budget-cases fl k
        (λ r.
          is_loaded r.0 i ≡ false
          → is_loaded r.0 j ≡ true
          → (is_hot fl t i ≡ true → is_hot fl t j ≡ true)
            × (is_hot fl t i ≡ is_hot fl t j → recency t i ≤ recency t j))
        c t s (λ gone kept. absurd (false≢true (sym gone ∙ held)))
        (λ n gone kept. (
          λ hot. elim (Bool-cases (is_hot fl t j)) [
            | inl both ↦ both
            | inr cold ↦ absurd (
                false≢true
                  (sym (two_passes-hot n t s i j fresh hot held gone l unpinned cold) ∙ kept))
          ],
          λ alike. two_passes-lru n t s i j fresh alike held gone l unpinned kept,
        ))
        gone kept

  -- If eviction drops a slice and keeps another that is not pinned, then the dropped one is cold
  -- or the kept one is hot, and the dropped one is no more recent unless just one of the two is
  -- hot; the use counters are below UINT64_MAX.
  pub evict_to_budget-order :
      (c : Config F) (t : ExpertTensor F) (s : Ledger) (i j : ℕ)
      → ((m : ℕ) → recency t m < u64_max)
      → is_loaded t i ≡ true
      → is_loaded (evict_to_budget fl k c t s).0 i ≡ false
      → j < t.num_experts
      → is_pinned t j ≡ false
      → is_loaded (evict_to_budget fl k c t s).0 j ≡ true
      → ((is_hot fl t i ≡ false) ⊎ (is_hot fl t j ≡ true))
        × ((is_hot fl t i ≡ not (is_hot fl t j)) ⊎ (recency t i ≤ recency t j))
  evict_to_budget-order c t s i j fresh held gone l unpinned kept =
      let (warm, alike) = evict_to_budget-kept c t s i j fresh held gone l unpinned kept in
      elim (Bool-cases (is_hot fl t i)) [
        | inl hot ↦ (inr (warm hot), inr (alike (hot ∙ sym (warm hot))))
        | inr cold ↦ elim (Bool-cases (is_hot fl t j)) [
          | inl hot_j ↦ (inl cold, inl (cold ∙ ap not (sym hot_j)))
          | inr cold_j ↦ (inl cold, inr (alike (cold ∙ sym cold_j)))
        ]
      ]
