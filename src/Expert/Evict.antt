-- ===== src/Expert/Evict.antt =====
-- src/guanaco_steppeloader.cpp, evict_to_budget: count-bounded LRU eviction of one tensor's slices,
-- first of the cold ones, then of any that is not pinned.
pub mod Victim
pub mod Reclaim
pub mod Bound
pub mod Account
pub mod Order
use guanaco.Base.{
  ℕ, zero, suc, ◌+◌, ◌-◌, ◌*◌, min, Bool, true, false, ◌&&◌, ◌||◌, not, Option, none, some, List,
  [], ◌∷◌, ◌++◌, if◌then◌else◌, ltb, leb, ◌==◌, get_or, set, length, drop, count_below,
}
use guanaco.Base.Words.{add64, sub64, inc64, mul64, u64_max}
use guanaco.Madvise.{Kernel, Advice, dontneed, madvise_range, AdviceLog}
use guanaco.Expert.{
  Floats, ExpertTensor, Config, Ledger, EvictRec, is_loaded, is_pinned, recency, slice_addr,
  budget_of, unload,
}

-- kEvictLogMax_
abbrev pub evict_log_max : ℕ
evict_log_max = 8192

-- The scan's `victim` (none for -1) and `oldest`.
pub record Scan : Type 0 where
  pub victim : Option ℕ
  pub oldest : ℕ

module _ {F : Type 0} (fl : Floats F) where
  -- window_hits[i] > kHotProtect_
  abbrev pub is_hot : ExpertTensor F → ℕ → Bool
  is_hot t i = fl.gt (get_or t.window_hits i fl.zero_f) fl.hot_protect

  -- What the two `continue`s of the scan let through, but for loaded[i].
  abbrev pub may_evict : Bool → ExpertTensor F → ℕ → Bool
  may_evict cold_only t i = not (is_pinned t i) && not (cold_only && is_hot t i)

  pub scan_step : Bool → ExpertTensor F → ℕ → Scan → Scan
  scan_step cold_only t i s =
      if is_loaded t i && may_evict cold_only t i
      then (if ltb (recency t i) s.oldest
          then record { victim = some i; oldest = recency t i }
          else s)
      else s

  -- for (i = 0; i < n; ++i) { … }
  pub scan : Bool → ExpertTensor F → ℕ → Scan
  unfolding scan_step
  scan cold_only t zero = record { victim = none; oldest = u64_max }
  scan cold_only t (suc i) = scan_step cold_only t i (scan cold_only t i)

  -- if (evict_log_.size() >= kEvictLogMax_) erase the front; push_back
  pub log_eviction : ExpertTensor F → ℕ → Ledger → List EvictRec
  log_eviction t v s =
      (if leb evict_log_max (length s.evict_log) then drop 1 s.evict_log else s.evict_log)
      ++ record { tensor = t.name; id = v; clock = s.eclock; used = false } ∷ []

  module _ (k : Kernel) where
    -- The rest of the round: counters, bytes, MADV_DONTNEED.
    pub evict_slice : ExpertTensor F → ℕ → Ledger → Ledger
    unfolding log_eviction
    evict_slice t v s = record s {
      evictions = inc64 s.evictions;
      evict_hot = if is_hot t v then inc64 s.evict_hot else s.evict_hot;
      evict_log = log_eviction t v s;
      expert_resident_bytes =
          sub64 s.expert_resident_bytes (min t.per_expert_bytes s.expert_resident_bytes);
      advice = (madvise_range k (slice_addr t v) t.per_expert_bytes dontneed s.advice).0;
    }

    -- while (to_evict > 0) { … }: the last component is what is left of to_evict.
    pub reclaim : Bool → ℕ → ExpertTensor F → Ledger → ExpertTensor F × Ledger × ℕ
    unfolding scan evict_slice
    reclaim cold_only zero t s = (t, s, zero)
    reclaim cold_only (suc to_evict) t s = elim (scan cold_only t t.num_experts).victim [
      | none ↦ (t, s, suc to_evict)
      | some v ↦ reclaim cold_only to_evict (unload t v) (evict_slice t v s)
    ]

    -- Pinned or loaded.
    abbrev pub resident_count : ExpertTensor F → ℕ
    resident_count t = count_below t.num_experts (λ i. is_pinned t i || is_loaded t i)

    -- PASS A, then PASS B with what is left.
    pub two_passes : ℕ → ExpertTensor F → Ledger → ExpertTensor F × Ledger
    unfolding reclaim
    two_passes to_evict t s =
        let (t1, s1, left) = reclaim true to_evict t s in
        let (t2, s2, _) = reclaim false left t1 s1 in (t2, s2)

    unfoldable pub evict_to_budget : Config F → ExpertTensor F → Ledger → ExpertTensor F × Ledger
    unfolding two_passes
    evict_to_budget c t s = elim t.mmap_base [
      | none ↦ (t, s)
      | some base ↦
          if budget_of c t == 0 || leb (resident_count t) (budget_of c t)
          then (t, s)
          else two_passes (resident_count t - budget_of c t) t s
    ]
