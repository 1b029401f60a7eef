-- ===== src/Expert/Evict/Victim.antt =====
-- The scan for a victim: the least recently used of the slices that may be evicted.
use guanaco.Base.{ℕ, zero, suc, ◌≤◌, ◌<◌, ◌≡◌, refl, Bool, true, none, some, arith}
use guanaco.Base.Words.{u64_max}
use mathlib.Core.Path.{subst, sym}
use native.Mathlib.Decide.{ℕ_discrete}
use guanaco.Expert.{Floats, ExpertTensor, is_loaded, recency}
use guanaco.Expert.Evict.{Scan, may_evict, scan, scan_step}

module _ {F : Type 0} (fl : Floats F) (cold_only : Bool) (t : ExpertTensor F) where
  abbrev pub Eligible : ℕ → Type 0
  Eligible i = (is_loaded t i ≡ true) × (may_evict fl cold_only t i ≡ true)

  pub record IsOldest (n : ℕ) (s : Scan) : Type 0 where
    pub bound : (i : ℕ) → i < n → Eligible i → s.oldest ≤ recency t i
    pub found : (v : ℕ) → s.victim ≡ some v → (v < n) × Eligible v × (s.oldest ≡ recency t v)
    pub nothing : s.victim ≡ none → s.oldest ≡ u64_max

  scan_step-le :
      (n : ℕ) (s : Scan) → Eligible n → (scan_step fl cold_only t n s).oldest ≤ recency t n
  unfolding scan_step
  scan_step-le n s e = ground arith

  scan_step-IsOldest :
      (n : ℕ) (s : Scan) → IsOldest n s → IsOldest (suc n) (scan_step fl cold_only t n s)
  unfolding scan_step
  scan_step-IsOldest n s h = record {
    bound = λ i l e. elim (ℕ_discrete i n) [
      | yes here ↦
          subst (λ j. (scan_step fl cold_only t n s).oldest ≤ recency t j) (sym here)
            (scan_step-le n s (subst Eligible here e))
      | no before ↦ ground (arith, h.bound i (omega arith) e)
    ];
    found = λ v e. ground (arith, h.found v);
    nothing = λ e. ground (arith, h.nothing);
  }

  pub scan-IsOldest : (n : ℕ) → IsOldest n (scan fl cold_only t n)
  unfolding scan
  scan-IsOldest zero = record {
    bound = λ i l e. absurd (omega arith);
    found = λ v e. absurd (cc);
    nothing = λ e. refl;
  }
  scan-IsOldest (suc n) = scan_step-IsOldest n _ (scan-IsOldest n)
