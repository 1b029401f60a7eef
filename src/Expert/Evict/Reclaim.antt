-- ===== src/Expert/Evict/Reclaim.antt =====
-- The eviction loop: what it changes, how many slices it drops, and which.
use native.Mathlib.Decide.{ℕ_discrete}
use mathlib.Core.Bool.{false≢true}
use guanaco.Base.{
  set-false, ℕ, zero, suc, ◌+◌, ◌≤◌, ◌<◌, ◌≡◌, refl, sym, ap, ◌∙◌, ◌⊎◌, inl, inr, Bool, true, false,
  ◌&&◌, none, some, arith, length, count_below, Option-cases, Bool-cases, &&_both, get_or-set_self,
  get_or-set_ne, length-set,
}
use guanaco.Base.{count_below-flip, count_below-eq_zero}
use guanaco.Base.Words.{u64_max}
use guanaco.Madvise.{Kernel}
use guanaco.Expert.{Floats, ExpertTensor, Ledger, is_loaded, recency, unload}
use guanaco.Expert.Evict.{may_evict, scan, evict_slice, reclaim}
use guanaco.Expert.Evict.Victim.{scan-IsOldest}

pub unload_mono :
    {F : Type 0} (t : ExpertTensor F) (v i : ℕ)
    → is_loaded (unload t v) i ≡ true
    → is_loaded t i ≡ true
unload_mono t v i h = elim (ℕ_discrete v i) [
  | yes here ↦ elim (Bool-cases (is_loaded t i)) [
    | inl e ↦ e
    | inr e ↦ absurd (false≢true (sym (set-false t.loaded v i e) ∙ h))
  ]
  | no other ↦ sym (get_or-set_ne t.loaded v i false false other) ∙ h
]

module _ {F : Type 0} (fl : Floats F) (k : Kernel) where
  pub reclaim-none :
      (cold_only : Bool) (n : ℕ) (t : ExpertTensor F) (s : Ledger)
      → (scan fl cold_only t t.num_experts).victim ≡ none
      → reclaim fl k cold_only (suc n) t s ≡ (t, s, suc n)
  unfolding reclaim
  reclaim-none cold_only n t s e = rw (e, reclaim)

  pub reclaim-some :
      (cold_only : Bool) (n : ℕ) (t : ExpertTensor F) (s : Ledger) (v : ℕ)
      → (scan fl cold_only t t.num_experts).victim ≡ some v
      → reclaim fl k cold_only (suc n) t s
        ≡ reclaim fl k cold_only n (unload t v) (evict_slice fl k t v s)
  unfolding reclaim
  reclaim-some cold_only n t s v e = rw (e, reclaim)

  pub reclaim-zero :
      (cold_only : Bool) (t : ExpertTensor F) (s : Ledger)
      → reclaim fl k cold_only zero t s ≡ (t, s, zero)
  unfolding reclaim
  reclaim-zero cold_only t s = refl

  -- Only loaded[] changes.
  pub reclaim-frame :
      (cold_only : Bool) (n : ℕ) (t : ExpertTensor F) (s : Ledger)
      → (reclaim fl k cold_only n t s).0
        ≡ record t { loaded = (reclaim fl k cold_only n t s).0.loaded }
  reclaim-frame cold_only zero t s = rw (reclaim-zero cold_only t s)
  reclaim-frame cold_only (suc n) t s =
      elim (Option-cases (scan fl cold_only t t.num_experts).victim) [
        | inl e ↦ rw (reclaim-none cold_only n t s e)
        | inr (v, e) ↦
            rw (reclaim-some cold_only n t s v e)
              (reclaim-frame cold_only n (unload t v) (evict_slice fl k t v s))
      ]

  -- Slices that are loaded and pass a test.
  abbrev pub loaded_count : (ℕ → Bool) → ExpertTensor F → ℕ
  loaded_count q t = count_below t.num_experts (λ i. is_loaded t i && q i)

  loaded_count-unload :
      (q : ℕ → Bool) (t : ExpertTensor F) (v : ℕ)
      → v < t.num_experts
      → length t.loaded ≡ t.num_experts
      → is_loaded t v ≡ true
      → q v ≡ true
      → loaded_count q t ≡ suc (loaded_count q (unload t v))
  loaded_count-unload q t v l len e p =
      count_below-flip t.num_experts v _ _ l (ground arith)
        (ground (arith, get_or-set_self t.loaded v false false (omega arith)))
        (λ i ne.
          ap (λ b. b && q i) (sym (get_or-set_ne t.loaded v i false false (λ c. ne (sym c)))))

  -- Every round drops one slice that passes the test, for each test that what may be evicted passes.
  pub reclaim-count :
      (q : ℕ → Bool) (cold_only : Bool) (n : ℕ) (t : ExpertTensor F) (s : Ledger)
      → length t.loaded ≡ t.num_experts
      → ((i : ℕ) → may_evict fl cold_only t i ≡ true → q i ≡ true)
      → loaded_count q (reclaim fl k cold_only n t s).0 + n
        ≡ loaded_count q t + (reclaim fl k cold_only n t s).2
  reclaim-count q cold_only zero t s len sub = rw (reclaim-zero cold_only t s)
  reclaim-count q cold_only (suc n) t s len sub =
      elim (Option-cases (scan fl cold_only t t.num_experts).victim) [
        | inl e ↦ rw (reclaim-none cold_only n t s e)
        | inr (v, e) ↦
            let found = (scan-IsOldest fl cold_only t t.num_experts).found v e in
            let here = loaded_count-unload q t v found.0 len found.1.0 (sub v found.1.1) in
            let rest =
              reclaim-count q cold_only n (unload t v) (evict_slice fl k t v s)
                (length-set t.loaded v false ∙ len) sub in
            rw (reclaim-some cold_only n t s v e) (omega arith)
      ]

  nothing_eligible :
      (cold_only : Bool) (t : ExpertTensor F)
      → ((i : ℕ) → recency t i < u64_max)
      → (scan fl cold_only t t.num_experts).victim ≡ none
      → loaded_count (may_evict fl cold_only t) t ≡ 0
  nothing_eligible cold_only t fresh e =
      let h = scan-IsOldest fl cold_only t t.num_experts in
      count_below-eq_zero _ _ λ i l.
        elim (Bool-cases (is_loaded t i && may_evict fl cold_only t i)) [
          | inl both ↦ absurd (omega (arith, h.bound i l (&&_both _ _ both), h.nothing e, fresh i))
          | inr not_both ↦ not_both
        ]

  -- The loop ends early only when nothing is left that it may evict.
  pub reclaim-exhausts :
      (cold_only : Bool) (n : ℕ) (t : ExpertTensor F) (s : Ledger)
      → ((i : ℕ) → recency t i < u64_max)
      → ((reclaim fl k cold_only n t s).2 ≡ 0)
        ⊎ (loaded_count (may_evict fl cold_only t) (reclaim fl k cold_only n t s).0 ≡ 0)
  reclaim-exhausts cold_only zero t s fresh = rw (reclaim-zero cold_only t s) (inl refl)
  reclaim-exhausts cold_only (suc n) t s fresh =
      elim (Option-cases (scan fl cold_only t t.num_experts).victim) [
        | inl e ↦ rw (reclaim-none cold_only n t s e) (inr (nothing_eligible cold_only t fresh e))
        | inr (v, e) ↦
            rw (reclaim-some cold_only n t s v e)
              (reclaim-exhausts cold_only n (unload t v) (evict_slice fl k t v s) fresh)
      ]

  pub reclaim-length :
      (cold_only : Bool) (n : ℕ) (t : ExpertTensor F) (s : Ledger)
      → length (reclaim fl k cold_only n t s).0.loaded ≡ length t.loaded
  reclaim-length cold_only zero t s = rw (reclaim-zero cold_only t s)
  reclaim-length cold_only (suc n) t s =
      elim (Option-cases (scan fl cold_only t t.num_experts).victim) [
        | inl e ↦ rw (reclaim-none cold_only n t s e)
        | inr (v, e) ↦ rw (reclaim-some cold_only n t s v e) (
            reclaim-length cold_only n (unload t v) (evict_slice fl k t v s)
            ∙ length-set t.loaded v false)
      ]

  -- No slice is loaded by an eviction.
  pub reclaim_mono :
      (cold_only : Bool) (n : ℕ) (t : ExpertTensor F) (s : Ledger) (i : ℕ)
      → is_loaded (reclaim fl k cold_only n t s).0 i ≡ true
      → is_loaded t i ≡ true
  reclaim_mono cold_only zero t s i = rw (reclaim-zero cold_only t s) (λ h. h)
  reclaim_mono cold_only (suc n) t s i =
      elim (Option-cases (scan fl cold_only t t.num_experts).victim) [
        | inl e ↦ rw (reclaim-none cold_only n t s e) (λ h. h)
        | inr (v, e) ↦ rw (reclaim-some cold_only n t s v e) (λ h.
            unload_mono t v i (reclaim_mono cold_only n (unload t v) (evict_slice fl k t v s) i h))
      ]

  -- What may not be evicted stays as it is.
  pub reclaim-spares :
      (cold_only : Bool) (n : ℕ) (t : ExpertTensor F) (s : Ledger) (i : ℕ)
      → may_evict fl cold_only t i ≡ false
      → is_loaded (reclaim fl k cold_only n t s).0 i ≡ is_loaded t i
  reclaim-spares cold_only zero t s i h = rw (reclaim-zero cold_only t s)
  reclaim-spares cold_only (suc n) t s i h =
      elim (Option-cases (scan fl cold_only t t.num_experts).victim) [
        | inl e ↦ rw (reclaim-none cold_only n t s e)
        | inr (v, e) ↦
            let found = (scan-IsOldest fl cold_only t t.num_experts).found v e in
            rw (reclaim-some cold_only n t s v e) (
              reclaim-spares cold_only n (unload t v) (evict_slice fl k t v s) i h
              ∙ get_or-set_ne t.loaded v i false false
                  (λ c. false≢true (sym h ∙ ap (may_evict fl cold_only t) (sym c) ∙ found.1.1)))
      ]

  -- Of the slices that a pass may evict, the less recently used go first.
  pub reclaim-lru :
      (cold_only : Bool) (n : ℕ) (t : ExpertTensor F) (s : Ledger) (i j : ℕ)
      → j < t.num_experts
      → may_evict fl cold_only t j ≡ true
      → is_loaded t i ≡ true
      → is_loaded (reclaim fl k cold_only n t s).0 i ≡ false
      → is_loaded (reclaim fl k cold_only n t s).0 j ≡ true
      → recency t i ≤ recency t j
  reclaim-lru cold_only zero t s i j l mj ti =
      rw (reclaim-zero cold_only t s) (λ gone kept. absurd (false≢true (sym gone ∙ ti)))
  reclaim-lru cold_only (suc n) t s i j l mj ti =
      elim (Option-cases (scan fl cold_only t t.num_experts).victim) [
        | inl e ↦
            rw (reclaim-none cold_only n t s e) (λ gone kept. absurd (false≢true (sym gone ∙ ti)))
        | inr (v, e) ↦
            let oldest = scan-IsOldest fl cold_only t t.num_experts in
            let found = oldest.found v e in
            rw (reclaim-some cold_only n t s v e) λ gone kept.
              let u = unload t v in
              let su = evict_slice fl k t v s in
              elim (ℕ_discrete v i) [
                | yes here ↦
                    let least =
                      oldest.bound j l
                        (unload_mono t v j (reclaim_mono cold_only n u su j kept), mj) in
                    omega (arith, least, found.2, ap (recency t) here)
                | no other ↦
                    reclaim-lru cold_only n u su i j l mj
                      (get_or-set_ne t.loaded v i false false other ∙ ti) gone kept
              ]
      ]
