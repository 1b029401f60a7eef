-- ===== src/Expert/Ceiling/Gone.antt =====
-- Which slices the ceiling's loop has dropped when it ends over the budget.
use guanaco.Base.{
  get_elem?-set, set-false, some_inj, get_or-set_self, get_or-true-lt, All-append_left,
  All-append_right, ℕ, zero, suc, ◌+◌, ◌≤◌, ◌<◌, ◌≡◌, refl, sym, ap, ◌∙◌, ◌⊎◌, inl, inr, Bool, true,
  false, some, List, [], ◌∷◌, arith, get_elem?, set, All, if◌then◌else◌,
}
use mathlib.Core.Path.{subst}
use native.Mathlib.Decide.{ℕ_discrete}
use guanaco.Madvise.{Kernel}
use guanaco.Expert.{ExpertTensor, Ledger, is_loaded, recency, unload}
use guanaco.Expert.Ceiling.{Slice, drop_slice, drop_slices, has_slices, slices_below, collect}
use guanaco.Expert.Ceiling.Steps.{Gone, drop_slices-nil, drop_slices-cases}

if_true {κ} :
    {A : Type 0} (P : A → Type κ) (b : Bool) (x : A)
    → b ≡ true
    → All P (if b then x ∷ [] else [])
    → P x
if_true P true x e h = h.0
if_true P false x e h = absurd (cc)

module _ {F : Type 0} (k : Kernel) where
  Gone-set :
      (ts : List (ExpertTensor F)) (c d : Slice) (t : ExpertTensor F)
      → get_elem? ts d.tensor ≡ some t
      → Gone ts c
      → Gone (set ts d.tensor (unload t d.id)) c
  Gone-set ts c d t here gone u e = elim (get_elem?-set ts d.tensor c.tensor (unload t d.id) u e) [
    | inl (at_, is) ↦
        let same : get_elem? ts c.tensor ≡ some t = ap (get_elem? ts) (sym at_) ∙ here in
        ap (λ (w : ExpertTensor F). is_loaded w c.id) is
        ∙ set-false t.loaded d.id c.id (gone t same)
    | inr (_, old) ↦ gone u old
  ]

  -- A slice that is gone stays gone.
  drop_slices-Gone :
      (budget : ℕ) (cs : List Slice) (ts : List (ExpertTensor F)) (s : Ledger) (c : Slice)
      → Gone ts c
      → Gone (drop_slices k budget cs ts s).0 c
  drop_slices-Gone budget [] ts s c gone = rw (drop_slices-nil k budget ts s) gone
  drop_slices-Gone budget (d ∷ cs) ts s c gone =
      drop_slices-cases k (λ r. Gone r.0 c) budget d cs ts s (λ _. gone)
        (λ _. drop_slices-Gone budget cs ts s c gone)
        (λ t here held.
          drop_slices-Gone budget cs (set ts d.tensor (unload t d.id)) (drop_slice k t d.id s) c
            (Gone-set ts c d t here gone))

  Gone-here :
      (ts : List (ExpertTensor F)) (c : Slice) (t : ExpertTensor F)
      → get_elem? ts c.tensor ≡ some t
      → is_loaded t c.id ≡ true
      → Gone (set ts c.tensor (unload t c.id)) c
  Gone-here ts c t here held u e = elim (get_elem?-set ts c.tensor c.tensor (unload t c.id) u e) [
    | inl (_, is) ↦
        ap (λ (w : ExpertTensor F). is_loaded w c.id) is
        ∙ get_or-set_self t.loaded c.id false false (get_or-true-lt t.loaded c.id held)
    | inr (ne, _) ↦ absurd (ne refl)
  ]

  -- The loop stops under the budget, or has dropped every slice of its list.
  pub drop_slices-bound :
      (budget : ℕ) (cs : List Slice) (ts : List (ExpertTensor F)) (s : Ledger)
      → ((drop_slices k budget cs ts s).1.expert_resident_bytes ≤ budget)
        ⊎ All (Gone (drop_slices k budget cs ts s).0) cs
  drop_slices-bound budget [] ts s = inr tt
  drop_slices-bound budget (c ∷ cs) ts s =
      drop_slices-cases k (λ r. (r.1.expert_resident_bytes ≤ budget) ⊎ All (Gone r.0) (c ∷ cs))
        budget c cs ts s inl
        (λ gone. elim (drop_slices-bound budget cs ts s) [
          | inl under ↦ inl under
          | inr rest ↦ inr (drop_slices-Gone budget cs ts s c gone, rest)
        ])
        (λ t here held.
          let ts' = set ts c.tensor (unload t c.id) in
          let s' = drop_slice k t c.id s in
          elim (drop_slices-bound budget cs ts' s') [
            | inl under ↦ inl under
            | inr rest ↦
                inr (drop_slices-Gone budget cs ts' s' c (Gone-here ts c t here held), rest)
          ])

  -- Every loaded slice of a mapped tensor is on the list.
  slices_below-complete :
      (P : Slice → Type 0) (pos : ℕ) (t : ExpertTensor F) (n i : ℕ)
      → All P (slices_below pos t n)
      → i < n
      → is_loaded t i ≡ true
      → P (record { last_used = recency t i; tensor = pos; id = i })
  unfolding slices_below
  slices_below-complete P pos t zero i h l e = absurd (omega arith)
  slices_below-complete P pos t (suc n) i h l e = elim (ℕ_discrete i n) [
    | yes here ↦
        let last = All-append_right P (slices_below pos t n) _ h in
        let e' : is_loaded t n ≡ true = ap (is_loaded t) (sym here) ∙ e in
        subst (λ j. P (record { last_used = recency t j; tensor = pos; id = j })) (sym here)
          (if_true P (is_loaded t n) _ e' last)
    | no before ↦
        slices_below-complete P pos t n i (All-append_left P (slices_below pos t n) _ h)
          (omega arith) e
  ]

  collect-here :
      (P : Slice → Type 0) (pos : ℕ) (x : ExpertTensor F) (xs : List (ExpertTensor F)) (i : ℕ)
      → All P (collect pos (x ∷ xs))
      → has_slices x ≡ true
      → i < x.num_experts
      → is_loaded x i ≡ true
      → P (record { last_used = recency x i; tensor = pos; id = i })
  unfolding collect
  collect-here P pos x xs i h m l held =
      let all_ = slices_below pos x x.num_experts in
      let first = All-append_left P (if has_slices x then all_ else []) (collect (suc pos) xs) h in
      let first' : All P all_ = subst (λ b. All P (if b then all_ else [])) m first in
      slices_below-complete P pos x x.num_experts i first' l held

  pub collect-complete :
      (P : Slice → Type 0) (pos : ℕ) (ts : List (ExpertTensor F)) (j i : ℕ) (t : ExpertTensor F)
      → All P (collect pos ts)
      → get_elem? ts j ≡ some t
      → has_slices t ≡ true
      → i < t.num_experts
      → is_loaded t i ≡ true
      → P (record { last_used = recency t i; tensor = pos + j; id = i })
  unfolding collect
  collect-complete P pos [] j i t h e m l held = absurd (cc)
  collect-complete P pos (x ∷ xs) zero i t h e m l held =
      let place : pos ≡ pos + zero = omega arith in
      subst (λ n. P (record { last_used = recency t i; tensor = n; id = i })) place
        (collect-here P pos t xs i (subst (λ u. All P (collect pos (u ∷ xs))) (some_inj e) h) m l
          held)
  collect-complete P pos (x ∷ xs) (suc j) i t h e m l held =
      let rest =
        collect-complete P (suc pos) xs j i t (All-append_right P _ (collect (suc pos) xs) h) e m l
          held in
      let place : suc pos + j ≡ pos + suc j = omega arith in
      subst (λ n. P (record { last_used = recency t i; tensor = n; id = i })) place rest
