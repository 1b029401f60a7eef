-- ===== src/Expert/Ceiling/Bound.antt =====
-- What enforce_expert_byte_ceiling achieves.
use guanaco.Base.{
  get_elem?-set, ℕ, ◌≤◌, ◌<◌, ◌≡◌, refl, sym, ap, ◌∙◌, ◌⊎◌, inl, inr, true, false, some, List, [],
  ◌∷◌, arith, get_elem?, set, All, Bool-cases,
}
use native.Mathlib.Decide.{dec_le}
use guanaco.Base.Sort.{sort, All-sort_inv}
use guanaco.Madvise.{Kernel}
use guanaco.Expert.{ExpertTensor, Ledger, Experts, is_loaded, unload}
use guanaco.Expert.Evict.Reclaim.{unload_mono}
use guanaco.Expert.Ceiling.{
  Slice, drop_slice, drop_slices, has_slices, collect, older, enforce_expert_byte_ceiling,
}
use guanaco.Expert.Ceiling.Steps.{Gone, drop_slices-nil, drop_slices-cases}
use guanaco.Base.{count_below-eq_zero, All-get_elem}
use guanaco.Expert.Books.{loaded_slices}
use guanaco.Expert.Ceiling.Gone.{collect-complete, drop_slices-bound}

module _ {F : Type 0} (k : Kernel) where
  -- The tensors afterwards are those before, with fewer slices loaded.
  abbrev pub Shrinks : List (ExpertTensor F) → List (ExpertTensor F) → Type 0
  Shrinks ts ts' =
      (j : ℕ) (u : ExpertTensor F)
      → get_elem? ts' j ≡ some u
      → (t : ExpertTensor F) × (get_elem? ts j ≡ some t)
        × (u ≡ record t { loaded = u.loaded })
        × ((i : ℕ) → is_loaded u i ≡ true → is_loaded t i ≡ true)

  Shrinks-unload :
      (ts : List (ExpertTensor F)) (d v : ℕ) (t : ExpertTensor F)
      → get_elem? ts d ≡ some t
      → Shrinks ts (set ts d (unload t v))
  Shrinks-unload ts d v t here j u e = elim (get_elem?-set ts d j (unload t v) u e) [
    | inl (at_, is) ↦ (
      t,
      ap (get_elem? ts) (sym at_) ∙ here,
      is ∙ ap (λ (w : ExpertTensor F). record t { loaded = w.loaded }) (sym is),
      λ i h. unload_mono t v i (ap (λ (w : ExpertTensor F). is_loaded w i) (sym is) ∙ h),
    )
    | inr (_, old) ↦ (u, old, refl, λ i h. h)
  ]

  Shrinks-trans : (a b c : List (ExpertTensor F)) → Shrinks a b → Shrinks b c → Shrinks a c
  Shrinks-trans a b c f g j u e =
      let (t, at_t, is_t, sub_t) = g j u e in
      let (r, at_r, is_r, sub_r) = f j t at_t in
      (
        r,
        at_r,
        is_t ∙ ap (λ (w : ExpertTensor F). record w { loaded = u.loaded }) is_r,
        λ i h. sub_r i (sub_t i h),
      )

  drop_slices-Shrinks :
      (budget : ℕ) (cs : List Slice) (ts : List (ExpertTensor F)) (s : Ledger)
      → Shrinks ts (drop_slices k budget cs ts s).0
  drop_slices-Shrinks budget [] ts s =
      rw (drop_slices-nil k budget ts s) (λ j u e. (u, e, refl, λ i h. h))
  drop_slices-Shrinks budget (d ∷ cs) ts s =
      drop_slices-cases k (λ r. Shrinks ts r.0) budget d cs ts s (λ _ j u e. (u, e, refl, λ i h. h))
        (λ _. drop_slices-Shrinks budget cs ts s)
        (λ t here held.
          let ts' = set ts d.tensor (unload t d.id) in
          let s' = drop_slice k t d.id s in
          Shrinks-trans ts ts' (drop_slices k budget cs ts' s').0
            (Shrinks-unload ts d.tensor d.id t here) (drop_slices-Shrinks budget cs ts' s'))

  pub enforce-idle :
      (st : Experts F)
      → st.ledger.expert_resident_bytes ≤ st.expert_budget_bytes
      → enforce_expert_byte_ceiling k st ≡ st
  unfolding enforce_expert_byte_ceiling
  enforce-idle st h = ground arith

  pub enforce-runs :
      (st : Experts F)
      → 0 < st.expert_budget_bytes
      → st.expert_budget_bytes < st.ledger.expert_resident_bytes
      → let r =
          drop_slices k st.expert_budget_bytes
            (sort older (collect 0 st.tensors))
            st.tensors
            st.ledger in
        enforce_expert_byte_ceiling k st ≡ record st { tensors = r.0; ledger = r.1 }
  unfolding enforce_expert_byte_ceiling
  enforce-runs st h over = ground arith

  All-Gone :
      (st : Experts F) (ts' : List (ExpertTensor F))
      → Shrinks st.tensors ts'
      → All (Gone ts') (sort older (collect 0 st.tensors))
      → (j i : ℕ) (u : ExpertTensor F) → get_elem? ts' j ≡ some u
      → has_slices u ≡ true
      → i < u.num_experts
      → is_loaded u i ≡ false
  All-Gone st ts' sub gone j i u e m l = elim (Bool-cases (is_loaded u i)) [
    | inl held ↦
        let (t, at_, is, back) = sub j u e in
        let m' : has_slices t ≡ true = ap (λ (w : ExpertTensor F). has_slices w) (sym is) ∙ m in
        let l' : i < t.num_experts = omega (arith, ap (λ (w : ExpertTensor F). w.num_experts) is) in
        collect-complete k (Gone ts') 0 st.tensors j i t
          (All-sort_inv older (Gone ts') (collect 0 st.tensors) gone) at_ m' l' (back i held) u
          (ap (get_elem? ts') (omega arith) ∙ e)
    | inr out ↦ out
  ]

  none_left :
      (ts' : List (ExpertTensor F)) (u : ExpertTensor F)
      → ((i : ℕ) → has_slices u ≡ true → i < u.num_experts → is_loaded u i ≡ false)
      → (has_slices u ≡ false) ⊎ (loaded_slices u ≡ 0)
  none_left ts' u h = elim (Bool-cases (has_slices u)) [
    | inl mapped ↦ inr (count_below-eq_zero u.num_experts (is_loaded u) (λ i l. h i mapped l))
    | inr unmapped ↦ inl unmapped
  ]

  -- With a byte budget, enforce_expert_byte_ceiling ends with the resident bytes under it, or no
  -- mapped tensor has a loaded slice left, pinned ones included.
  pub enforce_expert_byte_ceiling-bound :
      (st : Experts F)
      → 0 < st.expert_budget_bytes
      → let st' = enforce_expert_byte_ceiling k st in
        (st'.ledger.expert_resident_bytes ≤ st.expert_budget_bytes)
        ⊎ All (λ u. (has_slices u ≡ false) ⊎ (loaded_slices u ≡ 0)) st'.tensors
  enforce_expert_byte_ceiling-bound st h =
      elim (dec_le st.ledger.expert_resident_bytes st.expert_budget_bytes) [
        | yes under ↦ rw (enforce-idle st under) (inl under)
        | no over ↦
            let cs = sort older (collect 0 st.tensors) in
            let budget = st.expert_budget_bytes in
            let r = drop_slices k budget cs st.tensors st.ledger in
            let sub = drop_slices-Shrinks budget cs st.tensors st.ledger in
            rw (enforce-runs st h (omega arith))
              (elim (drop_slices-bound k budget cs st.tensors st.ledger) [
                | inl under ↦ inl under
                | inr gone ↦ inr (
                    All-get_elem r.0 (λ j u at_.
                      none_left r.0 u (λ i m l. All-Gone st r.0 sub gone j i u at_ m l)))
              ])
      ]
