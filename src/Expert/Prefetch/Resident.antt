-- ===== src/Expert/Prefetch/Resident.antt =====
-- src/guanaco_steppeloader.cpp, prefetch_experts: what is resident once the selected slices have been
-- faulted in.
use mathlib.Core.Path.{subst}
use guanaco.Base.{
  ℕ, ◌<◌, ◌≡◌, ◌⊎◌, refl, sym, ap, ◌∙◌, inl, inr, Bool, true, false, ◌||◌, none, some, List, [],
  ◌∷◌, arith, length, ℤ, index_of, index_of-lt, All, All-map, Bool-cases, Option-cases, length-set,
  ◌==◌, get_or-set_self,
}
use guanaco.Madvise.{Kernel}
use guanaco.Expert.{ExpertTensor, Ledger, Experts, is_loaded, is_pinned, for_each}
use guanaco.Expert.Books.{IsSized}
use guanaco.Expert.Slices.{fault_in}
use guanaco.Expert.Prefetch.{
  Classified, classify, fault_all, prefetch_tensor, prefetch_body, prefetch_experts, prefetch_all,
  serves,
}
use guanaco.Expert.Prefetch.Classify.{classify-Classifies}
use guanaco.Expert.Prefetch.Cover.{has_id, set_more, classify-selected}

for_each-All {ℓ κ μ} :
    {T : Type ℓ} {S : Type κ} (P Q : T → Type μ) (f : T → S → T × S)
    → ((t : T) (s : S) → P t → Q (f t s).0)
    → (ts : List T) (s : S) → All P ts
    → All Q (for_each f ts s).0
unfolding for_each
for_each-All P Q f h [] s a = tt
for_each-All P Q f h (t ∷ ts) s (p, a) = (h t s p, for_each-All P Q f h ts (f t s).1 a)

module _ {F : Type 0} where
  -- What prefetching a tensor changes: uses, and slices that become loaded.
  pub record Grows (t t' : ExpertTensor F) : Type 0 where
    pub frame : t' ≡ record t { loaded = t'.loaded; last_used = t'.last_used }
    pub more : (i : ℕ) → is_loaded t i ≡ true → is_loaded t' i ≡ true

  Grows-trans : (a b c : ExpertTensor F) → Grows a b → Grows b c → Grows a c
  Grows-trans a b c h k = record {
    frame =
        k.frame
        ∙ ap (λ (u : ExpertTensor F). record u { loaded = c.loaded; last_used = c.last_used })
            h.frame;
    more = λ i e. k.more i (h.more i e);
  }

  module _ (k : Kernel) where
    fault_all-Grows :
        (ids : List ℕ) (t : ExpertTensor F) (s : Ledger) → Grows t (fault_all k ids t s).0
    unfolding fault_all fault_in
    fault_all-Grows [] t s = record { frame = refl; more = λ i e. e }
    fault_all-Grows (id ∷ ids) t s =
        let one : Grows t (fault_in k t id s).0 = record {
          frame = refl;
          more = λ i e. set_more t.loaded id i e;
        } in
        Grows-trans t (fault_in k t id s).0 (fault_all k (id ∷ ids) t s).0 one
          (fault_all-Grows ids (fault_in k t id s).0 (fault_in k t id s).1)

    -- An id of the list is loaded.
    fault_all-loaded :
        (ids : List ℕ) (t : ExpertTensor F) (s : Ledger) (i : ℕ)
        → i < length t.loaded
        → has_id i ids ≡ true
        → is_loaded (fault_all k ids t s).0 i ≡ true
    unfolding fault_all fault_in
    fault_all-loaded [] t s i l h = cc
    fault_all-loaded (id ∷ ids) t s i l h = elim (Bool-cases (id == i)) [
      | inl here ↦
          let same : id ≡ i = ground arith in
          (fault_all-Grows ids (fault_in k t id s).0 (fault_in k t id s).1).more i
            (rw same (get_or-set_self t.loaded i true false l))
      | inr other ↦
          fault_all-loaded ids (fault_in k t id s).0 (fault_in k t id s).1 i
            (omega (arith, length-set t.loaded id true)) (ground arith)
    ]

    prefetch_tensor-Grows :
        (ids : List ℤ) (t : ExpertTensor F) (s : Ledger) → Grows t (prefetch_tensor k ids t s).0
    unfolding prefetch_tensor
    prefetch_tensor-Grows ids t s =
        let c = classify ids (record { tensor = t; ledger = s; want = [] }) in
        let p = classify-Classifies ids (record { tensor = t; ledger = s; want = [] }) in
        let first : Grows t c.tensor = record {
          frame =
              p.frame
              ∙ ap
                  (λ (u : ExpertTensor F). record t {
                    loaded = u.loaded;
                    last_used = c.tensor.last_used;
                  })
                  (sym p.frame);
          more = λ i e. ap (λ (u : ExpertTensor F). is_loaded u i) p.frame ∙ e;
        } in
        Grows-trans t c.tensor (fault_all k c.want c.tensor c.ledger).0 first
          (fault_all-Grows c.want c.tensor c.ledger)

    prefetch_body-Grows :
        (layer : ℤ) (ids : List ℤ) (t : ExpertTensor F) (s : Ledger)
        → Grows t (prefetch_body k layer ids t s).0
    unfolding prefetch_body
    prefetch_body-Grows layer ids t s = elim (Bool-cases (serves layer t)) [
      | inl yes_ ↦ rw (yes_, prefetch_body) (prefetch_tensor-Grows ids t s)
      | inr no_ ↦ rw (no_, prefetch_body) (record { frame = refl; more = λ i e. e })
    ]

  -- The id is out of range, pinned or loaded.
  abbrev pub is_served : ExpertTensor F → ℤ → Bool
  is_served t z = elim (index_of z t.num_experts) [
    | none ↦ true
    | some i ↦ is_pinned t i || is_loaded t i
  ]

  -- The tensor is not one of the layer's, or has every id.
  abbrev pub Serves : ℤ → List ℤ → ExpertTensor F → Type 0
  Serves layer ids t = (serves layer t ≡ false) ⊎ All (λ z. is_served t z ≡ true) ids

  served_where :
      (t : ExpertTensor F) (z : ℤ)
      → ((i : ℕ) → index_of z t.num_experts ≡ some i → (is_pinned t i || is_loaded t i) ≡ true)
      → is_served t z ≡ true
  served_where t z f = elim (Option-cases (index_of z t.num_experts)) [
    | inl out ↦ rw (out, is_served) refl
    | inr (i, here) ↦ rw (here, is_served) (f i here)
  ]

  is_served-Grows :
      (t t' : ExpertTensor F) (z : ℤ) → Grows t t' → is_served t z ≡ true → is_served t' z ≡ true
  is_served-Grows t t' z g h =
      subst (λ (u : ExpertTensor F). is_served u z ≡ true) (sym g.frame)
        (elim (Option-cases (index_of z t.num_experts)) [
          | inl out ↦ rw (out, is_served) refl
          | inr (i, here) ↦
              let h' : (is_pinned t i || is_loaded t i) ≡ true = rw (here, is_served) at h in
              rw (here, is_served) (ground (arith, g.more i, h'))
        ])

  Serves-Grows :
      (layer : ℤ) (ids : List ℤ) (t t' : ExpertTensor F)
      → Grows t t'
      → Serves layer ids t
      → Serves layer ids t'
  Serves-Grows layer ids t t' g (inl no_) =
      inl (ap (λ (u : ExpertTensor F). serves layer u) g.frame ∙ no_)
  Serves-Grows layer ids t t' g (inr h) = inr (All-map ids (λ z e. is_served-Grows t t' z g e) h)

  module _ (k : Kernel) where
    prefetch_tensor-served :
        (ids : List ℤ) (t : ExpertTensor F) (s : Ledger)
        → IsSized t
        → All (λ z. is_served (prefetch_tensor k ids t s).0 z ≡ true) ids
    unfolding prefetch_tensor
    prefetch_tensor-served ids t s sized =
        let start : Classified F = record { tensor = t; ledger = s; want = [] } in
        let c = classify ids start in
        let p = classify-Classifies ids start in
        let t' = (fault_all k c.want c.tensor c.ledger).0 in
        let g = fault_all-Grows k c.want c.tensor c.ledger in
        let same : t'.num_experts ≡ t.num_experts =
          ap (λ (u : ExpertTensor F). u.num_experts) g.frame
          ∙ ap (λ (u : ExpertTensor F). u.num_experts) p.frame in
        let len : length c.tensor.loaded ≡ t.num_experts =
          ap (λ (u : ExpertTensor F). length u.loaded) p.frame ∙ sized.loaded in
        All-map ids
          (λ z f. served_where t' z (λ i here.
            let there : index_of z t.num_experts ≡ some i =
              ap (λ n. index_of z n) (sym same) ∙ here in
            let pins : is_pinned t' i ≡ is_pinned c.tensor i =
              ap (λ (u : ExpertTensor F). is_pinned u i) g.frame in
            let cov : (is_pinned c.tensor i || (is_loaded c.tensor i || has_id i c.want)) ≡ true =
              f i there in
            ground (
              arith,
              pins,
              cov,
              g.more i,
              fault_all-loaded k c.want c.tensor c.ledger i
                  (omega (arith, len, index_of-lt z t.num_experts there)),
            )))
          (classify-selected ids start)

    prefetch_body-Serves :
        (layer : ℤ) (ids : List ℤ) (t : ExpertTensor F) (s : Ledger)
        → IsSized t
        → Serves layer ids (prefetch_body k layer ids t s).0
    unfolding prefetch_body
    prefetch_body-Serves layer ids t s sized = elim (Bool-cases (serves layer t)) [
      | inl yes_ ↦ rw (yes_, prefetch_body) (inr (prefetch_tensor-served ids t s sized))
      | inr no_ ↦ rw (no_, prefetch_body) (inl no_)
    ]

    -- After prefetch_experts on a loader with streaming on, every id of the router that is in range
    -- of a mapped tensor of that layer is pinned or loaded in the tensor.
    pub prefetch_experts-Serves :
        (st : Experts F) (layer : ℤ) (ids : List ℤ)
        → st.enabled ≡ true
        → All IsSized st.tensors
        → All (Serves layer ids) (prefetch_experts k st layer ids).tensors
    unfolding prefetch_experts prefetch_all
    prefetch_experts-Serves st layer [] on sized = All-map st.tensors (λ t e. inr tt) sized
    prefetch_experts-Serves st layer (z ∷ zs) on sized =
        rw (on, prefetch_experts, prefetch_all)
          (for_each-All IsSized (Serves layer (z ∷ zs)) (prefetch_body k layer (z ∷ zs))
            (prefetch_body-Serves layer (z ∷ zs)) st.tensors st.ledger sized)

    -- A later call of prefetch_experts takes none of them away.
    pub prefetch_experts-keeps :
        (st : Experts F) (layer layer' : ℤ) (ids ids' : List ℤ)
        → All (Serves layer ids) st.tensors
        → All (Serves layer ids) (prefetch_experts k st layer' ids').tensors
    unfolding prefetch_experts prefetch_all
    prefetch_experts-keeps st layer layer' ids [] h = h
    prefetch_experts-keeps st layer layer' ids (z ∷ zs) h = elim (Bool-cases st.enabled) [
      | inl on ↦
          rw (on, prefetch_experts, prefetch_all)
            (for_each-All (Serves layer ids) (Serves layer ids) (prefetch_body k layer' (z ∷ zs))
              (λ t s e. Serves-Grows layer ids t _ (prefetch_body-Grows k layer' (z ∷ zs) t s) e)
              st.tensors st.ledger h)
      | inr off ↦ rw (off, prefetch_experts) h
    ]
