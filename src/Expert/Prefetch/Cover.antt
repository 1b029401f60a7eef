-- ===== src/Expert/Prefetch/Cover.antt =====
-- src/guanaco_steppeloader.cpp, prefetch_experts: every selected slice is pinned, loaded or wanted once
-- the choice has been sorted out.
use mathlib.Core.Path.{subst}
use guanaco.Base.{
  zero, suc, some_inj, ℕ, ◌≡◌, ◌⊎◌, refl, sym, ap, ◌∙◌, inl, inr, Bool, true, false, ◌||◌, some,
  List, [], ◌∷◌, arith, get_or, set, ℤ, index_of, All, Bool-cases, Option-cases, ◌==◌,
}
use guanaco.Expert.{ExpertTensor, Ledger, is_loaded, is_pinned}
use guanaco.Expert.Slices.{touch}
use guanaco.Expert.Prefetch.{Classified, insert_id, sort_out, classify_one, classify}
use guanaco.Expert.Prefetch.Classify.{classify_one-Classifies}

abbrev pub has_id : ℕ → List ℕ → Bool
has_id i [] = false
has_id i (x ∷ xs) = x == i || has_id i xs

has_id-insert_id :
    (id i : ℕ) (xs : List ℕ) → (id ≡ i) ⊎ (has_id i xs ≡ true) → has_id i (insert_id id xs) ≡ true
unfolding insert_id
has_id-insert_id id i [] (inl e) = ground arith
has_id-insert_id id i [] (inr h) = cc
has_id-insert_id id i (x ∷ xs) h = elim (Bool-cases (x == id)) [
  | inl here ↦ rw here (elim h [ inl e ↦ ground arith | inr e ↦ e ])
  | inr other ↦ elim (Bool-cases (x == i)) [
    | inl found ↦ rw other (ground arith)
    | inr more ↦
        let rest =
          has_id-insert_id id i xs (elim h [ inl e ↦ inl e | inr e ↦ inr (ground arith) ]) in
        rw other (ground (arith, rest))
  ]
]

pub set_more :
    (bits : List Bool) (v i : ℕ)
    → get_or bits i false ≡ true
    → get_or (set bits v true) i false ≡ true
set_more [] v i h = h
set_more (b ∷ bs) zero zero h = refl
set_more (b ∷ bs) zero (suc i) h = h
set_more (b ∷ bs) (suc v) zero h = h
set_more (b ∷ bs) (suc v) (suc i) h = set_more bs v i h

module _ {F : Type 0} where
  -- Pinned, loaded, or wanted.
  abbrev pub covered : Classified F → ℕ → Bool
  covered c i = is_pinned c.tensor i || (is_loaded c.tensor i || has_id i c.want)

  sort_out-covered :
      (t : ExpertTensor F) (s : Ledger) (id i : ℕ) (want : List ℕ)
      → (id ≡ i) ⊎ ((is_pinned t i || (is_loaded t i || has_id i want)) ≡ true)
      → covered (sort_out t s id want) i ≡ true
  unfolding sort_out
  sort_out-covered t s id i want h = elim (Bool-cases (is_pinned t id)) [
    | inl p ↦ rw (p, sort_out) (elim h [ inl e ↦ ground arith | inr e ↦ e ])
    | inr p ↦ elim (Bool-cases (is_loaded t id)) [
      | inl e ↦ rw (p, e, sort_out) (elim h [ inl q ↦ ground arith | inr q ↦ q ])
      | inr e ↦
          rw (p, e, sort_out)
            (elim h [
              | inl q ↦ ground (arith, has_id-insert_id id i want (inl q))
              | inr q ↦ ground (arith, has_id-insert_id id i want)
            ])
    ]
  ]

  classify_one-covered :
      (c : Classified F) (z : ℤ) (i : ℕ)
      → (index_of z c.tensor.num_experts ≡ some i) ⊎ (covered c i ≡ true)
      → covered (classify_one c z) i ≡ true
  unfolding classify_one touch
  classify_one-covered c z i h = elim (Option-cases (index_of z c.tensor.num_experts)) [
    | inl out ↦ rw (out, classify_one) (elim h [ inl e ↦ absurd (cc) | inr e ↦ e ])
    | inr (id, here) ↦
        rw (here, classify_one)
          (sort_out-covered (touch c.tensor id c.ledger).0 (touch c.tensor id c.ledger).1 id i
            c.want (elim h [ inl e ↦ inl (some_inj (sym here ∙ e)) | inr e ↦ inr e ]))
  ]

  classify-covered :
      (zs : List ℤ) (c : Classified F) (i : ℕ)
      → covered c i ≡ true
      → covered (classify zs c) i ≡ true
  unfolding classify
  classify-covered [] c i h = h
  classify-covered (z ∷ zs) c i h =
      classify-covered zs (classify_one c z) i (classify_one-covered c z i (inr h))

  -- Every selected id in range is covered in the end.
  pub classify-selected :
      (zs : List ℤ) (c : Classified F)
      → All
          (λ z.
            (i : ℕ) → index_of z c.tensor.num_experts ≡ some i → covered (classify zs c) i ≡ true)
          zs
  unfolding classify
  classify-selected [] c = tt
  classify-selected (z ∷ zs) c =
      let c1 = classify_one c z in
      let same : c1.tensor.num_experts ≡ c.tensor.num_experts =
        ap (λ (u : ExpertTensor F). u.num_experts) (classify_one-Classifies c z).frame in
      (
        λ i here. classify-covered zs c1 i (classify_one-covered c z i (inl here)),
        subst
            (λ n. All (λ y. (i : ℕ) → index_of y n ≡ some i → covered (classify zs c1) i ≡ true) zs)
            same (classify-selected zs c1),
      )
