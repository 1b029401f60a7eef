-- ===== src/Expert/Prefetch/Classify.antt =====
-- The classification loop of prefetch_experts: what it keeps, and which ids it wants.
use mathlib.Core.Path.{subst}
use guanaco.Base.{
  ℕ, ◌<◌, ◌≡◌, ◌≢◌, refl, sym, ap, ◌∙◌, inl, inr, Bool, false, List, [], ◌∷◌, arith, length, get_or,
  ℤ, index_of, index_of-lt, All, Bool-cases, Option-cases, length-set, ◌==◌,
}
use guanaco.Expert.{ExpertTensor, Ledger, is_loaded, is_pinned}
use guanaco.Expert.Slices.{touch}
use guanaco.Expert.Prefetch.{Classified, insert_id, note_miss, sort_out, classify_one, classify}

-- Ids in range, not loaded, each once.
abbrev pub Wanted : List Bool → ℕ → List ℕ → Type 0
Wanted loaded n [] = Unit {0}
Wanted loaded n (id ∷ ids) =
    (id < n) × (get_or loaded id false ≡ false) × All (λ x. x ≢ id) ids × Wanted loaded n ids

insert_id-All : (P : ℕ → Type 0) (id : ℕ) (xs : List ℕ) → P id → All P xs → All P (insert_id id xs)
unfolding insert_id
insert_id-All P id [] p h = (p, tt)
insert_id-All P id (x ∷ xs) p h = elim (Bool-cases (x == id)) [
  | inl e ↦ rw e h
  | inr e ↦ rw e (h.0, insert_id-All P id xs p h.1)
]

insert_id-Wanted :
    (loaded : List Bool) (n id : ℕ) (xs : List ℕ)
    → id < n
    → get_or loaded id false ≡ false
    → Wanted loaded n xs
    → Wanted loaded n (insert_id id xs)
unfolding insert_id
insert_id-Wanted loaded n id [] l e w = (l, e, tt, tt)
insert_id-Wanted loaded n id (x ∷ xs) l e w = elim (Bool-cases (x == id)) [
  | inl here ↦ rw here w
  | inr other ↦ rw other (
    w.0,
    w.1,
    insert_id-All (λ y. y ≢ x) id xs (λ c. ground arith) w.2,
    insert_id-Wanted loaded n id xs l e w.3,
  )
]

module _ {F : Type 0} where
  -- The classification of one id: what stays, and what it wants.
  pub record Classifies (c c' : Classified F) : Type 0 where
    pub frame : c'.tensor ≡ record c.tensor { last_used = c'.tensor.last_used }
    pub recency : length c'.tensor.last_used ≡ length c.tensor.last_used
    pub bytes : c'.ledger.expert_resident_bytes ≡ c.ledger.expert_resident_bytes
    pub want :
        Wanted c.tensor.loaded c.tensor.num_experts c.want
        → Wanted c.tensor.loaded c.tensor.num_experts c'.want

  note_miss-bytes :
      (t : ExpertTensor F) (id : ℕ) (s : Ledger)
      → (note_miss t.name id s).expert_resident_bytes ≡ s.expert_resident_bytes
  unfolding note_miss
  note_miss-bytes t id s = ground arith

  sort_out-bytes :
      (t : ExpertTensor F) (s : Ledger) (id : ℕ) (want : List ℕ)
      → (sort_out t s id want).ledger.expert_resident_bytes ≡ s.expert_resident_bytes
  unfolding sort_out
  sort_out-bytes t s id want = ground (arith, note_miss-bytes t id s)

  sort_out-tensor :
      (t : ExpertTensor F) (s : Ledger) (id : ℕ) (want : List ℕ) → (sort_out t s id want).tensor ≡ t
  unfolding sort_out
  sort_out-tensor t s id want = ground arith

  sort_out-Wanted :
      (t : ExpertTensor F) (s : Ledger) (id n : ℕ) (want : List ℕ)
      → id < n
      → Wanted t.loaded n want
      → Wanted t.loaded n (sort_out t s id want).want
  unfolding sort_out
  sort_out-Wanted t s id n want l w = elim (Bool-cases (is_pinned t id)) [
    | inl p ↦ rw (p, sort_out) w
    | inr p ↦ elim (Bool-cases (is_loaded t id)) [
      | inl e ↦ rw (p, e, sort_out) w
      | inr e ↦ rw (p, e, sort_out) (insert_id-Wanted t.loaded n id want l e w)
    ]
  ]

  pub classify_one-Classifies : (c : Classified F) (z : ℤ) → Classifies c (classify_one c z)
  unfolding classify_one touch
  classify_one-Classifies c z = elim (Option-cases (index_of z c.tensor.num_experts)) [
    | inl out ↦
        rw (out, classify_one)
          (record { frame = refl; recency = refl; bytes = refl; want = λ w. w })
    | inr (id, here) ↦
        let t' = (touch c.tensor id c.ledger).0 in
        let s' = (touch c.tensor id c.ledger).1 in
        let same = sort_out-tensor t' s' id c.want in
        rw (here, classify_one)
          (record {
            frame = same ∙ ap (λ u. record c.tensor { last_used = u.last_used }) (sym same);
            recency = ap (λ u. length u.last_used) same ∙ length-set c.tensor.last_used id _;
            bytes = sort_out-bytes t' s' id c.want;
            want = λ w.
                sort_out-Wanted t' s' id c.tensor.num_experts c.want
                  (index_of-lt z c.tensor.num_experts here) w;
          })
  ]

  Classifies-trans : (a b c : Classified F) → Classifies a b → Classifies b c → Classifies a c
  Classifies-trans a b c h k = record {
    frame =
        k.frame ∙ ap (λ (u : ExpertTensor F). record u { last_used = c.tensor.last_used }) h.frame;
    recency = k.recency ∙ h.recency;
    bytes = k.bytes ∙ h.bytes;
    want = λ w.
        subst (λ (u : ExpertTensor F). Wanted u.loaded u.num_experts c.want) h.frame
          (k.want (
            subst (λ (u : ExpertTensor F). Wanted u.loaded u.num_experts b.want) (sym h.frame)
              (h.want w)));
  }

  pub classify-Classifies : (zs : List ℤ) (c : Classified F) → Classifies c (classify zs c)
  unfolding classify
  classify-Classifies [] c = record { frame = refl; recency = refl; bytes = refl; want = λ w. w }
  classify-Classifies (z ∷ zs) c =
      Classifies-trans c (classify_one c z) (classify zs (classify_one c z))
        (classify_one-Classifies c z) (classify-Classifies zs (classify_one c z))
