-- ===== src/Expert/Pilot/Bounds.antt =====
-- Which layer the pilot predicts for, and how many slices it asks for.
use guanaco.Base.{
  ℕ, suc, ◌+◌, ◌-◌, ◌≤◌, ◌<◌, ◌≡◌, inl, inr, false, ◌&&◌, ◌||◌, List, [], ◌∷◌, ltb, leb, length,
  Bool-cases, arith, ℤ, ltb_ℤ, All, get_or,
}
use guanaco.Base.Words.{add64}
use guanaco.Expert.{Floats, ExpertTensor, Config, budget_of}
use guanaco.Expert.Prefetch.{insert_id}
use guanaco.Expert.Pilot.{keep_top, predict_ranked}

-- In increasing order.
abbrev pub IsSorted : List ℤ → Type 0
IsSorted [] = Unit {0}
IsSorted (x ∷ xs) = All (λ y. ltb_ℤ y x ≡ false) xs × IsSorted xs

length-insert_id : (id : ℕ) (ids : List ℕ) → length (insert_id id ids) ≤ suc (length ids)
unfolding insert_id
length-insert_id id [] = omega arith
length-insert_id id (x ∷ xs) = ground (arith, length-insert_id id xs)

length-keep_top :
    (cap cutoff : ℕ) (score : List ℕ) (kept acc : ℕ) (order predicted : List ℕ)
    → length (keep_top cap cutoff score kept acc order predicted) ≤ length predicted + (cap - kept)
unfolding keep_top
length-keep_top cap cutoff score kept acc [] predicted = omega arith
length-keep_top cap cutoff score kept acc (id ∷ order) predicted =
    elim (Bool-cases (leb cap kept || (leb cutoff acc && ltb 0 kept))) [
      | inl stop ↦ rw (stop, keep_top) (omega arith)
      | inr go ↦
          let rest =
            length-keep_top cap cutoff score (suc kept) (add64 acc (get_or score id 0)) order
              (insert_id id predicted) in
          let one = length-insert_id id predicted in
          let under : kept < cap = ground arith in
          rw (go, keep_top) (omega (arith, rest, one, under))
    ]

module _ {F : Type 0} (fl : Floats F) where
  -- For one tensor the pilot adds at most the tensor's budget of predictions.
  pub length-predict_ranked :
      (c : Config F) (t : ExpertTensor F) (score predicted : List ℕ)
      → length (predict_ranked fl c t score predicted) ≤ length predicted + budget_of c t
  unfolding predict_ranked
  length-predict_ranked c t score predicted =
      omega (arith, length-keep_top (budget_of c t) _ score 0 0 _ predicted)
