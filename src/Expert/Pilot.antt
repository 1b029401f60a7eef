-- ===== src/Expert/Pilot.antt =====
-- src/guanaco_steppeloader.cpp, pilot_prefetch_next_layer: predict the next MoE layer's experts from
-- the learned transitions, and prefetch them. The set of predictions is a list without duplicates, in
-- the order of insertion.
pub mod Bounds
pub mod Outcome
use guanaco.Base.{
  ℕ, zero, suc, ◌+◌, ◌*◌, Bool, true, false, ◌&&◌, ◌||◌, not, Option, none, some, List, [], ◌∷◌,
  if◌then◌else◌, ltb, leb, ◌==◌, ℤ, pos, ◌==ℤ◌, ltb_ℤ, index_of, get_or, set, map, replicate,
  length, range,
}
use guanaco.Base.Words.{add64, inc64}
use guanaco.Base.Sort.{sort}
use guanaco.Madvise.{Kernel}
use guanaco.Expert.{Floats, ExpertTensor, Config, Experts, budget_of}
use guanaco.Expert.Prefetch.{insert_id, prefetch_experts}

-- The first MoE layer after this one (moe_layers_ is sorted), if it is not negative.
unfoldable pub next_layer : ℤ → List ℤ → Option ℤ
next_layer layer [] = none
next_layer layer (l ∷ ls) =
    if ltb_ℤ layer l then (if ltb_ℤ l (pos 0) then none else some l) else next_layer layer ls

-- score[to] += row[to] for to < E; the flag is `any`.
unfoldable pub add_row : ℕ → List ℕ → ℕ → List ℕ × Bool → List ℕ × Bool
add_row base trans zero sc = sc
add_row base trans (suc to) sc =
    let (score, any) = add_row base trans to sc in
    if get_or trans (base + to) 0 == 0
    then (score, any)
    else (set score to (add64 (get_or score to 0) (get_or trans (base + to) 0)), true)

unfoldable pub add_rows : ℕ → List ℕ → List ℤ → List ℕ × Bool → List ℕ × Bool
unfolding add_row
add_rows e trans [] sc = sc
add_rows e trans (z ∷ zs) sc = elim (index_of z e) [
  | none ↦ add_rows e trans zs sc
  | some from ↦ add_rows e trans zs (add_row (from * e) trans e sc)
]

-- total_mass
unfoldable pub mass : List ℕ → ℕ
mass [] = 0
mass (x ∷ xs) = add64 x (mass xs)

-- The loop over the ranks: `kept` and `acc` so far, and the predictions.
unfoldable pub keep_top : ℕ → ℕ → List ℕ → ℕ → ℕ → List ℕ → List ℕ → List ℕ
unfolding insert_id
keep_top cap cutoff score kept acc [] predicted = predicted
keep_top cap cutoff score kept acc (id ∷ order) predicted =
    elim (leb cap kept || (leb cutoff acc && ltb 0 kept)) [
      | true ↦ predicted
      | false ↦
          keep_top cap cutoff score (suc kept) (add64 acc (get_or score id 0)) order
            (insert_id id predicted)
    ]

module _ {F : Type 0} (fl : Floats F) where
  unfoldable pub cutoff_of : Config F → ℕ → ℕ
  cutoff_of c total = if total == 0 then 0 else fl.mass_of c.pilot_mass total

  unfoldable pub predict_ranked : Config F → ExpertTensor F → List ℕ → List ℕ → List ℕ
  unfolding keep_top cutoff_of mass
  predict_ranked c t score predicted =
      keep_top (budget_of c t) (cutoff_of c (mass score)) score 0 0
        (sort (λ a b. ltb (get_or score b 0) (get_or score a 0)) (range t.num_experts)) predicted

  unfoldable pub predict_tensor : Config F → List ℤ → ExpertTensor F → List ℕ → List ℕ
  unfolding predict_ranked add_rows
  predict_tensor c ids t predicted =
      let (score, any) = add_rows t.num_experts t.trans ids (replicate t.num_experts 0, false) in
      if any then predict_ranked c t score predicted else predicted

  unfoldable pub predict : Config F → ℤ → List ℤ → List (ExpertTensor F) → List ℕ → List ℕ
  unfolding predict_tensor
  predict c next ids [] predicted = predicted
  predict c next ids (t ∷ ts) predicted = predict c next ids ts (
      if t.layer ==ℤ next && not (t.num_experts == 0)
      then predict_tensor c ids t predicted
      else predicted)

  unfoldable pub pilot_prefetch_next_layer : Kernel → Experts F → ℤ → List ℤ → Experts F
  unfolding predict next_layer
  pilot_prefetch_next_layer k st layer [] = st
  pilot_prefetch_next_layer k st layer (z ∷ zs) =
      if not st.enabled || not st.config.use_pilot
      then st
      else elim (next_layer layer st.moe_layers) [
        | none ↦ st
        | some next ↦ elim (predict st.config next (z ∷ zs) st.tensors []) [
          | [] ↦ st
          | p ∷ ps ↦
              prefetch_experts k
                (record st {
                  pilot_calls = inc64 st.pilot_calls;
                  pilot_slice_reads = add64 st.pilot_slice_reads (length (p ∷ ps));
                })
                next (map pos (p ∷ ps))
        ]
      ]
