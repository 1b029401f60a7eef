-- ===== src/Expert/Imatrix.antt =====
-- src/guanaco_steppeloader.cpp, load_imatrix_prior: the calibration counts become totals, and the
-- experts with the most are pinned. Finding and reading the file is a parameter: no candidate exists,
-- the one found does not parse, or its entries in order.
pub mod Account
use Prim.Native.String.{String}
use text.Mathlib.Text.{◌==◌ as str_eq}
use guanaco.Base.{
  ℕ, zero, suc, ◌+◌, ◌||◌, not, Bool, true, false, Option, none, some, List, [], ◌∷◌, if◌then◌else◌,
  ltb, ◌==◌, ℤ, pos, negsuc, get_or, set,
}
use guanaco.Base.Words.{add64, inc64}
use guanaco.Madvise.{Kernel}
use guanaco.Expert.{Floats, ExpertTensor, Experts}
use guanaco.Expert.Pin.{pin_from_seeded_totals}

pub data PriorFile : Type 0 where
  missing unreadable : PriorFile
  entries : List (String × List ℤ) → PriorFile

-- for (ex = 0; ex < min(counts.size(), num_experts); ++ex): `ex` and the ids left.
unfoldable pub seed_counts : ℕ → ℕ → List ℤ → List ℕ × ℕ → List ℕ × ℕ
seed_counts ex zero counts r = r
seed_counts ex (suc left) [] r = r
seed_counts ex (suc left) (negsuc c ∷ counts) r = seed_counts (suc ex) left counts r
seed_counts ex (suc left) (pos c ∷ counts) (totals, seeded) = seed_counts (suc ex) left counts (
    if c == 0
    then (totals, seeded)
    else (set totals ex (add64 (get_or totals ex 0) c), inc64 seeded))

module _ {F : Type 0} where
  -- The tensor of that name, if there is one.
  unfoldable pub seed_entry :
      String → List ℤ → List (ExpertTensor F) → ℕ → List (ExpertTensor F) × ℕ
  unfolding seed_counts
  seed_entry name counts [] seeded = ([], seeded)
  seed_entry name counts (t ∷ ts) seeded = elim (str_eq t.name name) [
    | true ↦
        let (totals, seeded') = seed_counts 0 t.num_experts counts (t.total_hits, seeded) in
        (record t { total_hits = totals } ∷ ts, seeded')
    | false ↦ let (ts', seeded') = seed_entry name counts ts seeded in (t ∷ ts', seeded')
  ]

  unfoldable pub seed_entries :
      List (String × List ℤ) → List (ExpertTensor F) → ℕ → List (ExpertTensor F) × ℕ
  unfolding seed_entry
  seed_entries [] ts seeded = (ts, seeded)
  seed_entries ((name, counts) ∷ es) ts seeded =
      let (ts', seeded') = seed_entry name counts ts seeded in seed_entries es ts' seeded'

  module _ (k : Kernel) (fl : Floats F) where
    unfoldable pub apply_prior : Experts F → List (String × List ℤ) → Experts F × ℕ
    unfolding seed_entries
    apply_prior st es =
        let (ts, seeded) = seed_entries es st.tensors 0 in
        let seeded_st = record st { tensors = ts } in
        let pinned_st = if ltb 0 seeded then pin_from_seeded_totals k fl seeded_st else seeded_st in
        (record pinned_st { imatrix_loaded = true }, seeded)

    -- With imatrix_seeded_ set, the file is looked for and read.
    unfoldable pub read_prior : Experts F → PriorFile → Experts F × ℕ
    unfolding apply_prior
    read_prior st missing = (st, 0)
    read_prior st unreadable = (st, 0)
    read_prior st (entries es) = apply_prior st es

    -- The state after, and the number of slots seeded.
    unfoldable pub load_imatrix_prior : Experts F → PriorFile → Experts F × ℕ
    unfolding read_prior
    load_imatrix_prior st file = elim st.tensors [
      | [] ↦ (st, 0)
      | _ ∷ _ ↦
          if st.imatrix_seeded
          then (st, 0)
          else if not st.config.use_imatrix
          then (record st { imatrix_seeded = true }, 0)
          else read_prior (record st { imatrix_seeded = true }) file
    ]
