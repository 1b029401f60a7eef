-- ===== src/Expert/Ceiling.antt =====
-- src/guanaco_steppeloader.cpp, enforce_expert_byte_ceiling: while the resident bytes exceed the
-- budget, evict the least recently used slice of any tensor, pinned or not.
pub mod Steps
pub mod Account
pub mod Gone
pub mod Bound
use guanaco.Base.{
  ℕ, zero, suc, ◌+◌, min, Bool, true, false, ◌&&◌, ◌||◌, not, Option, none, some, List, [], ◌∷◌,
  ◌++◌, if◌then◌else◌, ltb, leb, ◌==◌, get_elem?, set, length, range,
}
use guanaco.Base.Words.{sub64, inc64}
use guanaco.Base.Sort.{sort}
use guanaco.Madvise.{Kernel, dontneed, madvise_range}
use guanaco.Expert.{ExpertTensor, Ledger, Experts, is_loaded, recency, unload, slice_addr}

-- struct Slice; the tensor is its place in the list.
pub record Slice : Type 0 where
  pub last_used : ℕ
  pub tensor : ℕ
  pub id : ℕ

abbrev pub older : Slice → Slice → Bool
older a b = ltb a.last_used b.last_used

module _ {F : Type 0} where
  -- Mapped, with slices that are not empty.
  abbrev pub has_slices : ExpertTensor F → Bool
  has_slices t = elim t.mmap_base [ none ↦ false | some _ ↦ not (t.per_expert_bytes == 0) ]

  -- The loaded slices with an index below a bound.
  unfoldable pub slices_below : ℕ → ExpertTensor F → ℕ → List Slice
  slices_below pos t zero = []
  slices_below pos t (suc i) =
      slices_below pos t i
      ++ (if is_loaded t i
          then record { last_used = recency t i; tensor = pos; id = i } ∷ []
          else [])

  unfoldable pub collect : ℕ → List (ExpertTensor F) → List Slice
  unfolding slices_below
  collect pos [] = []
  collect pos (t ∷ ts) =
      (if has_slices t then slices_below pos t t.num_experts else []) ++ collect (suc pos) ts

  module _ (k : Kernel) where
    -- ++evictions_, the bytes, MADV_DONTNEED
    unfoldable pub drop_slice : ExpertTensor F → ℕ → Ledger → Ledger
    drop_slice t id s = record s {
      evictions = inc64 s.evictions;
      expert_resident_bytes =
          sub64 s.expert_resident_bytes (min t.per_expert_bytes s.expert_resident_bytes);
      advice = (madvise_range k (slice_addr t id) t.per_expert_bytes dontneed s.advice).0;
    }

    -- for (const Slice & s : resident) { … }
    unfoldable pub drop_slices :
        ℕ → List Slice → List (ExpertTensor F) → Ledger → List (ExpertTensor F) × Ledger
    unfolding drop_slice
    drop_slices budget [] ts s = (ts, s)
    drop_slices budget (c ∷ cs) ts s = elim (leb s.expert_resident_bytes budget) [
      | true ↦ (ts, s)
      | false ↦ elim (get_elem? ts c.tensor) [
        | none ↦ drop_slices budget cs ts s
        | some t ↦ elim (is_loaded t c.id) [
          | false ↦ drop_slices budget cs ts s
          | true ↦ drop_slices budget cs (set ts c.tensor (unload t c.id)) (drop_slice t c.id s)
        ]
      ]
    ]

    unfoldable pub enforce_expert_byte_ceiling : Experts F → Experts F
    unfolding drop_slices collect
    enforce_expert_byte_ceiling st =
        if st.expert_budget_bytes == 0 || leb st.ledger.expert_resident_bytes st.expert_budget_bytes
        then st
        else let (ts, s) =
            drop_slices st.expert_budget_bytes (sort older (collect 0 st.tensors)) st.tensors
              st.ledger in
          record st { tensors = ts; ledger = s }
