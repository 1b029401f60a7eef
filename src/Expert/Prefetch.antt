-- ===== src/Expert/Prefetch.antt =====
-- src/guanaco_steppeloader.cpp, prefetch_experts(int, const int*, int): classify the router's choice
-- against residency, and fault in what is missing. A null pointer or n <= 0 is the empty list. The
-- set of wanted ids is a list without duplicates, in the order of insertion.
pub mod Classify
pub mod Account
pub mod Cover
pub mod Resident
use Prim.Native.String.{String}
use text.Mathlib.Text.{◌==◌ as str_eq}
use guanaco.Base.{
  ℕ, zero, suc, Bool, true, false, ◌&&◌, ◌||◌, not, Option, none, some, List, [], ◌∷◌, ◌++◌,
  if◌then◌else◌, ltb, ◌==◌, ℤ, ◌==ℤ◌, index_of,
}
use guanaco.Base.Words.{sub64, inc64}
use guanaco.Madvise.{Kernel}
use guanaco.Expert.{ExpertTensor, Ledger, EvictRec, Experts, is_loaded, is_pinned, for_each}
use guanaco.Expert.Slices.{fault_in, touch}

-- kChurnWindow_
abbrev pub churn_window : ℕ
churn_window = 64

-- The first unused record of this slice in the window is marked.
unfoldable pub mark_churn : String → ℕ → ℕ → List EvictRec → Option (List EvictRec)
mark_churn name id clock [] = none
mark_churn name id clock (r ∷ rs) =
    if not r.used && str_eq r.tensor name && r.id == id && ltb (sub64 clock r.clock) churn_window
    then some (record r { used = true } ∷ rs)
    else elim (mark_churn name id clock rs) [ none ↦ none | some rs' ↦ some (r ∷ rs') ]

-- std::unordered_set::insert
unfoldable pub insert_id : ℕ → List ℕ → List ℕ
insert_id id [] = id ∷ []
insert_id id (x ∷ xs) = if x == id then x ∷ xs else x ∷ insert_id id xs

unfoldable pub note_miss : String → ℕ → Ledger → Ledger
unfolding mark_churn
note_miss name id s = elim (mark_churn name id s.eclock s.evict_log) [
  | none ↦ record s { disk_miss = inc64 s.disk_miss }
  | some log ↦ record s {
    disk_miss = inc64 s.disk_miss;
    evict_reread = inc64 s.evict_reread;
    evict_log = log;
  }
]

-- What the loop over the ids carries.
pub record Classified (F : Type 0) : Type 0 where
  pub tensor : ExpertTensor F
  pub ledger : Ledger
  pub want : List ℕ

module _ {F : Type 0} where
  -- The branches on a touched slice.
  unfoldable pub sort_out : ExpertTensor F → Ledger → ℕ → List ℕ → Classified F
  unfolding note_miss insert_id
  sort_out t s id want =
      if is_pinned t id
      then record { tensor = t; ledger = record s { pin_hits = inc64 s.pin_hits }; want = want }
      else if is_loaded t id
      then record { tensor = t; ledger = record s { warm_hits = inc64 s.warm_hits }; want = want }
      else record { tensor = t; ledger = note_miss t.name id s; want = insert_id id want }

  unfoldable pub classify_one : Classified F → ℤ → Classified F
  unfolding touch sort_out
  classify_one c z = elim (index_of z c.tensor.num_experts) [
    | none ↦ c
    | some id ↦ sort_out (touch c.tensor id c.ledger).0 (touch c.tensor id c.ledger).1 id c.want
  ]

  unfoldable pub classify : List ℤ → Classified F → Classified F
  unfolding classify_one
  classify [] c = c
  classify (z ∷ zs) c = classify zs (classify_one c z)

  -- for (int id : want) { … }
  unfoldable pub fault_all : Kernel → List ℕ → ExpertTensor F → Ledger → ExpertTensor F × Ledger
  unfolding fault_in
  fault_all k [] t s = (t, s)
  fault_all k (id ∷ ids) t s = fault_all k ids (fault_in k t id s).0 (fault_in k t id s).1

  unfoldable pub prefetch_tensor :
      Kernel → List ℤ → ExpertTensor F → Ledger → ExpertTensor F × Ledger
  unfolding classify fault_all
  prefetch_tensor k ids t s =
      let c = classify ids (record { tensor = t; ledger = s; want = [] }) in
      fault_all k c.want c.tensor c.ledger

  -- t.layer != layer || t.mmap_base == nullptr || t.per_expert_bytes == 0: skipped
  abbrev pub serves : ℤ → ExpertTensor F → Bool
  serves layer t =
      t.layer ==ℤ layer
      && elim t.mmap_base [ none ↦ false | some _ ↦ true ]
      && not (t.per_expert_bytes == 0)

  unfoldable pub prefetch_body :
      Kernel → ℤ → List ℤ → ExpertTensor F → Ledger → ExpertTensor F × Ledger
  unfolding prefetch_tensor
  prefetch_body k layer ids t s = if serves layer t then prefetch_tensor k ids t s else (t, s)

  unfoldable pub prefetch_all : Kernel → Experts F → ℤ → List ℤ → Experts F
  unfolding prefetch_body for_each
  prefetch_all k st layer ids =
      let (ts, s) = for_each (prefetch_body k layer ids) st.tensors st.ledger in
      record st { tensors = ts; ledger = s; prefetch_calls = inc64 st.prefetch_calls }

  unfoldable pub prefetch_experts : Kernel → Experts F → ℤ → List ℤ → Experts F
  unfolding prefetch_all
  prefetch_experts k st layer [] = st
  prefetch_experts k st layer (z ∷ zs) = if st.enabled then prefetch_all k st layer (z ∷ zs) else st
