-- ===== src/Expert.antt =====
-- include/guanaco/guanaco.h, the expert half of SteppeLoader: a fused expert tensor, the loader's
-- configuration, and the members that expert paging reads and writes.
--
-- The parallel vectors of ExpertTensor are lists; the map from names to tensors is the list of its
-- values, in the order of the iteration. A pointer to a tensor is its name in the eviction log, and
-- its place in the list in the ceiling's sort. `int` counts that the source never makes negative are
-- numbers; layers and router ids are integers. float is a type with its operations, a parameter.
use Prim.Native.String.{String}
pub mod Books
pub mod Evict
pub mod Slices
pub mod Prefetch
pub mod Budgets
pub mod Ceiling
pub mod Pin
pub mod Routing
pub mod Pilot
pub mod Imatrix
pub mod Invariant
pub mod Calls
pub mod Advise
use guanaco.Base.{
  ℕ, Bool, List, [], ◌∷◌, Option, none, some, ℤ, get_or, set, false, true, ltb, if◌then◌else◌,
}
use guanaco.Base.Words.{add64, mul64}
use guanaco.Madvise.{AdviceLog}

-- The float operations that the loader uses, with its constants kHitDecay_ and kHotProtect_.
pub record Floats (F : Type 0) : Type 0 where
  pub zero_f : F
  pub one : F
  pub hit_decay : F
  pub hot_protect : F
  pub add_f : F → F → F
  pub mul_f : F → F → F
  pub gt : F → F → Bool
  pub le : F → F → Bool
  -- (uint64_t)(pilot_mass * (double) total)
  pub mass_of : F → ℕ → ℕ

pub record ExpertTensor (F : Type 0) : Type 0 where
  pub name : String
  pub layer : ℤ
  pub file_offset : ℕ
  pub byte_size : ℕ
  pub num_experts : ℕ
  pub per_expert_bytes : ℕ
  pub mmap_base : Option ℕ
  pub loaded : List Bool
  pub total_hits : List ℕ
  pub window_hits : List F
  pub pinned : List Bool
  pub last_used : List ℕ
  pub trans : List ℕ
  pub budget : ℕ

pub record EvictRec : Type 0 where
  pub tensor : String
  pub id : ℕ
  pub clock : ℕ
  pub used : Bool

-- The fields of SteppeLoaderConfig that expert paging reads.
pub record Config (F : Type 0) : Type 0 where
  pub max_active_experts : ℕ
  pub use_pilot : Bool
  pub pilot_mass : F
  pub use_imatrix : Bool

-- The members that the loops over the tensors count in.
pub record Ledger : Type 0 where
  pub eclock : ℕ
  pub evictions : ℕ
  pub evict_hot : ℕ
  pub evict_reread : ℕ
  pub evict_log : List EvictRec
  pub expert_resident_bytes : ℕ
  pub pin_hits : ℕ
  pub warm_hits : ℕ
  pub disk_miss : ℕ
  pub pinned_total : ℕ
  pub pinned_current : ℕ
  pub advice : AdviceLog

pub record Experts (F : Type 0) : Type 0 where
  pub config : Config F
  pub enabled : Bool
  pub fd_open : Bool
  pub tensors : List (ExpertTensor F)
  pub moe_layers : List ℤ
  pub ledger : Ledger
  pub expert_budget_bytes : ℕ
  pub routing_records : ℕ
  pub prefetch_calls : ℕ
  pub pilot_calls : ℕ
  pub pilot_slice_reads : ℕ
  pub pilot_from_layer : ℤ
  pub pilot_from_ids : List ℤ
  pub imatrix_seeded : Bool
  pub imatrix_loaded : Bool

module _ {F : Type 0} where
  abbrev pub is_loaded : ExpertTensor F → ℕ → Bool
  is_loaded t i = get_or t.loaded i false

  abbrev pub is_pinned : ExpertTensor F → ℕ → Bool
  is_pinned t i = get_or t.pinned i false

  abbrev pub recency : ExpertTensor F → ℕ → ℕ
  recency t i = get_or t.last_used i 0

-- for (auto& kv : map) body(kv.second), where the body also changes the loader's members.
unfoldable pub for_each {ℓ κ} :
    {T : Type ℓ} {S : Type κ} → (T → S → T × S) → List T → S → List T × S
for_each f [] s = ([], s)
for_each f (t ∷ ts) s = let (t', s') = f t s in let (ts', s'') = for_each f ts s' in (t' ∷ ts', s'')

module _ {F : Type 0} where
  -- static_cast<char*>(mmap_base) + (size_t) id * per_expert_bytes
  abbrev pub slice_addr : ExpertTensor F → ℕ → Option ℕ
  slice_addr t id = elim t.mmap_base [
    | none ↦ none
    | some base ↦ some (add64 base (mul64 id t.per_expert_bytes))
  ]

  -- t.budget > 0 ? t.budget : max_active_experts
  abbrev pub budget_of : Config F → ExpertTensor F → ℕ
  budget_of c t = if ltb 0 t.budget then t.budget else c.max_active_experts

  -- loaded[id] = false
  abbrev pub unload : ExpertTensor F → ℕ → ExpertTensor F
  unload t id = record t { loaded = set t.loaded id false }

  -- loaded[id] = true
  abbrev pub load : ExpertTensor F → ℕ → ExpertTensor F
  load t id = record t { loaded = set t.loaded id true }
