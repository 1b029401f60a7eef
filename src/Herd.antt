-- ===== src/Herd.antt =====
-- src/guanaco_herdcache.cpp: the cache of expert buffers, a map with an LRU list. active_experts_ is
-- the list of its pairs; a buffer is a value, since the pager only hands it on. An expert's key is its
-- layer and its id.
pub mod Keys
pub mod Lru
pub mod Tidy
pub mod Shows
pub mod Refine
pub mod Room
use guanaco.Base.{
  ℕ, zero, suc, Bool, true, false, ◌&&◌, not, Option, none, some, List, [], ◌∷◌, ◌++◌,
  if◌then◌else◌, leb, ◌==◌, ℤ, ◌==ℤ◌, length,
}
use guanaco.Madvise.{Advice, dontneed}

pub record ExpertKey : Type 0 where
  pub layer_idx : ℤ
  pub expert_idx : ℤ

-- data is its address and size.
pub record ExpertTensorBuffer : Type 0 where
  pub expert_id : ℤ
  pub layer : ℤ
  pub data_addr : ℕ
  pub data_size : ℕ
  pub is_ready : Bool

pub record HerdCache : Type 0 where
  pub max_active_experts : ℕ
  pub use_madvise : Bool
  pub active_experts : List (ExpertKey × ExpertTensorBuffer)
  pub lru_list : List ExpertKey
  -- The madvise() calls, the newest first.
  pub advised : List (ℕ × ℕ × Advice)

-- operator==
unfoldable pub key_eq : ExpertKey → ExpertKey → Bool
key_eq a b = a.layer_idx ==ℤ b.layer_idx && a.expert_idx ==ℤ b.expert_idx

unfoldable pub find_active :
    ExpertKey → List (ExpertKey × ExpertTensorBuffer) → Option ExpertTensorBuffer
unfolding key_eq
find_active key [] = none
find_active key ((k, b) ∷ rest) = if key_eq k key then some b else find_active key rest

-- active_experts_[key] = buf
unfoldable pub put_active :
    ExpertKey
    → ExpertTensorBuffer
    → List (ExpertKey × ExpertTensorBuffer)
    → List (ExpertKey × ExpertTensorBuffer)
unfolding key_eq
put_active key buf [] = (key, buf) ∷ []
put_active key buf ((k, b) ∷ rest) =
    if key_eq k key then (k, buf) ∷ rest else (k, b) ∷ put_active key buf rest

unfoldable pub erase_active :
    ExpertKey → List (ExpertKey × ExpertTensorBuffer) → List (ExpertKey × ExpertTensorBuffer)
unfolding key_eq
erase_active key [] = []
erase_active key ((k, b) ∷ rest) = if key_eq k key then rest else (k, b) ∷ erase_active key rest

-- Erasing the first occurrence, if there is one.
unfoldable pub erase_lru : ExpertKey → List ExpertKey → List ExpertKey
unfolding key_eq
erase_lru key [] = []
erase_lru key (k ∷ ks) = if key_eq k key then ks else k ∷ erase_lru key ks

unfoldable pub update_lru : ExpertKey → HerdCache → HerdCache
unfolding erase_lru
update_lru key c = record c { lru_list = erase_lru key c.lru_list ++ key ∷ [] }

-- if (config_.use_madvise && it->second && !it->second->data.empty()) madvise(…)
unfoldable pub release : ExpertTensorBuffer → HerdCache → HerdCache
release b c =
    if c.use_madvise && not (b.data_size == 0)
    then record c { advised = (b.data_addr, b.data_size, dontneed) ∷ c.advised }
    else c

-- Erasing the map's entry.
unfoldable pub drop_active : ExpertKey → HerdCache → HerdCache
unfolding find_active release erase_active
drop_active key c = elim (find_active key c.active_experts) [
  | none ↦ c
  | some b ↦ record (release b c) { active_experts = erase_active key c.active_experts }
]

unfoldable pub evict_lru : HerdCache → HerdCache
unfolding drop_active
evict_lru c = elim c.lru_list [
  | [] ↦ c
  | key ∷ keys ↦ drop_active key (record c { lru_list = keys })
]

-- The loop of evict_if_needed: every round takes the head off lru_list_, so that its length is fuel
-- enough.
unfoldable pub evict_loop : ℕ → HerdCache → HerdCache
unfolding evict_lru
evict_loop zero c = c
evict_loop (suc fuel) c =
    elim (leb c.max_active_experts (length c.active_experts) && not (length c.lru_list == 0)) [
      | true ↦ evict_loop fuel (evict_lru c)
      | false ↦ c
    ]

unfoldable pub evict_if_needed : HerdCache → HerdCache
unfolding evict_loop
evict_if_needed c = evict_loop (length c.lru_list) c

unfoldable pub fresh_buffer : ExpertKey → ExpertTensorBuffer
fresh_buffer key = record {
  expert_id = key.expert_idx;
  layer = key.layer_idx;
  data_addr = 0;
  data_size = 0;
  is_ready = false;
}

unfoldable pub allocate_slot : ExpertKey → HerdCache → HerdCache
unfolding evict_if_needed put_active update_lru fresh_buffer
allocate_slot key c =
    let room =
      if leb c.max_active_experts (length c.active_experts) then evict_if_needed c else c in
    update_lru key
      (record room { active_experts = put_active key (fresh_buffer key) room.active_experts })

unfoldable pub get_buffer : ExpertKey → HerdCache → HerdCache × Option ExpertTensorBuffer
unfolding find_active update_lru
get_buffer key c = elim (find_active key c.active_experts) [
  | none ↦ (c, none)
  | some b ↦ (update_lru key c, some b)
]

unfoldable pub is_pinned : ExpertKey → HerdCache → Bool
unfolding find_active
is_pinned key c = elim (find_active key c.active_experts) [ none ↦ false | some b ↦ true ]

unfoldable pub pin_expert : ExpertKey → HerdCache → HerdCache
unfolding find_active allocate_slot update_lru
pin_expert key c = elim (find_active key c.active_experts) [
  | none ↦ allocate_slot key c
  | some b ↦ update_lru key c
]

unfoldable pub unpin_expert : ExpertKey → HerdCache → HerdCache
unfolding find_active release erase_active erase_lru
unpin_expert key c = elim (find_active key c.active_experts) [
  | none ↦ c
  | some b ↦ record (release b c) {
    active_experts = erase_active key c.active_experts;
    lru_list = erase_lru key c.lru_list;
  }
]

-- include/guanaco/guanaco.h, set_max_active
unfoldable pub set_max_active : ℕ → HerdCache → HerdCache
set_max_active max c = record c { max_active_experts = max }
