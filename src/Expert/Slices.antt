-- ===== src/Expert/Slices.antt =====
-- src/guanaco_steppeloader.cpp: the steps that several of the loader's loops share (fault a slice in,
-- recency, lookup by name), and registration of a tensor.
use Prim.Native.String.{String}
use text.Mathlib.Text.{◌==◌ as str_eq}
use guanaco.Base.{
  ℕ, ◌/◌, ◌%◌, Bool, true, false, ◌&&◌, ◌||◌, not, Option, none, some, List, [], ◌∷◌, ◌++◌,
  if◌then◌else◌, leb, ◌==◌, ℤ, ltb_ℤ, ◌==ℤ◌, get_or, set, replicate,
}
use guanaco.Base.Words.{add64, inc64, mul64}
use guanaco.Madvise.{Kernel, willneed, madvise_range}
use guanaco.Expert.{Floats, ExpertTensor, Config, Ledger, Experts, load, slice_addr}

-- ++v[i]
unfoldable pub bump : List ℕ → ℕ → List ℕ
bump v i = set v i (inc64 (get_or v i 0))

module _ {F : Type 0} where
  -- WILLNEED the slice, loaded[id] = true, expert_resident_bytes_ += per_expert_bytes
  unfoldable pub fault_in : Kernel → ExpertTensor F → ℕ → Ledger → ExpertTensor F × Ledger
  fault_in k t id s = (
    load t id,
    record s {
      expert_resident_bytes = add64 s.expert_resident_bytes t.per_expert_bytes;
      advice = (madvise_range k (slice_addr t id) t.per_expert_bytes willneed s.advice).0;
    },
  )

  -- touch, for an id in range
  unfoldable pub touch : ExpertTensor F → ℕ → Ledger → ExpertTensor F × Ledger
  touch t id s = (
    record t { last_used = set t.last_used id (inc64 s.eclock) },
    record s { eclock = inc64 s.eclock },
  )

  unfoldable pub find_tensor : String → List (ExpertTensor F) → Option (ExpertTensor F)
  find_tensor name [] = none
  find_tensor name (t ∷ ts) = if str_eq t.name name then some t else find_tensor name ts

  unfoldable pub get_expert_tensor_data : Experts F → String → Option ℕ
  unfolding find_tensor
  get_expert_tensor_data st name = elim (find_tensor name st.tensors) [
    | none ↦ none
    | some t ↦ t.mmap_base
  ]

-- std::find on moe_layers_
unfoldable pub has_layer : ℤ → List ℤ → Bool
has_layer l [] = false
has_layer l (x ∷ xs) = x ==ℤ l || has_layer l xs

-- insert at std::lower_bound
unfoldable pub insert_layer : ℤ → List ℤ → List ℤ
insert_layer l [] = l ∷ []
insert_layer l (x ∷ xs) = if ltb_ℤ x l then x ∷ insert_layer l xs else l ∷ x ∷ xs

unfoldable pub track_layer : ℤ → List ℤ → List ℤ
unfolding has_layer insert_layer
track_layer l xs = if has_layer l xs then xs else insert_layer l xs

module _ {F : Type 0} (fl : Floats F) where
  unfoldable pub fresh_tensor : Config F → String → ℤ → ℕ → ℕ → ℕ → Option ℕ → ExpertTensor F
  fresh_tensor c name layer file_offset byte_size num_experts mmap_base = record {
    name = name;
    layer = layer;
    file_offset = file_offset;
    byte_size = byte_size;
    num_experts = num_experts;
    per_expert_bytes = byte_size / num_experts;
    mmap_base = mmap_base;
    loaded = replicate num_experts true;
    total_hits = replicate num_experts 0;
    window_hits = replicate num_experts fl.zero_f;
    pinned = replicate num_experts false;
    last_used = replicate num_experts 0;
    trans = replicate (mul64 num_experts num_experts) 0;
    budget = c.max_active_experts;
  }

  -- The three early returns.
  unfoldable pub accepts_tensor : Experts F → String → ℕ → ℕ → Bool
  unfolding find_tensor
  accepts_tensor st name byte_size num_experts =
      not (not st.enabled || not st.fd_open || byte_size == 0 || leb num_experts 1)
      && byte_size % num_experts == 0
      && elim (find_tensor name st.tensors) [ none ↦ true | some _ ↦ false ]

  unfoldable pub register_expert_tensor : Experts F → String → ℤ → ℕ → ℕ → ℕ → Option ℕ → Experts F
  unfolding fresh_tensor accepts_tensor track_layer
  register_expert_tensor st name layer file_offset byte_size num_experts mmap_base =
      if accepts_tensor st name byte_size num_experts
      then (record st {
        tensors =
            st.tensors
            ++ fresh_tensor st.config name layer file_offset byte_size num_experts mmap_base ∷ [];
        moe_layers = track_layer layer st.moe_layers;
        ledger = record st.ledger {
          expert_resident_bytes = add64 st.ledger.expert_resident_bytes byte_size;
        };
      })
      else st
