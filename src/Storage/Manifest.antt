-- ===== src/Storage/Manifest.antt =====
-- src/guanaco_steppeloader.cpp, parse_gguf_manifest: the manifest of the tensors. What the gguf library
-- says of a shard is a parameter; the line on stderr is left out.
use Prim.Native.String.{String}
pub mod Agree
pub mod Genuine
pub mod Standalone
use guanaco.Base.{
  ℕ, zero, suc, ◌+◌, ◌*◌, ◌/◌, ◌%◌, ◌^◌, Bool, true, false, ◌&&◌, ◌||◌, not, Option, none, some,
  List, [], ◌∷◌, ◌++◌, if◌then◌else◌, ltb, ◌==◌, ℤ, pos, negsuc, ◌==ℤ◌, ltb_ℤ, length, map,
}
use guanaco.Base.Words.{add64}
use guanaco.Text.{as_int}
use guanaco.Storage.{ModelConfig, ManifestEntry, Storage}
use guanaco.Storage.Names.{Named, names_experts, classify_name, block_layer, type_of}

-- A tensor of a shard: gguf_get_tensor_name, _type with ggml_type_name, _offset, _size and _ne.
pub record GgufTensor : Type 0 where
  pub name : Option String
  pub type_name : String
  pub offset : ℕ
  pub byte_size : ℕ
  pub ne : Option (List ℕ)

pub record Gguf : Type 0 where
  pub data_offset : ℕ
  pub tensors : List GgufTensor

-- The last dimension over 1, with its place.
unfoldable pub last_over_one : ℕ → List ℕ → Option (ℕ × ℕ)
last_over_one d [] = none
last_over_one d (n ∷ ns) = elim (last_over_one (suc d) ns) [
  | some later ↦ some later
  | none ↦ if ltb 1 n then some (d, n) else none
]

-- if (ne) …
abbrev last_dim : Option (List ℕ) → Option (ℕ × ℕ)
last_dim none = none
last_dim (some ns) = last_over_one 0 ns

-- num_experts_in_tensor: that dimension, as an int, or 1
unfoldable pub trailing_dim : Option (List ℕ) → ℤ
unfolding last_over_one
trailing_dim ne = elim (last_dim ne) [ none ↦ pos 1 | some (d, n) ↦ as_int (n % 2 ^ 32) ]

-- tensor_n_dims
unfoldable pub n_dims : Option (List ℕ) → ℕ
unfolding last_over_one
n_dims ne = elim (last_dim ne) [ none ↦ 0 | some (d, n) ↦ suc d ]

-- num_experts_in_tensor > 1 && model_experts > 1 && they differ: skipped
unfoldable pub is_mistaken : ℤ → ℤ → Bool
is_mistaken n model_experts =
    ltb_ℤ (pos 1) n && ltb_ℤ (pos 1) model_experts && not (n ==ℤ model_experts)

-- layer_idx >= 0 || expert_idx >= 0 || num_experts_in_tensor > 1
unfoldable pub is_listed : ℤ → ℤ → ℤ → Bool
is_listed layer expert n =
    not (ltb_ℤ layer (pos 0)) || not (ltb_ℤ expert (pos 0)) || ltb_ℤ (pos 1) n

-- byte_size / num_experts_in_tensor, for more than one
unfoldable pub slice_size : ℕ → ℤ → ℕ
slice_size byte_size (negsuc n) = 0
slice_size byte_size (pos n) = if ltb 1 n then byte_size / n else 0

abbrev dims_of : Option (List ℕ) → List ℕ
dims_of none = 1 ∷ 1 ∷ 1 ∷ 1 ∷ []
dims_of (some ns) = ns

-- The entry of a tensor with a name.
unfoldable pub entry_of : Bool → ℕ → GgufTensor → String → ManifestEntry
entry_of dense_enabled data_offset t name =
    let named = classify_name name in
    record {
      tensor_name = name;
      file_offset = add64 data_offset t.offset;
      byte_size = t.byte_size;
      layer_idx = block_layer dense_enabled name named.layer_idx;
      expert_idx = named.expert_idx;
      tensor_type = named.tensor_type;
      quantization_type = t.type_name;
      num_experts_in_tensor = trailing_dim t.ne;
      expert_slice_size = slice_size t.byte_size (trailing_dim t.ne);
      tensor_dims = dims_of t.ne;
      tensor_n_dims = n_dims t.ne;
    }

-- The round of the loop: the entry, where there is one.
unfoldable pub manifest_entry : Bool → ℤ → ℕ → GgufTensor → Option ManifestEntry
manifest_entry dense_enabled model_experts data_offset t = elim t.name [
  | none ↦ none
  | some name ↦
      let e = entry_of dense_enabled data_offset t name in
      if is_mistaken e.num_experts_in_tensor model_experts
      then none
      else if is_listed e.layer_idx e.expert_idx e.num_experts_in_tensor
      then some e
      else none
]

-- layer_experts_[layer_idx].push_back(entry)
unfoldable pub push_layer :
    ManifestEntry → List (ℤ × List ManifestEntry) → List (ℤ × List ManifestEntry)
push_layer e [] = (e.layer_idx, e ∷ []) ∷ []
push_layer e ((l, es) ∷ rest) =
    if l ==ℤ e.layer_idx then (l, es ++ e ∷ []) ∷ rest else (l, es) ∷ push_layer e rest

unfoldable pub push_entry : Storage → ManifestEntry → Storage
unfolding push_layer
push_entry s e = record s {
  manifest = s.manifest ++ e ∷ [];
  layer_experts = if s.enabled then push_layer e s.layer_experts else s.layer_experts;
}

-- The loop over a shard's tensors.
unfoldable pub scan_tensors : ℕ → List GgufTensor → Storage → Storage
unfolding manifest_entry push_entry
scan_tensors data_offset [] s = s
scan_tensors data_offset (t ∷ ts) s =
    scan_tensors data_offset ts
      (elim (manifest_entry s.dense_enabled s.model_config.num_experts data_offset t) [
        | none ↦ s
        | some e ↦ push_entry s e
      ])

-- The loop over the shards; none where the metadata cannot be read.
unfoldable pub scan_shards : List (Option Gguf) → Storage → Storage
unfolding scan_tensors
scan_shards [] s = s
scan_shards (none ∷ gs) s = scan_shards gs s
scan_shards (some g ∷ gs) s = scan_shards gs (scan_tensors g.data_offset g.tensors s)

-- It always answers true. `read` is read_gguf_metadata_ctx on the path of a shard.
unfoldable pub parse_gguf_manifest : (String → Option Gguf) → List String → Storage → Storage
parse_gguf_manifest read shards s =
    if not s.enabled && not s.dense_enabled then s else scan_shards (map read shards) s
