-- ===== src/Storage/Manifest/Standalone.antt =====
-- src/guanaco_manifest.cpp, parse_gguf_expert_manifest and lookup_expert: the manifest that is read
-- without a loader. It has its own copy of the code that reads a tensor's name.
use Prim.Native.String.{String}
use text.Mathlib.Text.{◌==◌ as str_eq}
use guanaco.Base.{
  ℕ, ◌&&◌, ◌||◌, not, Bool, Option, none, some, List, [], ◌∷◌, if◌then◌else◌, ℤ, pos, negsuc, ltb_ℤ,
}
use guanaco.Base.Words.{add64}
use guanaco.Text.{strstr, contains, advance, int_at}
use guanaco.Storage.{ManifestEntry}
use guanaco.Storage.Manifest.{Gguf, GgufTensor}

-- The substrings that make is_expert_tensor true.
unfoldable pub is_expert_tensor : String → Bool
unfolding contains
is_expert_tensor name =
    contains name "ffn_up_exps"
    || contains name "ffn_down_exps"
    || contains name "ffn_gate_exps"
    || contains name "ffn_gate_up_exps"
    || contains name "exps.weight"
    || contains name ".experts."
    || contains name ".exps."

-- layer_idx of an expert tensor: the number 4 behind "blk.", or else behind "layers."
unfoldable pub standalone_layer : String → ℤ
unfolding strstr advance int_at
standalone_layer name = elim (strstr name "blk.") [
  | some at ↦ int_at (advance 4 at)
  | none ↦ elim (strstr name "layers.") [ some at ↦ int_at (advance 4 at) | none ↦ negsuc 0 ]
]

-- The number behind expert_marker.
unfoldable pub marked_expert : String → ℤ
unfolding strstr advance int_at
marked_expert at = elim (strstr at ".experts.") [
  | some _ ↦ int_at (advance 9 at)
  | none ↦ int_at (advance 5 at)
]

-- expert_idx of an expert tensor
unfoldable pub standalone_expert : String → ℤ
unfolding strstr marked_expert
standalone_expert name = elim (strstr name ".experts.") [
  | some at ↦ marked_expert at
  | none ↦ elim (strstr name "exps.") [ some at ↦ marked_expert at | none ↦ negsuc 0 ]
]

-- The entry of an expert tensor with a layer. The name has been moved from when it is searched for
-- "gate": it is taken to be empty then.
unfoldable pub expert_entry : ℕ → GgufTensor → Option ManifestEntry
expert_entry data_offset t = elim t.name [
  | none ↦ none
  | some name ↦
      if is_expert_tensor name && not (ltb_ℤ (standalone_layer name) (pos 0))
      then some (record {
        tensor_name = name;
        file_offset = add64 data_offset t.offset;
        byte_size = t.byte_size;
        layer_idx = standalone_layer name;
        expert_idx = standalone_expert name;
        tensor_type = if contains "" "gate" then pos 2 else pos 0;
        quantization_type = t.type_name;
        num_experts_in_tensor = pos 1;
        expert_slice_size = 0;
        tensor_dims = 1 ∷ 1 ∷ 1 ∷ 1 ∷ [];
        tensor_n_dims = 1;
      })
      else none
]

unfoldable pub expert_entries : ℕ → List GgufTensor → List ManifestEntry
unfolding expert_entry
expert_entries data_offset [] = []
expert_entries data_offset (t ∷ ts) =
    let rest = expert_entries data_offset ts in
    elim (expert_entry data_offset t) [ none ↦ rest | some e ↦ e ∷ rest ]

-- None: the file cannot be parsed.
unfoldable pub parse_gguf_expert_manifest : Option Gguf → List ManifestEntry
unfolding expert_entries
parse_gguf_expert_manifest none = []
parse_gguf_expert_manifest (some g) = expert_entries g.data_offset g.tensors

-- The first entry of that name.
unfoldable pub lookup_expert : String → List ManifestEntry → Option ManifestEntry
lookup_expert name [] = none
lookup_expert name (e ∷ es) = if str_eq e.tensor_name name then some e else lookup_expert name es
