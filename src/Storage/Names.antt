-- ===== src/Storage/Names.antt =====
-- src/guanaco_steppeloader.cpp, parse_gguf_manifest: what it reads off the name of a tensor.
use Prim.Native.Char.{Char, code}
use Prim.Native.String.{String, [], ◌∷◌}
pub mod Layers
use guanaco.Base.{
  ℕ, Bool, true, false, ◌&&◌, ◌||◌, not, Option, none, some, if◌then◌else◌, ◌==◌, ℤ, pos, negsuc,
}
use guanaco.Text.{begins, strstr, contains, advance, int_at, strtol, to_int}

-- The substrings of an expert tensor's name.
unfoldable pub names_experts : String → Bool
unfolding contains
names_experts name =
    contains name "ffn_up_exps"
    || contains name "ffn_down_exps"
    || contains name "ffn_gate_exps"
    || contains name "ffn_gate_up_exps"
    || contains name "exps.weight"
    || contains name ".experts."
    || contains name ".exps."

-- strstr(name, first), or else strstr(name, second)
unfoldable pub marker : String → String → String → Option String
unfolding strstr
marker name first second = elim (strstr name first) [
  | some at ↦ some at
  | none ↦ strstr name second
]

-- strtol(layer_marker + 4, &endptr, 10), or -1
unfoldable pub layer_of : String → ℤ
unfolding marker advance int_at
layer_of name = elim (marker name "blk." "layers.") [
  | none ↦ negsuc 0
  | some at ↦ int_at (advance 4 at)
]

-- strtol behind the marker, or -1
unfoldable pub expert_of : String → ℤ
unfolding marker advance int_at
expert_of name = elim (marker name ".experts." "exps.") [
  | none ↦ negsuc 0
  | some at ↦ elim (strstr at ".experts.") [
    | none ↦ int_at (advance 5 at)
    | some _ ↦ int_at (advance 9 at)
  ]
]

-- A gate's type is 2, any other's is 0.
unfoldable pub type_of : String → ℤ
unfolding contains
type_of name = if contains name "gate" then pos 2 else pos 0

-- layer_idx, expert_idx and tensor_type
pub record Named : Type 0 where
  pub layer_idx : ℤ
  pub expert_idx : ℤ
  pub tensor_type : ℤ

-- The block on the expert names; -1 where it is not entered.
unfoldable pub classify_name : String → Named
unfolding names_experts layer_of expert_of type_of
classify_name name =
    if names_experts name
    then record {
      layer_idx = layer_of name;
      expert_idx = expert_of name;
      tensor_type = type_of name;
    }
    else record { layer_idx = negsuc 0; expert_idx = negsuc 0; tensor_type = negsuc 0 }

-- *endp == '.'
abbrev stops_at_dot : String → Bool
stops_at_dot [] = false
stops_at_dot (c ∷ s) = code c == 46

-- The block for layer windows: the layer of a block's weight that is no norm.
unfoldable pub block_layer : Bool → String → ℤ → ℤ
unfolding begins strtol contains advance
block_layer dense_enabled name layer =
    if dense_enabled && begins "blk." name
    then elim (strtol (advance 4 name)) [
      | none ↦ layer
      | some (l, rest) ↦
          if stops_at_dot rest && contains name ".weight" && not (contains name "norm")
          then to_int l
          else layer
    ]
    else layer
