-- ===== src/Storage/Kv/Keys.antt =====
-- src/guanaco_steppeloader.cpp, parse_gguf_metadata: the tests of a key, and which exclude which.
use Prim.Native.String.{String}
use text.Mathlib.Text.{◌==◌ as str_eq}
use text.Mathlib.TextEquality.{eq_iff}
use guanaco.Base.{◌≡◌, refl, ap, ◌∙◌, Bool, true, false, ◌||◌, arith}
use guanaco.Text.{contains, begins}
use guanaco.Text.Scan.{contains-tail}
use guanaco.Storage.Kv.{is_expert_key, is_top_k_key, is_layers_key, is_hidden_key}

-- The keys of the experts per token, of the layers and of the hidden size.
unfoldable pub ranks_experts : String → Bool
ranks_experts key =
    contains key "expert_used_count"
    || str_eq key "moe.num_experts_per_tok"
    || str_eq key "num_experts_per_tok"
    || str_eq key "top_k"

unfoldable pub counts_layers : String → Bool
counts_layers key = contains key "block_count" || str_eq key "num_hidden_layers"

unfoldable pub sizes_hidden : String → Bool
sizes_hidden key = contains key "embedding_length" || str_eq key "hidden_size"

-- A key that is a literal has what the literal has.
at_literal :
    (P : String → Bool) (b : Bool) (key lit : String)
    → P lit ≡ b
    → str_eq key lit ≡ true
    → P key ≡ b
at_literal P b key lit h e = ap P ((eq_iff key lit).0 e) ∙ h

literal-contains :
    (key lit p : String) → contains lit p ≡ true → str_eq key lit ≡ true → contains key p ≡ true
literal-contains key lit p = at_literal (λ k. contains k p) true key lit

used_in_llama : contains "llama.expert_used_count" "expert_used_count" ≡ true
unfolding contains begins
used_in_llama = refl

used_in_plain : contains "expert_used_count" "expert_used_count" ≡ true
unfolding contains begins
used_in_plain = refl

used_undotted :
    (key : String)
    → contains key ".expert_used_count" ≡ true
    → contains key "expert_used_count" ≡ true
used_undotted key h = contains-tail _ key "expert_used_count" h

blocks_in_llama : contains "llama.block_count" "block_count" ≡ true
unfolding contains begins
blocks_in_llama = refl

blocks_in_plain : contains "block_count" "block_count" ≡ true
unfolding contains begins
blocks_in_plain = refl

blocks_undotted :
    (key : String) → contains key ".block_count" ≡ true → contains key "block_count" ≡ true
blocks_undotted key h = contains-tail _ key "block_count" h

width_in_llama : contains "llama.embedding_length" "embedding_length" ≡ true
unfolding contains begins
width_in_llama = refl

width_in_plain : contains "embedding_length" "embedding_length" ≡ true
unfolding contains begins
width_in_plain = refl

width_undotted :
    (key : String)
    → contains key ".embedding_length" ≡ true
    → contains key "embedding_length" ≡ true
width_undotted key h = contains-tail _ key "embedding_length" h

pub top_k-ranks : (key : String) → is_top_k_key key ≡ true → ranks_experts key ≡ true
unfolding is_top_k_key ranks_experts
top_k-ranks key h = ground (
  arith,
  literal-contains key "llama.expert_used_count" "expert_used_count" used_in_llama,
  literal-contains key "expert_used_count" "expert_used_count" used_in_plain,
  used_undotted key,
)

pub layers-counts : (key : String) → is_layers_key key ≡ true → counts_layers key ≡ true
unfolding is_layers_key counts_layers
layers-counts key h = ground (
  arith,
  literal-contains key "llama.block_count" "block_count" blocks_in_llama,
  literal-contains key "block_count" "block_count" blocks_in_plain,
  blocks_undotted key,
)

pub hidden-sizes : (key : String) → is_hidden_key key ≡ true → sizes_hidden key ≡ true
unfolding is_hidden_key sizes_hidden
hidden-sizes key h = ground (
  arith,
  literal-contains key "llama.embedding_length" "embedding_length" width_in_llama,
  literal-contains key "embedding_length" "embedding_length" width_in_plain,
  width_undotted key,
)

moe_top_k :
    (is_expert_key "moe.num_experts_per_tok" ≡ false)
    × (is_top_k_key "moe.num_experts_per_tok" ≡ true)
unfolding is_expert_key is_top_k_key contains begins
moe_top_k = (refl, refl)

plain_top_k :
    (is_expert_key "num_experts_per_tok" ≡ false) × (is_top_k_key "num_experts_per_tok" ≡ true)
unfolding is_expert_key is_top_k_key contains begins
plain_top_k = (refl, refl)

bare_top_k : (is_expert_key "top_k" ≡ false) × (is_top_k_key "top_k" ≡ true)
unfolding is_expert_key is_top_k_key contains begins
bare_top_k = (refl, refl)

plain_layers :
    (is_expert_key "num_hidden_layers" ≡ false)
    × (is_top_k_key "num_hidden_layers" ≡ false)
    × (is_layers_key "num_hidden_layers" ≡ true)
unfolding is_expert_key is_top_k_key is_layers_key is_hidden_key contains begins
plain_layers = (refl, refl, refl)

plain_hidden :
    (is_expert_key "hidden_size" ≡ false)
    × (is_top_k_key "hidden_size" ≡ false)
    × (is_layers_key "hidden_size" ≡ false)
    × (is_hidden_key "hidden_size" ≡ true)
unfolding is_expert_key is_top_k_key is_layers_key is_hidden_key contains begins
plain_hidden = (refl, refl, refl, refl)

plain_architecture :
    (is_expert_key "general.architecture" ≡ false)
    × (is_top_k_key "general.architecture" ≡ false)
    × (is_layers_key "general.architecture" ≡ false)
    × (is_hidden_key "general.architecture" ≡ false)
unfolding is_expert_key is_top_k_key is_layers_key is_hidden_key contains begins
plain_architecture = (refl, refl, refl, refl)

pub ranks_only :
    (key : String)
    → ranks_experts key ≡ true
    → contains key "expert_used_count" ≡ false
    → (is_expert_key key ≡ false) × (is_top_k_key key ≡ true)
unfolding ranks_experts
ranks_only key h none_ = ground (
  arith,
  at_literal is_expert_key false key "moe.num_experts_per_tok" moe_top_k.0,
  at_literal is_top_k_key true key "moe.num_experts_per_tok" moe_top_k.1,
  at_literal is_expert_key false key "num_experts_per_tok" plain_top_k.0,
  at_literal is_top_k_key true key "num_experts_per_tok" plain_top_k.1,
  at_literal is_expert_key false key "top_k" bare_top_k.0,
  at_literal is_top_k_key true key "top_k" bare_top_k.1,
)

pub ranks_only_also :
    (key : String) → contains key "expert_used_count" ≡ true → ranks_experts key ≡ true
unfolding ranks_experts
ranks_only_also key h = ground arith

pub counts_only :
    (key : String)
    → counts_layers key ≡ true
    → contains key "block_count" ≡ false
    → (is_expert_key key ≡ false) × (is_top_k_key key ≡ false) × (is_layers_key key ≡ true)
unfolding counts_layers
counts_only key h none_ = ground (
  arith,
  at_literal is_expert_key false key "num_hidden_layers" plain_layers.0,
  at_literal is_top_k_key false key "num_hidden_layers" plain_layers.1,
  at_literal is_layers_key true key "num_hidden_layers" plain_layers.2,
)

pub counts_only_also : (key : String) → contains key "block_count" ≡ true → counts_layers key ≡ true
unfolding counts_layers
counts_only_also key h = ground arith

pub sizes_only :
    (key : String)
    → sizes_hidden key ≡ true
    → contains key "embedding_length" ≡ false
    → (is_expert_key key ≡ false)
      × (is_top_k_key key ≡ false)
      × (is_layers_key key ≡ false)
      × (is_hidden_key key ≡ true)
unfolding sizes_hidden
sizes_only key h none_ = ground (
  arith,
  at_literal is_expert_key false key "hidden_size" plain_hidden.0,
  at_literal is_top_k_key false key "hidden_size" plain_hidden.1,
  at_literal is_layers_key false key "hidden_size" plain_hidden.2,
  at_literal is_hidden_key true key "hidden_size" plain_hidden.3,
)

pub sizes_only_also :
    (key : String) → contains key "embedding_length" ≡ true → sizes_hidden key ≡ true
unfolding sizes_hidden
sizes_only_also key h = ground arith

pub architecture_only :
    (key : String)
    → str_eq key "general.architecture" ≡ true
    → (is_expert_key key ≡ false)
      × (is_top_k_key key ≡ false)
      × (is_layers_key key ≡ false)
      × (is_hidden_key key ≡ false)
architecture_only key h = (
  at_literal is_expert_key false key "general.architecture" plain_architecture.0 h,
  at_literal is_top_k_key false key "general.architecture" plain_architecture.1 h,
  at_literal is_layers_key false key "general.architecture" plain_architecture.2 h,
  at_literal is_hidden_key false key "general.architecture" plain_architecture.3 h,
)
