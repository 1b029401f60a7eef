-- ===== src/Storage/Kv.antt =====
-- src/guanaco_steppeloader.cpp, parse_gguf_metadata: the model's configuration from the key-value
-- pairs of its file, and the paging that it turns on. The lines on stderr are left out.
use Prim.Native.String.{String}
use text.Mathlib.Text.{◌==◌ as str_eq}
pub mod Keys
pub mod Rules
pub mod Mode
use guanaco.Base.{
  ℕ, zero, suc, ◌+◌, Bool, true, false, ◌&&◌, ◌||◌, not, Option, none, some, List, [], ◌∷◌,
  if◌then◌else◌, ltb, ◌==◌, ℤ, pos, negsuc, ◌==ℤ◌, ltb_ℤ, length,
}
use guanaco.Text.{contains, as_int}
use guanaco.Storage.{ModelConfig, ManifestEntry, StorageConfig, Storage}

-- gguf_type, as far as it is looked at.
pub data KvType : Type 0 where
  uint32_type int32_type string_type other_type : KvType

-- A pair: gguf_get_key, gguf_get_kv_type, and the answers of gguf_get_val_u32 and gguf_get_val_str.
pub record KvPair : Type 0 where
  pub key : Option String
  pub type : KvType
  pub u32 : ℕ
  pub text : String

-- type == GGUF_TYPE_UINT32 || type == GGUF_TYPE_INT32
abbrev pub is_int : KvType → Bool
is_int uint32_type = true
is_int int32_type = true
is_int string_type = false
is_int other_type = false

abbrev pub is_string : KvType → Bool
is_string string_type = true
is_string _ = false

-- The tests of the chain on the standard keys.
unfoldable pub is_expert_key : String → Bool
is_expert_key key =
    str_eq key "llama.expert_count"
    || str_eq key "expert_count"
    || str_eq key "moe.num_experts"
    || str_eq key "num_experts"
    || contains key ".expert_count"
    || contains key ".expert_used_count"

unfoldable pub is_top_k_key : String → Bool
is_top_k_key key =
    str_eq key "llama.expert_used_count"
    || str_eq key "expert_used_count"
    || str_eq key "moe.num_experts_per_tok"
    || str_eq key "num_experts_per_tok"
    || str_eq key "top_k"
    || contains key ".expert_used_count"

unfoldable pub is_layers_key : String → Bool
is_layers_key key =
    str_eq key "llama.block_count"
    || str_eq key "block_count"
    || str_eq key "num_hidden_layers"
    || contains key ".block_count"

unfoldable pub is_hidden_key : String → Bool
is_hidden_key key =
    str_eq key "llama.embedding_length"
    || str_eq key "embedding_length"
    || str_eq key "hidden_size"
    || contains key ".embedding_length"

-- find("expert_count") and no find("used")
unfoldable pub counts_experts : String → Bool
counts_experts key = contains key "expert_count" && not (contains key "used")

abbrev pub set_experts : Bool → ℕ → ModelConfig → ModelConfig
set_experts b n c = record c { num_experts = if b then as_int n else c.num_experts }

abbrev pub set_top_k : Bool → ℕ → ModelConfig → ModelConfig
set_top_k b n c = record c { num_experts_per_tok = if b then as_int n else c.num_experts_per_tok }

abbrev pub set_layers : Bool → ℕ → ModelConfig → ModelConfig
set_layers b n c = record c { num_hidden_layers = if b then as_int n else c.num_hidden_layers }

abbrev pub set_hidden : Bool → ℕ → ModelConfig → ModelConfig
set_hidden b n c = record c { hidden_size = if b then as_int n else c.hidden_size }

-- if (key_str == …) … else if …
unfoldable pub standard_key : String → KvPair → ModelConfig → ModelConfig
standard_key key kv c =
    if is_expert_key key
    then set_experts (is_int kv.type && counts_experts key) kv.u32 c
    else if is_top_k_key key
    then set_top_k (is_int kv.type) kv.u32 c
    else if is_layers_key key
    then set_layers (is_int kv.type) kv.u32 c
    else if is_hidden_key key
    then set_hidden (is_int kv.type) kv.u32 c
    else if str_eq key "general.architecture"
    then (if is_string kv.type then (record c { architecture = kv.text }) else c)
    else c

-- The four tests after the chain.
unfoldable pub architecture_key : String → KvPair → ModelConfig → ModelConfig
architecture_key key kv c = set_hidden (contains key "embedding_length" && is_int kv.type) kv.u32 (
    set_layers (contains key "block_count" && is_int kv.type) kv.u32 (
      set_top_k (contains key "expert_used_count" && is_int kv.type) kv.u32
        (set_experts (counts_experts key && is_int kv.type) kv.u32 c)))

unfoldable pub read_pair : KvPair → ModelConfig → ModelConfig
read_pair kv c = elim kv.key [
  | none ↦ c
  | some key ↦ architecture_key key kv (standard_key key kv c)
]

-- for (i = 0; i < n_kv; ++i) { … }
unfoldable pub read_pairs : List KvPair → ModelConfig → ModelConfig
unfolding read_pair
read_pairs [] c = c
read_pairs (kv ∷ kvs) c = read_pairs kvs (read_pair kv c)

abbrev max_ℤ : ℤ → ℤ → ℤ
max_ℤ a b = if ltb_ℤ a b then b else a

-- max_element(expert_indices) + 1 over the entries with an expert, or 0 where there is none: `best` is
-- the maximum so far, or -1.
unfoldable pub inferred_experts : List ManifestEntry → ℤ → ℤ
inferred_experts [] (pos n) = pos (n + 1)
inferred_experts [] (negsuc _) = pos 0
inferred_experts (e ∷ es) best = inferred_experts es (max_ℤ best e.expert_idx)

-- Common defaults; 0 where there are fewer than 4 experts.
unfoldable pub usual_top_k : ℤ → ℤ
usual_top_k experts =
    if experts ==ℤ pos 8
    then pos 2
    else if not (ltb_ℤ experts (pos 16))
    then pos 4
    else if not (ltb_ℤ experts (pos 4))
    then pos 2
    else pos 0

unfoldable pub default_top_k : ModelConfig → ModelConfig
default_top_k c = record c {
  num_experts_per_tok =
      if c.num_experts_per_tok ==ℤ pos 0 && ltb_ℤ (pos 0) c.num_experts
      then usual_top_k c.num_experts
      else c.num_experts_per_tok;
}

-- The number of experts, where the file does not say.
unfoldable pub infer_experts : List ManifestEntry → ModelConfig → ModelConfig
unfolding inferred_experts
infer_experts manifest c = record c {
  num_experts =
      if c.num_experts ==ℤ pos 0 then inferred_experts manifest (negsuc 0) else c.num_experts;
}

unfoldable pub infer_layers : List (ℤ × List ManifestEntry) → ModelConfig → ModelConfig
infer_layers layer_experts c = record c {
  num_hidden_layers =
      if c.num_hidden_layers ==ℤ pos 0 && not (length layer_experts == 0)
      then pos (length layer_experts)
      else c.num_hidden_layers;
}

-- What is inferred where the file does not say.
unfoldable pub fall_back :
    List ManifestEntry → List (ℤ × List ManifestEntry) → ModelConfig → ModelConfig
fall_back manifest layer_experts c =
    infer_layers layer_experts (default_top_k (infer_experts manifest c))

-- config_.dense_streaming && config_.dense_budget_bytes > 0
abbrev pub want_budget : StorageConfig → Bool
want_budget c = c.dense_streaming && ltb 0 c.dense_budget_bytes

-- config_.dense_budget_auto, no budget, and num_experts <= 1
abbrev pub auto_budget : StorageConfig → ModelConfig → Bool
auto_budget c m =
    c.dense_budget_auto && c.dense_budget_bytes == 0 && not (ltb_ℤ (pos 1) m.num_experts)

-- Which of the two kinds of paging is on.
unfoldable pub choose_mode : Storage → Storage
choose_mode s = record s {
  dense_enabled = s.dense_enabled || (want_budget s.config || auto_budget s.config s.model_config);
  enabled = s.enabled && ltb_ℤ (pos 1) s.model_config.num_experts;
}

-- None: the file cannot be parsed, and false is the answer.
unfoldable pub parse_gguf_metadata : Option (List KvPair) → Storage → Storage × Bool
parse_gguf_metadata none s = (s, false)
parse_gguf_metadata (some kvs) s = (
  choose_mode (record s {
    model_config = fall_back s.manifest s.layer_experts (read_pairs kvs s.model_config);
  }),
  true,
)
