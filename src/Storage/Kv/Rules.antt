-- ===== src/Storage/Kv/Rules.antt =====
-- src/guanaco_steppeloader.cpp, parse_gguf_metadata: the chain of tests against one rule for each member.
use Prim.Native.String.{String}
use text.Mathlib.Text.{◌==◌ as str_eq}
use guanaco.Base.{
  ◌≡◌, refl, ap, ◌∙◌, inl, inr, Bool, true, false, ◌&&◌, ◌||◌, not, none, some, if◌then◌else◌,
  arith, Option-cases, List, [], ◌∷◌, ℤ,
}
use guanaco.Text.{contains, as_int}
use guanaco.Storage.{ModelConfig}
use guanaco.Storage.Kv.{
  KvPair, is_int, is_string, is_expert_key, is_top_k_key, is_layers_key, is_hidden_key,
  counts_experts, standard_key, architecture_key, read_pair, read_pairs,
}
use guanaco.Storage.Kv.Keys.{
  ranks_experts, counts_layers, sizes_hidden, top_k-ranks, layers-counts, hidden-sizes, ranks_only,
  counts_only, sizes_only, ranks_only_also, counts_only_also, sizes_only_also, architecture_only,
}

-- One rule for each member.
unfoldable pub by_rules : String → KvPair → ModelConfig → ModelConfig
by_rules key kv c =
    let int = is_int kv.type in
    record {
      num_experts = if int && counts_experts key then as_int kv.u32 else c.num_experts;
      num_experts_per_tok =
          if int && ranks_experts key then as_int kv.u32 else c.num_experts_per_tok;
      num_hidden_layers = if int && counts_layers key then as_int kv.u32 else c.num_hidden_layers;
      hidden_size = if int && sizes_hidden key then as_int kv.u32 else c.hidden_size;
      architecture =
          if is_string kv.type && str_eq key "general.architecture"
          then kv.text
          else c.architecture;
    }

-- The same value, by either of two tests or by one.
merge {ℓ} :
    {A : Type ℓ} (p q r : Bool) (v x : A)
    → (p || q) ≡ r
    → (if p then v else if q then v else x) ≡ (if r then v else x)
merge true q true v x h = refl
merge true q false v x h = absurd (cc)
merge false q r v x h = ap (λ b. if b then v else x) h

config_path :
    {a b : ModelConfig}
    → a.num_experts ≡ b.num_experts
    → a.num_experts_per_tok ≡ b.num_experts_per_tok
    → a.num_hidden_layers ≡ b.num_hidden_layers
    → a.hidden_size ≡ b.hidden_size
    → a.architecture ≡ b.architecture
    → a ≡ b
config_path e1 e2 e3 e4 e5 = λ i. record {
  num_experts = e1 i;
  num_experts_per_tok = e2 i;
  num_hidden_layers = e3 i;
  hidden_size = e4 i;
  architecture = e5 i;
}

module _ (key : String) (kv : KvPair) (c : ModelConfig) where
  abbrev v : ℤ
  v = as_int kv.u32

  chain_experts :
      (standard_key key kv c).num_experts
      ≡ (if is_expert_key key && (is_int kv.type && counts_experts key) then v else c.num_experts)
  unfolding standard_key
  chain_experts = ground arith

  chain_top_k : (standard_key key kv c).num_experts_per_tok ≡ (
      if not (is_expert_key key) && (is_top_k_key key && is_int kv.type)
      then v
      else c.num_experts_per_tok)
  unfolding standard_key
  chain_top_k = ground arith

  chain_layers : (standard_key key kv c).num_hidden_layers ≡ (
      if not (is_expert_key key) && not (is_top_k_key key) && (is_layers_key key && is_int kv.type)
      then v
      else c.num_hidden_layers)
  unfolding standard_key
  chain_layers = ground arith

  chain_hidden : (standard_key key kv c).hidden_size ≡ (
      if not (is_expert_key key)
        && not (is_top_k_key key)
        && not (is_layers_key key)
        && (is_hidden_key key && is_int kv.type)
      then v
      else c.hidden_size)
  unfolding standard_key
  chain_hidden = ground arith

  chain_architecture : (standard_key key kv c).architecture ≡ (
      if not (is_expert_key key)
        && not (is_top_k_key key)
        && not (is_layers_key key)
        && not (is_hidden_key key)
        && (is_string kv.type && str_eq key "general.architecture")
      then kv.text
      else c.architecture)
  unfolding standard_key
  chain_architecture = ground arith

  experts_field :
      (architecture_key key kv (standard_key key kv c)).num_experts
      ≡ (by_rules key kv c).num_experts
  unfolding architecture_key by_rules
  experts_field =
      ap (λ d. if counts_experts key && is_int kv.type then v else d) chain_experts
      ∙ merge (counts_experts key && is_int kv.type)
          (is_expert_key key && (is_int kv.type && counts_experts key))
          (is_int kv.type && counts_experts key) v c.num_experts (ground arith)

  top_k_field :
      (architecture_key key kv (standard_key key kv c)).num_experts_per_tok
      ≡ (by_rules key kv c).num_experts_per_tok
  unfolding architecture_key by_rules
  top_k_field =
      ap (λ d. if contains key "expert_used_count" && is_int kv.type then v else d) chain_top_k
      ∙ merge (contains key "expert_used_count" && is_int kv.type)
          (not (is_expert_key key) && (is_top_k_key key && is_int kv.type))
          (is_int kv.type && ranks_experts key) v c.num_experts_per_tok
          (ground (arith, top_k-ranks key, ranks_only key, ranks_only_also key))

  layers_field :
      (architecture_key key kv (standard_key key kv c)).num_hidden_layers
      ≡ (by_rules key kv c).num_hidden_layers
  unfolding architecture_key by_rules
  layers_field =
      ap (λ d. if contains key "block_count" && is_int kv.type then v else d) chain_layers
      ∙ merge (contains key "block_count" && is_int kv.type)
          (not (is_expert_key key)
            && not (is_top_k_key key)
            && (is_layers_key key && is_int kv.type))
          (is_int kv.type && counts_layers key) v c.num_hidden_layers
          (ground (arith, layers-counts key, counts_only key, counts_only_also key))

  hidden_field :
      (architecture_key key kv (standard_key key kv c)).hidden_size
      ≡ (by_rules key kv c).hidden_size
  unfolding architecture_key by_rules
  hidden_field =
      ap (λ d. if contains key "embedding_length" && is_int kv.type then v else d) chain_hidden
      ∙ merge (contains key "embedding_length" && is_int kv.type)
          (not (is_expert_key key)
            && not (is_top_k_key key)
            && not (is_layers_key key)
            && (is_hidden_key key && is_int kv.type))
          (is_int kv.type && sizes_hidden key) v c.hidden_size
          (ground (arith, hidden-sizes key, sizes_only key, sizes_only_also key))

  architecture_field :
      (architecture_key key kv (standard_key key kv c)).architecture
      ≡ (by_rules key kv c).architecture
  unfolding architecture_key by_rules
  architecture_field =
      chain_architecture
      ∙ merge false
          (not (is_expert_key key)
            && not (is_top_k_key key)
            && not (is_layers_key key)
            && not (is_hidden_key key)
            && (is_string kv.type && str_eq key "general.architecture"))
          (is_string kv.type && str_eq key "general.architecture") kv.text c.architecture
          (ground (arith, architecture_only key))

  by_rules_lem : architecture_key key kv (standard_key key kv c) ≡ by_rules key kv c
  by_rules_lem = config_path experts_field top_k_field layers_field hidden_field architecture_field

-- The rules over the pairs that have a key.
unfoldable pub read_by_rules : List KvPair → ModelConfig → ModelConfig
unfolding by_rules
read_by_rules [] c = c
read_by_rules (kv ∷ kvs) c =
    read_by_rules kvs (elim kv.key [ none ↦ c | some key ↦ by_rules key kv c ])

-- The chain of tests of parse_gguf_metadata and the four tests after it come to one rule for each
-- member of the model's configuration: which keys set it, by their substrings or as they stand.
pub read_pairs-read_by_rules :
    (kvs : List KvPair) (c : ModelConfig) → read_pairs kvs c ≡ read_by_rules kvs c
unfolding read_pairs read_by_rules read_pair standard_key architecture_key
read_pairs-read_by_rules [] c = refl
read_pairs-read_by_rules (kv ∷ kvs) c = elim (Option-cases kv.key) [
  | inl none_ ↦ rw none_ (read_pairs-read_by_rules kvs c)
  | inr (key, some_) ↦ rw some_ (
      ap (λ d. read_pairs kvs d) (by_rules_lem key kv c)
      ∙ read_pairs-read_by_rules kvs (by_rules key kv c))
]
