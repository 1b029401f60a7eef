-- ===== src/Storage/Kv/Mode.antt =====
-- src/guanaco_steppeloader.cpp, parse_gguf_metadata: what is decided on a loader that is new.
use guanaco.Base.{
  ◌≡◌, refl, sym, ap, ◌∙◌, inl, inr, true, false, ◌&&◌, ◌||◌, not, some, List, [], pos, ltb_ℤ,
  ◌==ℤ◌, ◌==◌, ==ℤ_iff, Bool-cases,
}
use guanaco.Storage.{ModelConfig, Storage}
use guanaco.Storage.Kv.{
  KvPair, parse_gguf_metadata, read_pairs, fall_back, infer_experts, infer_layers, default_top_k,
  inferred_experts, choose_mode, want_budget,
}
use guanaco.Storage.Kv.Rules.{read_by_rules, read_pairs-read_by_rules}

-- What parse_gguf_metadata leaves of a loader that is new, by the file's pairs alone.
pub record Decides (kvs : List KvPair) (s s' : Storage) : Type 0 where
  pub config : s'.config ≡ s.config
  pub fd_open : s'.fd_open ≡ s.fd_open
  pub manifest : s'.manifest ≡ s.manifest
  pub layer_experts : s'.layer_experts ≡ s.layer_experts
  pub experts : s'.model_config.num_experts ≡ (read_by_rules kvs s.model_config).num_experts
  pub layers :
      s'.model_config.num_hidden_layers ≡ (read_by_rules kvs s.model_config).num_hidden_layers
  pub enabled : s'.enabled ≡ ltb_ℤ (pos 1) (read_by_rules kvs s.model_config).num_experts
  pub dense_enabled : s'.dense_enabled ≡ (
      want_budget s.config
      || (s.config.dense_budget_auto
          && s.config.dense_budget_bytes == 0
          && not (ltb_ℤ (pos 1) (read_by_rules kvs s.model_config).num_experts)))

fresh_experts : (c : ModelConfig) → (fall_back [] [] c).num_experts ≡ c.num_experts
unfolding fall_back infer_experts infer_layers default_top_k inferred_experts
fresh_experts c = elim (Bool-cases (c.num_experts ==ℤ pos 0)) [
  | inl zero_ ↦ rw zero_ (sym ((==ℤ_iff c.num_experts (pos 0)).0 zero_))
  | inr more ↦ rw more refl
]

fresh_layers : (c : ModelConfig) → (fall_back [] [] c).num_hidden_layers ≡ c.num_hidden_layers
unfolding fall_back infer_experts infer_layers default_top_k inferred_experts
fresh_layers c = elim (Bool-cases (c.num_hidden_layers ==ℤ pos 0)) [
  | inl zero_ ↦ rw zero_ refl
  | inr more ↦ rw more refl
]

pub parse_gguf_metadata-Decides :
    (kvs : List KvPair) (s : Storage)
    → s.manifest ≡ []
    → s.layer_experts ≡ []
    → s.enabled ≡ true
    → s.dense_enabled ≡ false
    → Decides kvs s (parse_gguf_metadata (some kvs) s).0
unfolding parse_gguf_metadata choose_mode
parse_gguf_metadata-Decides kvs s e1 e2 on off =
    let m = fall_back s.manifest s.layer_experts (read_pairs kvs s.model_config) in
    let fresh : m ≡ fall_back [] [] (read_by_rules kvs s.model_config) =
      λ i. fall_back (e1 i) (e2 i) (read_pairs-read_by_rules kvs s.model_config i) in
    let experts : m.num_experts ≡ (read_by_rules kvs s.model_config).num_experts =
      ap (λ (c : ModelConfig). c.num_experts) fresh
      ∙ fresh_experts (read_by_rules kvs s.model_config) in
    record {
      config = refl;
      fd_open = refl;
      manifest = refl;
      layer_experts = refl;
      experts = experts;
      layers =
          ap (λ (c : ModelConfig). c.num_hidden_layers) fresh
          ∙ fresh_layers (read_by_rules kvs s.model_config);
      enabled = λ i. on i && ltb_ℤ (pos 1) (experts i);
      dense_enabled = λ i.
          off i
          || (want_budget s.config
              || (s.config.dense_budget_auto
                  && s.config.dense_budget_bytes == 0
                  && not (ltb_ℤ (pos 1) (experts i))));
    }
