-- ===== src/Executor.antt =====
-- src/guanaco_executor.cpp: the loader, the cache and the router put together, and a token's pass over
-- the layers.
--
-- The router's pointers are to the executor's own parts, which it copies here. The lines that it prints
-- are left out; router_callback_ only hands on the decisions, which the router keeps.
use Prim.Native.String.{String}
pub mod Pass
use guanaco.Base.{
  ℕ, zero, suc, Bool, true, false, not, Option, none, some, List, [], ◌∷◌, if◌then◌else◌, ℤ, pos,
  negsuc, ltb_ℤ,
}
use guanaco.Herd.{HerdCache}
use guanaco.Storage.{ManifestEntry, Storage, ModelConfig, StorageConfig}
use guanaco.Storage.Reads.{Outcome}
use guanaco.Storage.Start.{Disk, fresh_storage, initialize}
use guanaco.Router.{Router, intercept_router}

pub record ExecutorConfig : Type 0 where
  pub model_path : String
  pub max_active_experts : ℕ
  pub use_madvise : Bool
  pub num_layers : ℤ
  pub num_experts : ℤ
  pub top_k : ℤ

pub record Executor (F : Type 0) : Type 0 where
  pub config : ExecutorConfig
  pub loader : Storage
  pub router : Router F
  pub initialized : Bool

-- static_cast<size_t> of a count that the code takes not to be negative
abbrev pub size_of : ℤ → ℕ
size_of (pos n) = n
size_of (negsuc n) = 0

-- SteppeLoaderConfig's defaults, with the executor's path.
abbrev pub loader_config : ExecutorConfig → StorageConfig
loader_config c = record {
  gguf_path = c.model_path;
  dense_streaming = false;
  dense_budget_bytes = 0;
  dense_budget_auto = true;
}

abbrev pub fresh_cache : ExecutorConfig → HerdCache
fresh_cache c = record {
  max_active_experts = c.max_active_experts;
  use_madvise = c.use_madvise;
  active_experts = [];
  lru_list = [];
  advised = [];
}

-- What the model says, or the configuration's value.
abbrev pub known_or : ℤ → ℤ → ℤ
known_or model ours = if ltb_ℤ (pos 0) model then model else ours

module _ {F : Type 0} where
  -- The constructor: a router for no experts.
  unfoldable pub create : ExecutorConfig → Executor F
  create c = record {
    config = c;
    loader = fresh_storage (loader_config c);
    router = record {
      top_k = 0;
      has_callback = true;
      manifest = some [];
      cache = some (fresh_cache c);
      loader = some (fresh_storage (loader_config c));
      decisions = [];
    };
    initialized = false;
  }

  unfoldable pub start_executor : Disk → Executor F → Executor F × Bool
  start_executor d x =
      let (s, ok) = initialize d x.loader in
      if not ok then (record x { loader = s }, false) else (
        record x {
          loader = s;
          router = record x.router {
            top_k = size_of (known_or s.model_config.num_experts_per_tok x.config.top_k);
            has_callback = true;
            manifest = some s.manifest;
            loader = some s;
          };
          initialized = true;
        },
        true,
      )

  module _ (gt : F → F → Bool) (address : ManifestEntry → ℕ) (read : ManifestEntry → Outcome)
      (logits : ℕ → F) where
    -- One token's logits are those of `logits`: static_cast<float>(e) * 0.1f for expert e.
    unfoldable pub evaluate_moe_layer : ℕ → Executor F → Option (Executor F)
    evaluate_moe_layer layer x =
        elim (intercept_router gt address read x.router (pos layer) logits 1
          (size_of (known_or x.loader.model_config.num_experts x.config.num_experts))) [
            | none ↦ none
            | some r ↦ some (record x { router = r })
          ]

    -- for (layer = 0; layer < num_layers; ++layer): from `layer` on, `left` of them. None where the
    -- router's choice is undefined.
    unfoldable pub evaluate_layers : ℕ → ℕ → Executor F → Option (Executor F)
    evaluate_layers layer zero x = some x
    evaluate_layers layer (suc left) x = elim (evaluate_moe_layer layer x) [
      | none ↦ none
      | some next ↦ evaluate_layers (suc layer) left next
    ]

    unfoldable pub evaluate_token : Executor F → Option (Executor F)
    evaluate_token x =
        if not x.initialized
        then some x
        else evaluate_layers 0
            (size_of (known_or x.loader.model_config.num_hidden_layers x.config.num_layers)) x
