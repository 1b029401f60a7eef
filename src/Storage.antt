-- ===== src/Storage.antt =====
-- include/guanaco/guanaco.h, the part of SteppeLoader that reads the model's files: the manifest of its
-- tensors, the model's configuration, and the flags that say which paging is on.
--
-- `int` members are integers, size_t ones are numbers below 2 ^ 64. layer_experts_ is the list of its
-- pairs. The gguf library is not modelled: what it answers about a file is a parameter.
use Prim.Native.String.{String}
pub mod Kv
pub mod Names
pub mod Manifest
pub mod Shards
pub mod Reads
pub mod Start
use guanaco.Base.{ℕ, Bool, Option, List, ℤ}

-- MoEModelConfig
pub record ModelConfig : Type 0 where
  pub num_experts : ℤ
  pub num_experts_per_tok : ℤ
  pub num_hidden_layers : ℤ
  pub hidden_size : ℤ
  pub architecture : String

pub record ManifestEntry : Type 0 where
  pub tensor_name : String
  pub file_offset : ℕ
  pub byte_size : ℕ
  pub layer_idx : ℤ
  pub expert_idx : ℤ
  pub tensor_type : ℤ
  pub quantization_type : String
  pub num_experts_in_tensor : ℤ
  pub expert_slice_size : ℕ
  pub tensor_dims : List ℕ
  pub tensor_n_dims : ℕ

-- The members of config_ that choose the paging.
pub record StorageConfig : Type 0 where
  pub gguf_path : String
  pub dense_streaming : Bool
  pub dense_budget_bytes : ℕ
  pub dense_budget_auto : Bool

pub record Storage : Type 0 where
  pub config : StorageConfig
  pub fd_open : Bool
  pub model_config : ModelConfig
  pub manifest : List ManifestEntry
  pub layer_experts : List (ℤ × List ManifestEntry)
  pub enabled : Bool
  pub dense_enabled : Bool
