-- ===== src/Storage/Start.antt =====
-- src/guanaco_steppeloader.cpp, the constructor's part of the storage, and initialize. The disk is a parameter: whether the file opens, its pairs, the entries of a
-- directory, and the tensors of a shard.
use Prim.Native.String.{String}
pub mod Ready
use guanaco.Base.{Bool, true, false, not, Option, none, some, List, [], ◌∷◌, ℤ, pos, if◌then◌else◌}
use guanaco.Storage.{ModelConfig, ManifestEntry, StorageConfig, Storage}
use guanaco.Storage.Kv.{KvPair, parse_gguf_metadata}
use guanaco.Storage.Manifest.{Gguf, parse_gguf_manifest}
use guanaco.Storage.Shards.{build_shard_paths}

pub record Disk : Type 0 where
  pub opens : String → Bool
  pub pairs : String → Option (List KvPair)
  pub listing : String → Option (List String)
  pub shard : String → Option Gguf

-- MoEModelConfig's defaults
abbrev pub no_model : ModelConfig
no_model = record {
  num_experts = pos 0;
  num_experts_per_tok = pos 0;
  num_hidden_layers = pos 0;
  hidden_size = pos 0;
  architecture = "";
}

-- A loader that is new.
abbrev pub fresh_storage : StorageConfig → Storage
fresh_storage c = record {
  config = c;
  fd_open = false;
  model_config = no_model;
  manifest = [];
  layer_experts = [];
  enabled = true;
  dense_enabled = false;
}

-- The answer of parse_gguf_metadata is not looked at; parse_gguf_manifest's is always true.
unfoldable pub initialize : Disk → Storage → Storage × Bool
initialize d s =
    let path = s.config.gguf_path in
    if not (d.opens path) then (record s { fd_open = false }, false) else (
      parse_gguf_manifest d.shard (build_shard_paths d.listing path)
          (parse_gguf_metadata (d.pairs path) (record s { fd_open = true })).0,
      true,
    )
