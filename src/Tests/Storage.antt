-- ===== src/Tests/Storage.antt =====
-- The model's files at concrete inputs.
use Prim.Native.String.{String}
use guanaco.Base.{◌≡◌, refl, true, false, none, some, List, [], ◌∷◌, ℕ, ◌^◌, ◌≤◌, ◌⊎◌, pos, leb}
use text.Mathlib.Text.{◌==◌ as str_eq}
use guanaco.Base.{if◌then◌else◌, ◌*◌}
use guanaco.Text.{begins, strstr, contains}
use guanaco.Storage.{StorageConfig}
use guanaco.Storage.Kv.{KvPair, uint32_type, string_type, read_pairs, parse_gguf_metadata}
use guanaco.Storage.Kv.Rules.{read_by_rules, read_pairs-read_by_rules}
use guanaco.Storage.Kv.Mode.{Decides, parse_gguf_metadata-Decides}
use guanaco.Storage.Names.{names_experts, classify_name, layer_of, expert_of}
use guanaco.Storage.Names.Layers.{classify_name-layers, expert_of-fused}
use guanaco.Storage.Manifest.{
  Gguf, GgufTensor, parse_gguf_manifest, manifest_entry, is_mistaken, trailing_dim,
}
use guanaco.Storage.Manifest.Standalone.{standalone_layer, expert_entry}
use guanaco.Storage.Manifest.Agree.{Agree, expert_entry-Agree}
use guanaco.Storage.Manifest.Genuine.{IsSound, parse_gguf_manifest-IsSound}
use guanaco.Storage.Shards.{ShardFile, read_gguf_metadata_ctx}
use guanaco.Storage.Shards.Growth.{NoneOrWhole, read_gguf_metadata_ctx-IsWhole}
use guanaco.Storage.Start.{Disk, no_model, fresh_storage, initialize}
use guanaco.Storage.Start.Ready.{IsReady, initialize-IsReady}
use guanaco.Base.Words.{mul64}
use guanaco.Memory.{Files, available_ram, available_kb, cgroup_memory_limit}
use guanaco.Memory.Limit.{available_ram-bounds, reported}

abbrev pub pair : String → ℕ → KvPair
pair key n = record { key = some key; type = uint32_type; u32 = n; text = "" }

abbrev pub pairs : List KvPair
pairs =
    pair "qwen3moe.block_count" 2
    ∷ pair "qwen3moe.expert_count" 8
    ∷ pair "top_k" 4
    ∷ pair "moe.num_experts" 16
    ∷ record { key = some "general.architecture"; type = string_type; u32 = 0; text = "qwen3moe" }
    ∷ []

read_pairs-read_by_rules_example : read_pairs pairs no_model ≡ read_by_rules pairs no_model
read_pairs-read_by_rules_example = read_pairs-read_by_rules pairs no_model

abbrev pub config : StorageConfig
config = record {
  gguf_path = "m.gguf";
  dense_streaming = true;
  dense_budget_bytes = 100;
  dense_budget_auto = true;
}

parse_gguf_metadata-Decides_example :
    Decides pairs (fresh_storage config) (parse_gguf_metadata (some pairs) (fresh_storage config)).0
parse_gguf_metadata-Decides_example =
    parse_gguf_metadata-Decides pairs (fresh_storage config) refl refl refl refl

abbrev pub fused : GgufTensor
fused = record {
  name = some "blk.1.ffn_up_exps.weight";
  type_name = "q8_0";
  offset = 64;
  byte_size = 80;
  ne = some (4 ∷ 2 ∷ 8 ∷ 1 ∷ []);
}

abbrev pub shard : Gguf
shard = record { data_offset = 128; tensors = fused ∷ [] }

abbrev pub disk : Disk
disk = record {
  opens = λ path. true;
  pairs = λ path. some pairs;
  listing = λ dir. none;
  shard = λ path. some shard;
}

initialize-IsReady_example : IsReady config pairs (initialize disk (fresh_storage config)).0
initialize-IsReady_example = initialize-IsReady disk config pairs refl refl

parse_gguf_manifest-IsSound_example :
    IsSound (parse_gguf_manifest disk.shard ("m.gguf" ∷ []) (fresh_storage config))
parse_gguf_manifest-IsSound_example =
    parse_gguf_manifest-IsSound disk.shard ("m.gguf" ∷ []) (fresh_storage config)
      (record { entries = tt; groups = tt })

expert_entry-Agree_example : Agree (expert_entry 128 fused) (manifest_entry false (pos 8) 128 fused)
unfolding is_mistaken trailing_dim
expert_entry-Agree_example = expert_entry-Agree (pos 8) 128 fused refl

classify_name-layers_example :
    ((classify_name "model.layers.17.mlp.experts.3.up_proj").layer_idx ≡ pos 0)
    × (standalone_layer "model.layers.17.mlp.experts.3.up_proj" ≡ pos 0)
unfolding contains names_experts
classify_name-layers_example =
    classify_name-layers "model.layers.17.mlp.experts.3.up_proj" refl refl refl

expert_of-fused_example : expert_of "blk.7.ffn_up_exps.weight" ≡ pos 0
unfolding strstr contains begins
expert_of-fused_example = expert_of-fused "blk.7.ffn_up_exps.weight" "exps.weight" refl refl refl

block : layer_of "blk.17.ffn_up_exps.weight" ≡ pos 17
unfolding layer_of
block = refl

-- A shard of 3 MiB, whose metadata end behind 1500000 bytes.
abbrev file : ShardFile ℕ
file = record {
  fills = λ cap. leb cap (3 * 2 ^ 20);
  context = λ cap. if leb 1400000 cap then some 1500000 else none;
}

read_gguf_metadata_ctx-IsWhole_example :
    NoneOrWhole (λ n. n) file (read_gguf_metadata_ctx (λ n. n) (some file))
read_gguf_metadata_ctx-IsWhole_example = read_gguf_metadata_ctx-IsWhole (λ n. n) file

found : read_gguf_metadata_ctx (λ n. n) (some file) ≡ some 1500000
unfolding read_gguf_metadata_ctx
found = refl

-- A container with a limit under what is available.
abbrev files : Files
files path =
    if str_eq path "/proc/meminfo"
    then some ("MemTotal: 64\n" ∷ "MemAvailable:   1000 kB\n" ∷ [])
    else if str_eq path "/proc/self/cgroup"
    then some ("0::/box\n" ∷ [])
    else if str_eq path "/sys/fs/cgroup/box/memory.max"
    then some ("500000\n" ∷ [])
    else none

available_ram-bounds_example :
    (available_ram files ≤ reported files)
    × ((cgroup_memory_limit files ≡ 0) ⊎ (available_ram files ≤ cgroup_memory_limit files))
    × ((available_ram files ≡ reported files) ⊎ (available_ram files ≡ cgroup_memory_limit files))
available_ram-bounds_example = available_ram-bounds files

the_limit : available_ram files ≡ 500000
unfolding available_ram cgroup_memory_limit available_kb mul64
the_limit = refl
