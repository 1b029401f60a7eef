-- ===== src/Storage/Start/Ready.antt =====
-- src/guanaco_steppeloader.cpp, initialize: what a new loader knows of the model.
use Prim.Native.String.{String}
use mathlib.Core.Path.{subst}
use guanaco.Base.{
  All, ℕ, ◌≡◌, refl, sym, ap, ◌∙◌, true, ◌&&◌, not, Option, none, some, List, [], ◌∷◌, pos, ltb_ℤ,
  if_either, map,
}
use guanaco.Storage.{Storage, StorageConfig, ModelConfig, ManifestEntry}
use guanaco.Storage.Kv.{KvPair, parse_gguf_metadata}
use guanaco.Storage.Kv.Rules.{read_by_rules}
use guanaco.Storage.Kv.Mode.{parse_gguf_metadata-Decides}
use guanaco.Storage.Manifest.{
  Gguf, GgufTensor, manifest_entry, push_entry, scan_tensors, scan_shards, parse_gguf_manifest,
}
use guanaco.Storage.Manifest.Genuine.{IsSound, IsGenuine, IsGroup, parse_gguf_manifest-IsSound}
use guanaco.Storage.Shards.{build_shard_paths}
use guanaco.Storage.Start.{Disk, no_model, fresh_storage, initialize}

-- The members that the manifest's scan leaves alone.
abbrev pub Same : Storage → Storage → Type 0
Same s s' =
    (s'.model_config ≡ s.model_config)
    × (s'.enabled ≡ s.enabled)
    × (s'.dense_enabled ≡ s.dense_enabled)
    × (s'.fd_open ≡ s.fd_open)

Same-trans : (a b c : Storage) → Same a b → Same b c → Same a c
Same-trans a b c h k = (k.0 ∙ h.0, k.1 ∙ h.1, k.2 ∙ h.2, k.3 ∙ h.3)

pushed-Same :
    (s : Storage) (o : Option ManifestEntry)
    → Same s (elim o [ none ↦ s | some e ↦ push_entry s e ])
unfolding push_entry
pushed-Same s none = (refl, refl, refl, refl)
pushed-Same s (some e) = (refl, refl, refl, refl)

scan_tensors-Same : (off : ℕ) (ts : List GgufTensor) (s : Storage) → Same s (scan_tensors off ts s)
unfolding scan_tensors
scan_tensors-Same off [] s = (refl, refl, refl, refl)
scan_tensors-Same off (t ∷ ts) s =
    let found = manifest_entry s.dense_enabled s.model_config.num_experts off t in
    let next : Storage = elim found [ none ↦ s | some e ↦ push_entry s e ] in
    Same-trans s next (scan_tensors off ts next) (pushed-Same s found)
      (scan_tensors-Same off ts next)

scan_shards-Same : (gs : List (Option Gguf)) (s : Storage) → Same s (scan_shards gs s)
unfolding scan_shards
scan_shards-Same [] s = (refl, refl, refl, refl)
scan_shards-Same (none ∷ gs) s = scan_shards-Same gs s
scan_shards-Same (some g ∷ gs) s =
    let next = scan_tensors g.data_offset g.tensors s in
    Same-trans s next (scan_shards gs next) (scan_tensors-Same g.data_offset g.tensors s)
      (scan_shards-Same gs next)

parse_gguf_manifest-Same :
    (read : String → Option Gguf) (shards : List String) (s : Storage)
    → Same s (parse_gguf_manifest read shards s)
unfolding parse_gguf_manifest
parse_gguf_manifest-Same read shards s =
    if_either (Same s) (not s.enabled && not s.dense_enabled) s (scan_shards (map read shards) s)
      (refl, refl, refl, refl) (scan_shards-Same (map read shards) s)

-- What initialize leaves of a new loader whose file has those pairs.
pub record IsReady (c : StorageConfig) (kvs : List KvPair) (s : Storage) : Type 0 where
  pub fd_open : s.fd_open ≡ true
  pub experts : s.model_config.num_experts ≡ (read_by_rules kvs no_model).num_experts
  pub layers : s.model_config.num_hidden_layers ≡ (read_by_rules kvs no_model).num_hidden_layers
  pub enabled : s.enabled ≡ ltb_ℤ (pos 1) (read_by_rules kvs no_model).num_experts
  pub sound : IsSound s

-- Where the file opens and its pairs are read, initialize leaves a new loader open, with the
-- number of experts and of layers that the pairs give by the rules and nothing inferred, expert
-- streaming on just for more than one expert, and a manifest that is sound.
pub initialize-IsReady :
    (d : Disk) (c : StorageConfig) (kvs : List KvPair)
    → d.opens c.gguf_path ≡ true
    → d.pairs c.gguf_path ≡ some kvs
    → IsReady c kvs (initialize d (fresh_storage c)).0
unfolding initialize
initialize-IsReady d c kvs opens pairs =
    let open_ = record (fresh_storage c) { fd_open = true } in
    let known = (parse_gguf_metadata (some kvs) open_).0 in
    let e = parse_gguf_metadata-Decides kvs open_ refl refl refl refl in
    let paths = build_shard_paths d.listing c.gguf_path in
    let same = parse_gguf_manifest-Same d.shard paths known in
    rw (opens, pairs, initialize)
      (record {
        fd_open = same.3 ∙ e.fd_open;
        experts = ap (λ (m : ModelConfig). m.num_experts) same.0 ∙ e.experts;
        layers = ap (λ (m : ModelConfig). m.num_hidden_layers) same.0 ∙ e.layers;
        enabled = same.1 ∙ e.enabled;
        sound = parse_gguf_manifest-IsSound d.shard paths known (record {
          entries = subst (All (IsGenuine known.model_config.num_experts)) (sym e.manifest) tt;
          groups = subst (All IsGroup) (sym e.layer_experts) tt;
        });
      })
