-- ===== src/Storage/Manifest/Genuine.antt =====
-- src/guanaco_steppeloader.cpp, parse_gguf_manifest: what holds of the entries that it lists.
use native.Mathlib.Nat.{div-add-mod'}
use mathlib.Core.Path.{subst}
use guanaco.Base.{some_inj}
use guanaco.Base.{
  ℕ, ◌*◌, ◌≤◌, ◌≡◌, ◌⊎◌, inl, inr, refl, sym, Bool, false, ◌&&◌, not, Option, none, some, List, [],
  ◌∷◌, ℤ, pos, negsuc, ◌==ℤ◌, ==ℤ_iff, ltb_ℤ, ltb, map, arith, All, All-append, if_either,
  Bool-cases, Option-cases,
}
use Prim.Native.String.{String}
use guanaco.Storage.{ManifestEntry, Storage}
use guanaco.Storage.Manifest.{
  GgufTensor, Gguf, slice_size, is_mistaken, is_listed, entry_of, manifest_entry, push_layer,
  push_entry, scan_tensors, scan_shards, parse_gguf_manifest, trailing_dim,
}

-- static_cast<size_t> of a count that is not negative
abbrev pub count_of : ℤ → ℕ
count_of (pos n) = n
count_of (negsuc n) = 0

-- An entry for a model of that many experts: it counts them all, or is not fused, and its slices fit it.
pub record IsGenuine (model : ℤ) (e : ManifestEntry) : Type 0 where
  pub counts :
      (ltb_ℤ (pos 1) e.num_experts_in_tensor ≡ false)
      ⊎ (ltb_ℤ (pos 1) model ≡ false)
      ⊎ (e.num_experts_in_tensor ≡ model)
  pub slices : count_of e.num_experts_in_tensor * e.expert_slice_size ≤ e.byte_size

-- The entries of a layer's group are the layer's.
abbrev pub IsGroup : ℤ × List ManifestEntry → Type 0
IsGroup g = All (λ e. e.layer_idx ≡ g.0) g.1

pub record IsSound (s : Storage) : Type 0 where
  pub entries : All (IsGenuine s.model_config.num_experts) s.manifest
  pub groups : All IsGroup s.layer_experts

slice_size-fits : (size : ℕ) (n : ℤ) → count_of n * slice_size size n ≤ size
unfolding slice_size
slice_size-fits size (negsuc n) = omega arith
slice_size-fits size (pos n) = elim (Bool-cases (ltb 1 n)) [
  | inl many ↦ rw many (omega (arith, div-add-mod' size n))
  | inr one ↦ rw one (omega arith)
]

entry_of-IsGenuine :
    (dense : Bool) (model : ℤ) (off : ℕ) (t : GgufTensor) (name : String)
    → is_mistaken (entry_of dense off t name).num_experts_in_tensor model ≡ false
    → IsGenuine model (entry_of dense off t name)
unfolding entry_of is_mistaken
entry_of-IsGenuine dense model off t name ok = record {
  counts = elim (Bool-cases (ltb_ℤ (pos 1) (trailing_dim t.ne))) [
    | inr one ↦ inl one
    | inl many ↦ elim (Bool-cases (ltb_ℤ (pos 1) model)) [
      | inr none_ ↦ inr (inl none_)
      | inl experts ↦ inr (inr ((==ℤ_iff (trailing_dim t.ne) model).0 (ground (arith, ok))))
    ]
  ];
  slices = slice_size-fits t.byte_size (trailing_dim t.ne);
}

-- The entry, if there is one, is genuine.
manifest_entry-IsGenuine :
    (dense : Bool) (model : ℤ) (off : ℕ) (t : GgufTensor) (e : ManifestEntry)
    → manifest_entry dense model off t ≡ some e
    → IsGenuine model e
unfolding manifest_entry
manifest_entry-IsGenuine dense model off t e h = elim (Option-cases t.name) [
  | inl none_ ↦ let h' : none ≡ some e = rw (none_, manifest_entry) at h in absurd (cc)
  | inr (name, some_) ↦
      let u = entry_of dense off t name in
      elim (Bool-cases (is_mistaken u.num_experts_in_tensor model)) [
        | inl bad ↦ let h' : none ≡ some e = rw (some_, bad, manifest_entry) at h in absurd (cc)
        | inr ok ↦ elim (Bool-cases (is_listed u.layer_idx u.expert_idx u.num_experts_in_tensor)) [
          | inr out ↦
              let h' : none ≡ some e = rw (some_, ok, out, manifest_entry) at h in absurd (cc)
          | inl listed ↦
              let same : u ≡ e = some_inj (rw (some_, ok, listed, manifest_entry) at h) in
              subst (IsGenuine model) same (entry_of-IsGenuine dense model off t name ok)
        ]
      ]
]

push_layer-All :
    (e : ManifestEntry) (gs : List (ℤ × List ManifestEntry))
    → All IsGroup gs
    → All IsGroup (push_layer e gs)
unfolding push_layer
push_layer-All e [] a = ((refl, tt), tt)
push_layer-All e ((l, es) ∷ gs) a = elim (Bool-cases (l ==ℤ e.layer_idx)) [
  | inl here ↦ rw here (
    All-append (λ u. u.layer_idx ≡ l) es (e ∷ []) a.0 (sym ((==ℤ_iff l e.layer_idx).0 here), tt),
    a.1,
  )
  | inr other ↦ rw other (a.0, push_layer-All e gs a.1)
]

push_entry-IsSound :
    (s : Storage) (e : ManifestEntry)
    → IsGenuine s.model_config.num_experts e
    → IsSound s
    → IsSound (push_entry s e)
unfolding push_entry
push_entry-IsSound s e g h = record {
  entries = All-append (IsGenuine s.model_config.num_experts) s.manifest (e ∷ []) h.entries (g, tt);
  groups =
      if_either (All IsGroup) s.enabled (push_layer e s.layer_experts) s.layer_experts
        (push_layer-All e s.layer_experts h.groups) h.groups;
}

scan_tensors-IsSound :
    (off : ℕ) (ts : List GgufTensor) (s : Storage) → IsSound s → IsSound (scan_tensors off ts s)
unfolding scan_tensors
scan_tensors-IsSound off [] s h = h
scan_tensors-IsSound off (t ∷ ts) s h =
    elim (Option-cases (manifest_entry s.dense_enabled s.model_config.num_experts off t)) [
      | inl skipped ↦ rw skipped (scan_tensors-IsSound off ts s h)
      | inr (e, found) ↦ rw found (
          scan_tensors-IsSound off ts (push_entry s e) (
            push_entry-IsSound s e
              (manifest_entry-IsGenuine s.dense_enabled s.model_config.num_experts off t e found)
              h))
    ]

scan_shards-IsSound :
    (gs : List (Option Gguf)) (s : Storage) → IsSound s → IsSound (scan_shards gs s)
unfolding scan_shards
scan_shards-IsSound [] s h = h
scan_shards-IsSound (none ∷ gs) s h = scan_shards-IsSound gs s h
scan_shards-IsSound (some g ∷ gs) s h =
    scan_shards-IsSound gs (scan_tensors g.data_offset g.tensors s)
      (scan_tensors-IsSound g.data_offset g.tensors s h)

-- parse_gguf_manifest keeps a manifest sound: an entry counts the model's experts unless it is not
-- fused or the model has no more than one, its slices fit its bytes, and the entries of a layer's
-- group are that layer's.
pub parse_gguf_manifest-IsSound :
    (read : String → Option Gguf) (shards : List String) (s : Storage)
    → IsSound s
    → IsSound (parse_gguf_manifest read shards s)
unfolding parse_gguf_manifest
parse_gguf_manifest-IsSound read shards s h =
    if_either IsSound (not s.enabled && not s.dense_enabled) s (scan_shards (map read shards) s) h
      (scan_shards-IsSound (map read shards) s h)
