-- ===== src/Storage/Manifest/Agree.antt =====
-- src/guanaco_manifest.cpp, parse_gguf_expert_manifest, against src/guanaco_steppeloader.cpp,
-- parse_gguf_manifest: two scans of the same tensors.
use guanaco.Base.{
  ℕ, ◌≡◌, inl, inr, refl, true, false, ◌&&◌, not, Option, none, some, ℤ, pos, ltb_ℤ, arith,
  Bool-cases, Option-cases,
}
use guanaco.Storage.{ManifestEntry}
use guanaco.Storage.Names.{classify_name, names_experts, layer_of, expert_of, marker, block_layer}
use guanaco.Storage.Manifest.Standalone.{
  is_expert_tensor, standalone_layer, standalone_expert, marked_expert, expert_entry,
}
use guanaco.Text.{strstr}
use Prim.Native.String.{String}
use mathlib.Core.Path.{subst}
use guanaco.Storage.Manifest.{
  GgufTensor, is_mistaken, is_listed, entry_of, manifest_entry, trailing_dim,
}

-- The same bytes, for the same layer and expert.
pub record IsSameSlot (e e' : ManifestEntry) : Type 0 where
  pub tensor_name : e.tensor_name ≡ e'.tensor_name
  pub file_offset : e.file_offset ≡ e'.file_offset
  pub byte_size : e.byte_size ≡ e'.byte_size
  pub layer_idx : e.layer_idx ≡ e'.layer_idx
  pub expert_idx : e.expert_idx ≡ e'.expert_idx
  pub quantization_type : e.quantization_type ≡ e'.quantization_type

-- Where the first lists a tensor, the second lists it in the same slot.
abbrev pub Agree : Option ManifestEntry → Option ManifestEntry → Type 0
Agree none e' = Unit {0}
Agree (some e) none = ⊥
Agree (some e) (some e') = IsSameSlot e e'

-- The two readings of a name.
pub standalone_layer-layer_of : (name : String) → standalone_layer name ≡ layer_of name
unfolding standalone_layer layer_of marker
standalone_layer-layer_of name = elim (Option-cases (strstr name "blk.")) [
  | inr (at, first) ↦ rw (first, standalone_layer, layer_of, marker) refl
  | inl no_block ↦ elim (Option-cases (strstr name "layers.")) [
    | inr (at, second) ↦ rw (no_block, second, standalone_layer, layer_of, marker) refl
    | inl neither ↦ rw (no_block, neither, standalone_layer, layer_of, marker) refl
  ]
]

standalone_expert-expert_of : (name : String) → standalone_expert name ≡ expert_of name
unfolding standalone_expert expert_of marker marked_expert
standalone_expert-expert_of name = elim (Option-cases (strstr name ".experts.")) [
  | inr (at, first) ↦ elim (Option-cases (strstr at ".experts.")) [
    | inr (r, again) ↦ rw (first, again, standalone_expert, expert_of, marker, marked_expert) refl
    | inl once ↦ rw (first, once, standalone_expert, expert_of, marker, marked_expert) refl
  ]
  | inl no_name ↦ elim (Option-cases (strstr name "exps.")) [
    | inr (at, second) ↦ elim (Option-cases (strstr at ".experts.")) [
      | inr (r, later) ↦
          rw (no_name, second, later, standalone_expert, expert_of, marker, marked_expert) refl
      | inl none_ ↦
          rw (no_name, second, none_, standalone_expert, expert_of, marker, marked_expert) refl
    ]
    | inl neither ↦ rw (no_name, neither, standalone_expert, expert_of, marker) refl
  ]
]

is_expert_tensor-names_experts : (name : String) → is_expert_tensor name ≡ names_experts name
unfolding is_expert_tensor names_experts
is_expert_tensor-names_experts name = refl

-- Where the standalone manifest lists a tensor that the loader does not skip for its number of
-- experts, the loader without layer windows lists it too, with the same name, place, size, layer,
-- expert and quantization.
pub expert_entry-Agree :
    (model : ℤ) (off : ℕ) (t : GgufTensor)
    → is_mistaken (trailing_dim t.ne) model ≡ false
    → Agree (expert_entry off t) (manifest_entry false model off t)
unfolding expert_entry manifest_entry entry_of classify_name is_listed block_layer
expert_entry-Agree model off t ok = elim (Option-cases t.name) [
  | inl none_ ↦ rw (none_, expert_entry) tt
  | inr (name, some_) ↦
      elim (Bool-cases (is_expert_tensor name && not (ltb_ℤ (standalone_layer name) (pos 0)))) [
        | inr out ↦ rw (some_, out, expert_entry) tt
        | inl in_ ↦
            let l = standalone_layer-layer_of name in
            let e = standalone_expert-expert_of name in
            let n = is_expert_tensor-names_experts name in
            let expert : names_experts name ≡ true = ground (arith, in_, n) in
            let placed : ltb_ℤ (layer_of name) (pos 0) ≡ false =
              let p : ltb_ℤ (standalone_layer name) (pos 0) ≡ false = ground (arith, in_) in
              subst (λ z. ltb_ℤ z (pos 0) ≡ false) l p in
            rw
              (
                some_, in_, ok, expert, placed, expert_entry, manifest_entry, entry_of,
                classify_name, is_listed, block_layer,
              )
              (record {
                tensor_name = refl;
                file_offset = refl;
                byte_size = refl;
                layer_idx = l;
                expert_idx = e;
                quantization_type = refl;
              })
      ]
]
