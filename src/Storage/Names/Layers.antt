-- ===== src/Storage/Names/Layers.antt =====
-- src/guanaco_steppeloader.cpp, parse_gguf_manifest, and src/guanaco_manifest.cpp: the layer and the
-- expert that a name gives.
use Prim.Native.Char.{code}
use Prim.Native.String.{String, [], ◌∷◌}
use guanaco.Base.{◌≡◌, ◌∙◌, inl, inr, true, false, some, pos, arith, Option-cases, Bool-cases}
use guanaco.Text.{begins, strstr, contains, advance, int_at}
use guanaco.Text.Scan.{strstr-begins, strstr-none, contains-none, contains-strstr, int_at-word}
use guanaco.Storage.Names.{names_experts, classify_name, layer_of, expert_of, marker}
use guanaco.Storage.Manifest.Standalone.{standalone_layer}
use guanaco.Storage.Manifest.Agree.{standalone_layer-layer_of}

-- Four characters behind the start of "layers." stands its "r".
behind_layers : (s : String) → begins "layers." s ≡ true → int_at (advance 4 s) ≡ pos 0
unfolding begins advance
behind_layers [] h = absurd (cc)
behind_layers (a ∷ []) h = absurd (ground arith)
behind_layers (a ∷ b ∷ []) h = absurd (ground arith)
behind_layers (a ∷ b ∷ c ∷ []) h = absurd (ground arith)
behind_layers (a ∷ b ∷ c ∷ d ∷ []) h = absurd (ground arith)
behind_layers (a ∷ b ∷ c ∷ d ∷ e ∷ s) h =
    let r : code e ≡ 114 = ground arith in
    int_at-word e s (ground arith) (ground arith) (ground arith) (ground arith)

layer_of-layers :
    (name : String)
    → contains name "blk." ≡ false
    → contains name "layers." ≡ true
    → layer_of name ≡ pos 0
unfolding layer_of marker
layer_of-layers name no_block has =
    let first = contains-none name "blk." no_block in
    elim (Option-cases (strstr name "layers.")) [
      | inl absent ↦ absurd (cc (strstr-none name "layers." absent, has))
      | inr (at, found) ↦
          rw (first, found, layer_of, marker)
            (behind_layers at (strstr-begins name "layers." at found))
    ]

-- An expert tensor's name with "layers." and without "blk." is given layer 0 by both parsers,
-- whatever number stands in it.
pub classify_name-layers :
    (name : String)
    → names_experts name ≡ true
    → contains name "blk." ≡ false
    → contains name "layers." ≡ true
    → ((classify_name name).layer_idx ≡ pos 0) × (standalone_layer name ≡ pos 0)
unfolding classify_name
classify_name-layers name expert no_block has =
    let zero_ = layer_of-layers name no_block has in
    (rw (expert, classify_name) zero_, standalone_layer-layer_of name ∙ zero_)

behind_exps : (s : String) → begins "exps.weight" s ≡ true → int_at (advance 5 s) ≡ pos 0
unfolding begins advance
behind_exps [] h = absurd (cc)
behind_exps (a ∷ []) h = absurd (ground arith)
behind_exps (a ∷ b ∷ []) h = absurd (ground arith)
behind_exps (a ∷ b ∷ c ∷ []) h = absurd (ground arith)
behind_exps (a ∷ b ∷ c ∷ d ∷ []) h = absurd (ground arith)
behind_exps (a ∷ b ∷ c ∷ d ∷ e ∷ []) h = absurd (ground arith)
behind_exps (a ∷ b ∷ c ∷ d ∷ e ∷ f ∷ s) h =
    let w : code f ≡ 119 = ground arith in
    int_at-word f s (ground arith) (ground arith) (ground arith) (ground arith)

-- A name without ".experts." whose first "exps." begins "exps.weight" is given expert 0.
pub expert_of-fused :
    (name at : String)
    → contains name ".experts." ≡ false
    → strstr name "exps." ≡ some at
    → begins "exps.weight" at ≡ true
    → expert_of name ≡ pos 0
unfolding expert_of marker
expert_of-fused name at fused found ends =
    let first = contains-none name ".experts." fused in
    elim (Option-cases (strstr at ".experts.")) [
      | inl second ↦ rw (first, found, second, expert_of, marker) (behind_exps at ends)
      | inr (r, there) ↦ elim (Bool-cases (contains at ".experts.")) [
        | inl has ↦ absurd (cc (fused, contains-strstr name "exps." ".experts." at found has))
        | inr has_not ↦ absurd (cc (there, contains-none at ".experts." has_not))
      ]
    ]
