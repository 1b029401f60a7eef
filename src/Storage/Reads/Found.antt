-- ===== src/Storage/Reads/Found.antt =====
-- src/guanaco_steppeloader.cpp: the entry that a single expert is read by, and what the joint future
-- says.
use guanaco.Base.{◌≡◌, ◌⊎◌, some, List, [], ◌∷◌, ℤ, ◌==ℤ◌, All, false}
use guanaco.Storage.{ManifestEntry, Storage}
use guanaco.Storage.Reads.{Outcome, error, entries_of, entry_for}

-- What the read of the first entry listed for an expert of a layer came to.
pub record Reads (read : ManifestEntry → Outcome) (s : Storage) (layer expert : ℤ) (o : Outcome)
    : Type 0 where
  pub entries : List ManifestEntry
  pub entry : ManifestEntry
  pub group : entries_of layer s.layer_experts ≡ some entries
  pub first : entry_for expert entries ≡ some entry
  pub layer_same : entry.layer_idx ≡ layer
  pub expert_same : entry.expert_idx ≡ expert
  pub outcome : o ≡ read entry

-- The layer is not listed, or its group lacks the expert.
abbrev pub Unlisted : Storage → ℤ → ℤ → Outcome → Type 0
Unlisted s layer expert o =
    ((o ≡ error "Layer not found")
      × All (λ (g : ℤ × List ManifestEntry). (g.0 ==ℤ layer) ≡ false) s.layer_experts)
    ⊎ ((o ≡ error "Expert not found")
        × ((es : List ManifestEntry) × (entries_of layer s.layer_experts ≡ some es)
            × All (λ e. (e.expert_idx ==ℤ expert) ≡ false) es))

-- One outcome for each expert.
abbrev pub Answers : (ManifestEntry → Outcome) → Storage → ℤ → List ℤ → List Outcome → Type 0
Answers read s layer [] [] = Unit {0}
Answers read s layer [] (o ∷ os) = ⊥
Answers read s layer (x ∷ xs) [] = ⊥
Answers read s layer (x ∷ xs) (o ∷ os) =
    (Reads read s layer x o ⊎ Unlisted s layer x o) × Answers read s layer xs os
