-- ===== src/Storage/Shards/Paths.antt =====
-- src/guanaco_steppeloader.cpp, build_shard_paths: the model's own file comes once.
use Prim.Native.String
use Prim.Native.String.{String}
use text.Mathlib.Text.{◌==◌ as str_eq}
use guanaco.Base.{
  ◌≡◌, refl, inl, inr, false, ◌&&◌, not, Option, List, [], ◌∷◌, arith, All, Bool-cases,
  Option-cases,
}
use guanaco.Storage.Shards.{
  is_sibling, siblings, shard_name, behind_last, first_chars, build_shard_paths,
}
use guanaco.Text.{advance}

siblings-others :
    (path dir prefix suffix : String) (nms : List String)
    → All (λ q. str_eq q path ≡ false) (siblings path dir prefix suffix nms)
unfolding siblings
siblings-others path dir prefix suffix [] = tt
siblings-others path dir prefix suffix (nm ∷ nms) =
    let rest = siblings-others path dir prefix suffix nms in
    elim (Bool-cases (is_sibling prefix suffix nm && not (str_eq (String.◌++◌ dir nm) path))) [
      | inl new ↦ rw (new, siblings) (ground (arith, new), rest)
      | inr old ↦ rw (old, siblings) rest
    ]

-- The list is the path and other paths.
pub record IsModel (path : String) (paths : List String) : Type 0 where
  pub others : List String
  pub split : paths ≡ path ∷ others
  pub distinct : All (λ q. str_eq q path ≡ false) others

pub build_shard_paths-IsModel :
    (listing : String → Option (List String)) (path : String)
    → IsModel path (build_shard_paths listing path)
unfolding build_shard_paths
build_shard_paths-IsModel listing path =
    let cut = behind_last 47 path in
    let dir = first_chars cut path in
    elim (Option-cases (shard_name (advance cut path))) [
      | inl none_ ↦
          rw (none_, build_shard_paths) (record { others = []; split = refl; distinct = tt })
      | inr ((prefix, suffix), sharded) ↦ elim (Option-cases (listing dir)) [
        | inl shut ↦
            rw (sharded, shut, build_shard_paths)
              (record { others = []; split = refl; distinct = tt })
        | inr (nms, open_) ↦
            rw (sharded, open_, build_shard_paths)
              (record {
                others = siblings path dir prefix suffix nms;
                split = refl;
                distinct = siblings-others path dir prefix suffix nms;
              })
      ]
    ]
