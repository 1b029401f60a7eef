-- ===== src/Executor/Pass.antt =====
-- src/guanaco_executor.cpp, evaluate_token: the decisions of a pass, and the cache after it.
use mathlib.Core.Path.{subst}
use guanaco.Base.{
  ℕ, zero, suc, ◌<◌, ◌≤◌, ◌≡◌, refl, sym, ap, ◌∙◌, Bool, true, not, Option, none, some, List, [],
  ◌∷◌, ◌++◌, ℤ, pos, if◌then◌else◌,
}
use guanaco.Herd.{HerdCache}
use guanaco.Storage.{ManifestEntry, Storage}
use guanaco.Storage.Reads.{Outcome}
use guanaco.Router.{RouterOutput, intercept_router, announce, decide, refreshed}
use guanaco.Router.Selected.{decide-IsSelection}
use guanaco.Router.Room.{Fits, prefetch_selected-Fits}
use guanaco.Executor.{
  Executor, evaluate_moe_layer, evaluate_layers, evaluate_token, known_or, size_of,
}

-- The cache, if there is one, is tidy and under its limit.
abbrev pub CacheFits : ℕ → Option HerdCache → Type 0
CacheFits max none = Unit {0}
CacheFits max (some c) = Fits max c

-- What the passes over the layers leave of a router: one decision for each layer, in order.
pub record Decided {F : Type 0} (max : ℕ) (told : Option (List (RouterOutput F))) (x : Executor F)
    (answer : Option (Executor F)) : Type 0 where
  pub outputs : List (RouterOutput F)
  pub after : Executor F
  pub chosen : told ≡ some outputs
  pub returns : answer ≡ some after
  pub decisions : after.router.decisions ≡ x.router.decisions ++ outputs
  pub top_k : after.router.top_k ≡ x.router.top_k
  pub has_callback : after.router.has_callback ≡ x.router.has_callback
  pub cache : CacheFits max after.router.cache

append_nil {ℓ} : {A : Type ℓ} (xs : List A) → xs ++ [] ≡ xs
append_nil [] = refl
append_nil (x ∷ xs) = ap (λ ys. x ∷ ys) (append_nil xs)

append_one {ℓ} :
    {A : Type ℓ} (xs : List A) (y : A) (zs : List A) → (xs ++ y ∷ []) ++ zs ≡ xs ++ y ∷ zs
append_one [] y zs = refl
append_one (x ∷ xs) y zs = ap (λ ys. x ∷ ys) (append_one xs y zs)

module _ {F : Type 0} (gt : F → F → Bool) (address : ManifestEntry → ℕ)
    (read : ManifestEntry → Outcome) where
  refreshed-CacheFits :
      (max : ℕ) (c : Option HerdCache) (s : Option Storage) (ms : Option (List ManifestEntry))
      (layer : ℤ) (es : List ℕ)
      → 0 < max
      → CacheFits max c
      → CacheFits max (refreshed gt address read c s ms layer es)
  unfolding refreshed
  refreshed-CacheFits max none s ms layer es some_room f = tt
  refreshed-CacheFits max (some c) none ms layer es some_room f = f
  refreshed-CacheFits max (some c) (some s) ms layer es some_room f =
      prefetch_selected-Fits address read s max ms layer es c some_room f

  module _ (logits : ℕ → F) where
    -- The decisions for the layers from `layer` on.
    unfoldable pub pass_of : ℕ → ℕ → ℕ → ℕ → Option (List (RouterOutput F))
    pass_of top_k n layer zero = some []
    pass_of top_k n layer (suc left) = elim (decide gt top_k (pos layer) logits 1 n) [
      | none ↦ none
      | some first ↦ elim (pass_of top_k n (suc layer) left) [
        | none ↦ none
        | some rest ↦ some (first ∷ rest)
      ]
    ]

    abbrev pub experts_of : Executor F → ℕ
    experts_of x = size_of (known_or x.loader.model_config.num_experts x.config.num_experts)

    evaluate_layers-Decided :
        (max layer left : ℕ) (x : Executor F)
        → 0 < max
        → x.router.top_k ≤ experts_of x
        → x.router.has_callback ≡ true
        → CacheFits max x.router.cache
        → Decided max
            (pass_of x.router.top_k (experts_of x) layer left)
            x
            (evaluate_layers gt address read logits layer left x)
    unfolding evaluate_layers evaluate_moe_layer intercept_router announce pass_of
    evaluate_layers-Decided max layer zero x some_room within told f = record {
      outputs = [];
      after = x;
      chosen = refl;
      returns = refl;
      decisions = sym (append_nil x.router.decisions);
      top_k = refl;
      has_callback = refl;
      cache = f;
    }
    evaluate_layers-Decided max layer (suc left) x some_room within told f =
        let made =
          decide-IsSelection gt x.router.top_k (pos layer) logits 1 (experts_of x) within in
        let first = made.output in
        let next = record x { router = announce gt address read x.router first } in
        let rest = evaluate_layers-Decided max (suc layer) left next some_room within told (
          refreshed-CacheFits max x.router.cache x.router.loader x.router.manifest first.layer_idx
            first.selected_experts some_room f) in
        let spoke : next.router.decisions ≡ x.router.decisions ++ first ∷ [] =
          ap (λ b. if b then x.router.decisions ++ first ∷ [] else x.router.decisions) told in
        record {
          outputs = first ∷ rest.outputs;
          after = rest.after;
          chosen = rw (made.decided, pass_of, rest.chosen) refl;
          returns =
              rw (made.decided, evaluate_layers, evaluate_moe_layer, intercept_router) rest.returns;
          decisions =
              rest.decisions
              ∙ ap (λ ds. ds ++ rest.outputs) spoke
              ∙ append_one x.router.decisions first rest.outputs;
          top_k = rest.top_k;
          has_callback = rest.has_callback;
          cache = rest.cache;
        }

    -- On an executor that is initialized, whose router has a callback and a top_k of at most the
    -- number of experts, and whose cache, if there is one, is tidy and under a limit that is not
    -- 0, evaluate_token returns, makes one router decision for each layer, in the order of the
    -- layers, and leaves the cache tidy and under its limit.
    pub evaluate_token-Decided :
        (max : ℕ) (x : Executor F)
        → 0 < max
        → x.initialized ≡ true
        → x.router.top_k ≤ experts_of x
        → x.router.has_callback ≡ true
        → CacheFits max x.router.cache
        → Decided max
            (pass_of x.router.top_k
              (experts_of x)
              0
              (size_of (known_or x.loader.model_config.num_hidden_layers x.config.num_layers)))
            x
            (evaluate_token gt address read logits x)
    unfolding evaluate_token
    evaluate_token-Decided max x some_room ready within told f =
        let layers =
          size_of (known_or x.loader.model_config.num_hidden_layers x.config.num_layers) in
        subst
          (λ b.
            Decided max (pass_of x.router.top_k (experts_of x) 0 layers) x
              (if not b then some x else evaluate_layers gt address read logits 0 layers x))
          (sym ready) (evaluate_layers-Decided max 0 layers x some_room within told f)
