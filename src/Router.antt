-- ===== src/Router.antt =====
-- src/guanaco_router.cpp: the choice of the experts of a layer from the router's logits, and their
-- prefetch through HerdCache.
--
-- float is a type with its comparison, a parameter. A pointer to logits is the function that reads it.
-- With top_k > num_experts std::partial_sort and scores[k] go past the end, which is undefined: the
-- choice is none then, and so is all that needs it. A future is what it comes to, and the buffer of a
-- read is what it is when the read is over. The address that resize gives a buffer is a parameter.
pub mod Choice
pub mod Selected
pub mod Room
use guanaco.Base.{
  ℕ, zero, suc, ◌+◌, ◌*◌, Bool, true, false, ◌&&◌, ◌||◌, not, Option, none, some, List, [], ◌∷◌,
  ◌++◌, map, take, if◌then◌else◌, ltb, leb, ◌==◌, ℤ, pos, ◌==ℤ◌, range,
}
use guanaco.Base.Sort.{sort}
use guanaco.Herd.{HerdCache, ExpertKey, ExpertTensorBuffer, allocate_slot, is_pinned, put_active}
use guanaco.Storage.{ManifestEntry, Storage}
use guanaco.Storage.Reads.{Outcome, value, error, prepare, entries_of, entry_for, prefetch_expert}

pub record RouterOutput (F : Type 0) : Type 0 where
  pub selected_experts : List ℕ
  pub expert_weights : List F
  pub layer_idx : ℤ
  pub num_tokens : ℕ
  pub top_k : ℕ

-- config_, and the parts that are set; `decisions` is what on_router_decision has been called with.
pub record Router (F : Type 0) : Type 0 where
  pub top_k : ℕ
  pub has_callback : Bool
  pub manifest : Option (List ManifestEntry)
  pub cache : Option HerdCache
  pub loader : Option Storage
  pub decisions : List (RouterOutput F)

-- std::unique with erase
unfoldable pub unique : List ℕ → List ℕ
unique [] = []
unique (x ∷ []) = x ∷ []
unique (x ∷ y ∷ ys) = let rest = unique (y ∷ ys) in if x == y then rest else x ∷ rest

-- for (const auto& entry : *manifest_): one of that layer and expert
unfoldable pub is_in_manifest : ℤ → ℕ → List ManifestEntry → Bool
is_in_manifest layer e [] = false
is_in_manifest layer e (m ∷ ms) =
    (m.layer_idx ==ℤ layer && m.expert_idx ==ℤ pos e) || is_in_manifest layer e ms

abbrev pub key_of : ℤ → ℕ → ExpertKey
key_of layer e = record { layer_idx = layer; expert_idx = pos e }

abbrev pub listed_in : ℤ → ℕ → Option (List ManifestEntry) → Bool
listed_in layer e none = false
listed_in layer e (some ms) = is_in_manifest layer e ms

-- target_buf->is_ready = true, at the end of a read without an exception
abbrev reads_well : Outcome → Bool
reads_well value = true
reads_well (error what) = false

module _ (address : ManifestEntry → ℕ) (read : ManifestEntry → Outcome) (s : Storage) where
  -- The buffer that the loader has read an entry into.
  unfoldable pub read_buffer : ManifestEntry → ExpertTensorBuffer
  read_buffer m = record (prepare (address m) m) { is_ready = reads_well (read m) }

  -- loader_->prefetch_expert(layer_idx, expert_id, buf), for the buffer: it is left alone where the
  -- loader has no such expert.
  unfoldable pub fill_slot : ℤ → ℕ → HerdCache → HerdCache
  unfolding read_buffer
  fill_slot layer e c = elim (entries_of layer s.layer_experts) [
    | none ↦ c
    | some ms ↦ elim (entry_for (pos e) ms) [
      | none ↦ c
      | some m ↦ record c {
        active_experts = put_active (key_of layer e) (read_buffer m) c.active_experts;
      }
    ]
  ]

  -- The round for an expert that has no slot.
  unfoldable pub give_slot : Option (List ManifestEntry) → ℤ → ℕ → HerdCache → HerdCache
  unfolding fill_slot
  give_slot ms layer e c =
      let given = allocate_slot (key_of layer e) c in
      if listed_in layer e ms then fill_slot layer e given else given

  -- prefetch_experts: the cache, and the futures. All of them are waited for.
  unfoldable pub prefetch_selected :
      Option (List ManifestEntry) → ℤ → List ℕ → HerdCache → HerdCache × List Outcome
  prefetch_selected ms layer [] c = (c, [])
  prefetch_selected ms layer (e ∷ es) c =
      let fresh = not (is_pinned (key_of layer e) c) in
      let (c', futures) =
        prefetch_selected ms layer es (if fresh then give_slot ms layer e c else c) in
      (
        c',
        if fresh && listed_in layer e ms
            then prefetch_expert read s layer (pos e) ∷ futures
            else futures,
      )

module _ {F : Type 0} (gt : F → F → Bool) where
  abbrev pub scores : (ℕ → F) → ℕ → List (F × ℕ)
  scores logits num_experts = map (λ e. (logits e, e)) (range num_experts)

  abbrev pub higher : F × ℕ → F × ℕ → Bool
  higher a b = gt a.0 b.0

  -- The best of one token, the best first.
  unfoldable pub best : ℕ → (ℕ → F) → ℕ → Option (List (F × ℕ))
  best top_k logits num_experts =
      if leb top_k num_experts
      then some (take top_k (sort higher (scores logits num_experts)))
      else none

  -- top_k_indices
  unfoldable pub top_k_indices : (ℕ → F) → ℕ → ℕ → Option (List ℕ)
  unfolding best
  top_k_indices logits num_experts top_k = elim (best top_k logits num_experts) [
    | none ↦ none
    | some chosen ↦ some (map (λ (p : F × ℕ). p.1) chosen)
  ]

  -- The choices of the tokens from `t` on.
  unfoldable pub choices : ℕ → (ℕ → F) → ℕ → ℕ → ℕ → Option (List (F × ℕ))
  choices top_k logits num_experts t zero = some []
  choices top_k logits num_experts t (suc left) =
      elim (best top_k (λ e. logits (t * num_experts + e)) num_experts) [
        | none ↦ none
        | some here ↦ elim (choices top_k logits num_experts (suc t) left) [
          | none ↦ none
          | some later ↦ some (here ++ later)
        ]
      ]

  unfoldable pub decide : ℕ → ℤ → (ℕ → F) → ℕ → ℕ → Option (RouterOutput F)
  decide top_k layer logits num_tokens num_experts =
      elim (choices top_k logits num_experts 0 num_tokens) [
        | none ↦ none
        | some chosen ↦ some (record {
          selected_experts = unique (sort ltb (map (λ (p : F × ℕ). p.1) chosen));
          expert_weights = map (λ (p : F × ℕ). p.0) chosen;
          layer_idx = layer;
          num_tokens = num_tokens;
          top_k = top_k;
        })
      ]

  module _ (address : ManifestEntry → ℕ) (read : ManifestEntry → Outcome) where
    -- if (cache_ && loader_) prefetch_experts(…)
    unfoldable pub refreshed :
        Option HerdCache
        → Option Storage
        → Option (List ManifestEntry)
        → ℤ
        → List ℕ
        → Option HerdCache
    refreshed none s ms layer es = none
    refreshed (some c) none ms layer es = some c
    refreshed (some c) (some s) ms layer es =
        some (prefetch_selected address read s ms layer es c).0

    -- What follows the decision.
    unfoldable pub announce : Router F → RouterOutput F → Router F
    unfolding refreshed
    announce r output = record r {
      decisions = if r.has_callback then r.decisions ++ output ∷ [] else r.decisions;
      cache = refreshed r.cache r.loader r.manifest output.layer_idx output.selected_experts;
    }

    unfoldable pub intercept_router : Router F → ℤ → (ℕ → F) → ℕ → ℕ → Option (Router F)
    intercept_router r layer logits num_tokens num_experts =
        elim (decide r.top_k layer logits num_tokens num_experts) [
          | none ↦ none
          | some output ↦ some (announce r output)
        ]

-- get_selected_experts and get_expert_weights: pending_outputs_ is never filled, and both are empty.
unfoldable pub get_selected_experts : {F : Type 0} → Router F → List ℕ
get_selected_experts r = []

unfoldable pub get_expert_weights : {F : Type 0} → Router F → List F
get_expert_weights r = []
