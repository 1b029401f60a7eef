-- ===== src/Tests/Router.antt =====
-- The router and the executor at concrete inputs.
use guanaco.Base.{◌≡◌, refl, true, false, none, some, [], ◌∷◌, ℕ, arith, pos, ltb, Bool, range}
use guanaco.Base.Sort.{sort}
use guanaco.Herd.{HerdCache, is_pinned, allocate_slot}
use guanaco.Storage.{ManifestEntry, Storage}
use guanaco.Storage.Reads.{value, entries_of, entry_for, prepare}
use guanaco.Storage.Start.{fresh_storage}
use guanaco.Router.{
  best, is_in_manifest, give_slot, fill_slot, read_buffer, choices, decide, unique,
  prefetch_selected, key_of,
}
use guanaco.Router.Choice.{IsTopChoice, best-IsTopChoice}
use guanaco.Router.Selected.{IsSelection, decide-IsSelection}
use guanaco.Router.Room.{Fits, prefetch_selected-Fits}
use guanaco.Executor.{Executor, ExecutorConfig, fresh_cache, loader_config, evaluate_token}
use guanaco.Executor.Pass.{Decided, pass_of, evaluate_token-Decided}

-- Whole numbers for floats.
abbrev higher_than : ℕ → ℕ → Bool
higher_than a b = ltb b a

abbrev logits : ℕ → ℕ
logits e = e

best-IsTopChoice_example : IsTopChoice higher_than 2 logits 4 (best higher_than 2 logits 4)
best-IsTopChoice_example =
    best-IsTopChoice higher_than 2 logits 4 (omega arith) (λ a b h. ground arith)
      (λ a b c h k. ground arith)

-- More choices than experts are undefined.
too_many : best higher_than 5 logits 4 ≡ none
unfolding best
too_many = refl

decide-IsSelection_example :
    IsSelection higher_than 2 2 3
      (choices higher_than 2 logits 3 0 2)
      (decide higher_than 2 (pos 0) logits 2 3)
decide-IsSelection_example = decide-IsSelection higher_than 2 (pos 0) logits 2 3 (omega arith)

-- Where the buffers lie.
abbrev at_offset : ManifestEntry → ℕ
at_offset e = e.file_offset

abbrev config : ExecutorConfig
config = record {
  model_path = "m.gguf";
  max_active_experts = 2;
  use_madvise = true;
  num_layers = pos 2;
  num_experts = pos 8;
  top_k = pos 2;
}

empty-Fits : Fits 2 (fresh_cache config)
empty-Fits = record {
  tidy = record { same = λ j. refl; once = λ j. omega arith; size = refl };
  limit = refl;
  size = omega arith;
}

prefetch_selected-Fits_example :
    Fits 2
      (prefetch_selected at_offset
        (λ e. value)
        (fresh_storage (loader_config config))
        none
        (pos 0)
        (1 ∷ 5 ∷ 7 ∷ [])
        (fresh_cache config)).0
prefetch_selected-Fits_example =
    prefetch_selected-Fits at_offset (λ e. value) (fresh_storage (loader_config config)) 2 none
      (pos 0) (1 ∷ 5 ∷ 7 ∷ []) (fresh_cache config) (omega arith) empty-Fits

-- An expert that is in the cache is not touched, and gives way to the next one.
abbrev both : HerdCache
both = allocate_slot (key_of (pos 0) 4) (allocate_slot (key_of (pos 0) 1) (fresh_cache config))

selected_and_gone :
    is_pinned
      (key_of (pos 0) 1)
      (prefetch_selected at_offset
        (λ e. value)
        (fresh_storage (loader_config config))
        none
        (pos 0)
        (1 ∷ 5 ∷ [])
        both).0
    ≡ false
unfolding prefetch_selected is_pinned allocate_slot give_slot fill_slot
selected_and_gone = refl

abbrev running : Executor ℕ
running = record {
  config = config;
  loader = fresh_storage (loader_config config);
  router = record {
    top_k = 2;
    has_callback = true;
    manifest = some [];
    cache = some (fresh_cache config);
    loader = some (fresh_storage (loader_config config));
    decisions = [];
  };
  initialized = true;
}

evaluate_token-Decided_example :
    Decided 2
      (pass_of higher_than at_offset (λ e. value) logits 2 8 0 2)
      running
      (evaluate_token higher_than at_offset (λ e. value) logits running)
evaluate_token-Decided_example =
    evaluate_token-Decided higher_than at_offset (λ e. value) logits 2 running (omega arith) refl
      (omega arith) refl empty-Fits

-- The weights stand in the order of the choice, the experts in their own.
the_weights :
    decide higher_than 2 (pos 0) logits 1 8
    ≡ some (record {
      selected_experts = 6 ∷ 7 ∷ [];
      expert_weights = 7 ∷ 6 ∷ [];
      layer_idx = pos 0;
      num_tokens = 1;
      top_k = 2;
    })
unfolding decide choices best unique sort range
the_weights = refl

-- A read that is over leaves its buffer in the cache, with its bytes and ready.
abbrev expert_1 : ManifestEntry
expert_1 = record {
  tensor_name = "blk.0.ffn_up.experts.1.weight";
  file_offset = 4096;
  byte_size = 800;
  layer_idx = pos 0;
  expert_idx = pos 1;
  tensor_type = pos 0;
  quantization_type = "q4_0";
  num_experts_in_tensor = pos 1;
  expert_slice_size = 0;
  tensor_dims = 1 ∷ 1 ∷ 1 ∷ 1 ∷ [];
  tensor_n_dims = 1;
}

abbrev with_expert_1 : Storage
with_expert_1 = record (fresh_storage (loader_config config)) {
  layer_experts = (pos 0, expert_1 ∷ []) ∷ [];
}

read_and_ready :
    (prefetch_selected at_offset
      (λ e. value)
      with_expert_1
      (some (expert_1 ∷ []))
      (pos 0)
      (1 ∷ [])
      (fresh_cache config)).0.active_experts
    ≡ (
      key_of (pos 0) 1,
      record {
        expert_id = pos 1;
        layer = pos 0;
        data_addr = 4096;
        data_size = 800;
        is_ready = true;
      },
    )
      ∷ []
unfolding prefetch_selected is_pinned allocate_slot give_slot fill_slot is_in_manifest entries_of
    entry_for read_buffer prepare
read_and_ready = refl
