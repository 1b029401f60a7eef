-- ===== src/Storage/Reads.antt =====
-- src/guanaco_steppeloader.cpp, the two functions for single experts, prefetch_expert and
-- read_expert_async, and prefetch_experts over futures: which bytes are asked for, and what the
-- futures say. What a reading thread comes to is a parameter here; Race is its steps.
use Prim.Native.String.{String}
pub mod Race
pub mod Found
use guanaco.Base.{
  ℕ, ◌+◌, ◌*◌, Bool, true, false, Option, none, some, List, [], ◌∷◌, if◌then◌else◌, ltb, ◌==◌, ℤ,
  pos, negsuc, ◌==ℤ◌, length,
}
use guanaco.Base.Words.{add64, mul64}
use guanaco.Herd.{ExpertTensorBuffer}
use guanaco.Storage.{ManifestEntry, Storage}

-- A future's state in the end: a value, or an exception with its text.
pub data Outcome : Type 0 where
  value : Outcome
  error : String → Outcome

-- The bytes to be read.
pub record ReadPlan : Type 0 where
  pub offset : ℕ
  pub size : ℕ

-- slice_size and slice_offset
unfoldable pub plan_of : ManifestEntry → ReadPlan
plan_of e =
    let size = if ltb 0 e.expert_slice_size then e.expert_slice_size else e.byte_size in
    record {
      offset = elim e.expert_idx [
        | pos i ↦ add64 e.file_offset (mul64 i size)
        | negsuc _ ↦ e.file_offset
      ];
      size = size;
    }

-- target_buf before the thread starts; resize gives its bytes an address.
unfoldable pub prepare : ℕ → ManifestEntry → ExpertTensorBuffer
unfolding plan_of
prepare addr e = record {
  expert_id = e.expert_idx;
  layer = e.layer_idx;
  data_addr = addr;
  data_size = (plan_of e).size;
  is_ready = false;
}

-- layer_experts_.find(layer)
unfoldable pub entries_of : ℤ → List (ℤ × List ManifestEntry) → Option (List ManifestEntry)
entries_of layer [] = none
entries_of layer ((l, es) ∷ rest) = if l ==ℤ layer then some es else entries_of layer rest

-- The first entry of that expert.
unfoldable pub entry_for : ℤ → List ManifestEntry → Option ManifestEntry
entry_for expert [] = none
entry_for expert (e ∷ es) = if e.expert_idx ==ℤ expert then some e else entry_for expert es

-- The future of one expert; `read` is what the thread comes to on an entry.
unfoldable pub prefetch_expert : (ManifestEntry → Outcome) → Storage → ℤ → ℤ → Outcome
unfolding entries_of entry_for
prefetch_expert read s layer expert = elim (entries_of layer s.layer_experts) [
  | none ↦ error "Layer not found"
  | some es ↦ elim (entry_for expert es) [ none ↦ error "Expert not found" | some e ↦ read e ]
]

-- The futures of several experts.
unfoldable pub outcomes : (ManifestEntry → Outcome) → Storage → ℤ → List ℤ → List Outcome
unfolding prefetch_expert
outcomes read s layer [] = []
outcomes read s layer (x ∷ xs) = prefetch_expert read s layer x ∷ outcomes read s layer xs

-- The overload with futures: the joint one, and the single ones that it waits for; `bufs` is the number
-- of buffers. f.wait() neither throws nor looks at an outcome, so that set_value follows the last.
unfoldable pub prefetch_futures :
    (ManifestEntry → Outcome) → Storage → ℤ → List ℤ → ℕ → Outcome × List Outcome
unfolding outcomes
prefetch_futures read s layer experts bufs =
    if length experts == bufs
    then (value, outcomes read s layer experts)
    else (error "Size mismatch", [])
