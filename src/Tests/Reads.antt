-- ===== src/Tests/Reads.antt =====
-- Reads of single experts at concrete inputs.
use guanaco.Base.{◌≡◌, refl, false, some, [], ◌∷◌, ◌+◌, ℤ, List, arith, pos, map, get_elem?}
use guanaco.Storage.Reads.{
  ReadPlan, value, error, prefetch_futures, prefetch_expert, entries_of, entry_for,
}
use guanaco.Storage.Reads.Race.{
  Readers, Thread, works, gives, schedule, call, settled, start, ready,
}
use guanaco.Storage.Reads.Race.Alone.{read_alone, tiles}
use guanaco.Storage.Reads.Race.Outcome.{reads_alone_finish, first_reads_second}
use guanaco.Storage.Start.{fresh_storage}
use guanaco.Storage.{ManifestEntry, Storage, StorageConfig}

abbrev config : StorageConfig
config = record {
  gguf_path = "m.gguf";
  dense_streaming = false;
  dense_budget_bytes = 0;
  dense_budget_auto = false;
}

abbrev expert_1 : ManifestEntry
expert_1 = record {
  tensor_name = "blk.0.ffn_up.experts.1.weight";
  file_offset = 4096;
  byte_size = 800;
  layer_idx = pos 0;
  expert_idx = pos 1;
  tensor_type = pos 0;
  quantization_type = "q4_0";
  num_experts_in_tensor = pos 1;
  expert_slice_size = 0;
  tensor_dims = 1 ∷ 1 ∷ 1 ∷ 1 ∷ [];
  tensor_n_dims = 1;
}

abbrev with_expert_1 : Storage
with_expert_1 = record (fresh_storage config) { layer_experts = (pos 0, expert_1 ∷ []) ∷ [] }

abbrev asked : List ℤ
asked = pos 1 ∷ pos 2 ∷ []

-- A failed read and a missing expert, with a value in the joint future.
both_failed :
    prefetch_futures (λ e. error "read failed") with_expert_1 (pos 0) asked 2
    ≡ (value, error "read failed" ∷ error "Expert not found" ∷ [])
unfolding prefetch_futures prefetch_expert entries_of entry_for
both_failed = refl

abbrev first : ReadPlan
first = record { offset = 100; size = 2 }

abbrev second : ReadPlan
second = record { offset = 300; size = 2 }

abbrev readers : Readers
readers = record { position = 7; threads = start first ∷ start second ∷ [] }

abbrev done : Thread
done = record { plan = second; phase = ready; total_read = 2; pieces = (300, 1) ∷ (301, 1) ∷ [] }

read_alone_example : tiles 300 ((300, 1) ∷ (301, 1) ∷ []) ≡ some (300 + 2)
unfolding schedule call settled
read_alone_example =
    read_alone (works ∷ gives 0 ∷ gives 5 ∷ []) 1 readers second done refl refl refl

reads_alone_finish_example :
    (t : Thread) × (get_elem?
        (schedule (map (λ a. (1, a)) (works ∷ map gives (0 ∷ 0 ∷ []))) readers).threads
        1
      ≡ some t)
    × (t.phase ≡ ready)
    × (tiles 300 t.pieces ≡ some (300 + 2))
reads_alone_finish_example = reads_alone_finish (0 ∷ 0 ∷ []) 1 readers second refl (omega arith)

first_reads_second_example :
    get_elem?
      (schedule
        ((0, works) ∷ (1, works) ∷ (0, gives 2) ∷ [])
        (record { position = 7; threads = start first ∷ start second ∷ [] })).threads
      0
    ≡ some (record { plan = first; phase = ready; total_read = 2; pieces = (300, 2) ∷ [] })
first_reads_second_example = first_reads_second first second 7 (omega arith)
