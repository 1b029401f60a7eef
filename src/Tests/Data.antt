-- ===== src/Tests/Data.antt =====
-- The parameters of the model, at concrete values.
use guanaco.Base.{ℕ, ◌+◌, ◌*◌, true, false, some, [], ◌∷◌, ltb, leb, pos, negsuc}
use guanaco.Madvise.{Kernel}
use guanaco.Expert.{Floats, ExpertTensor, Config, Ledger, Experts}

-- Pages of 4096 bytes, and a madvise() that never fails.
abbrev pub linux : Kernel
linux = record { page_bits = 12; accepts = λ c. true }

-- Whole numbers for floats.
abbrev pub whole : Floats ℕ
whole = record {
  zero_f = 0;
  one = 1;
  hit_decay = 1;
  hot_protect = 2;
  add_f = λ a b. a + b;
  mul_f = λ a b. a * b;
  gt = λ a b. ltb b a;
  le = λ a b. leb a b;
  mass_of = λ f n. f * n;
}

abbrev pub config : Config ℕ
config = record { max_active_experts = 1; use_pilot = true; pilot_mass = 1; use_imatrix = true }

abbrev pub ledger : Ledger
ledger = record {
  eclock = 5;
  evictions = 0;
  evict_hot = 0;
  evict_reread = 0;
  evict_log = [];
  expert_resident_bytes = 0;
  pin_hits = 0;
  warm_hits = 0;
  disk_miss = 0;
  pinned_total = 0;
  pinned_current = 0;
  advice = record { ops = 0; failures = 0; calls = [] };
}

-- Three experts of ten bytes, of which two are loaded: the second is the more recent.
abbrev pub tensor : ExpertTensor ℕ
tensor = record {
  name = "blk.0.ffn_up_exps";
  layer = pos 0;
  file_offset = 0;
  byte_size = 30;
  num_experts = 3;
  per_expert_bytes = 10;
  mmap_base = some 8192;
  loaded = true ∷ true ∷ false ∷ [];
  total_hits = 1 ∷ 4 ∷ 0 ∷ [];
  window_hits = 0 ∷ 0 ∷ 0 ∷ [];
  pinned = false ∷ false ∷ false ∷ [];
  last_used = 1 ∷ 4 ∷ 0 ∷ [];
  trans = [];
  budget = 1;
}

abbrev pub empty : Experts ℕ
empty = record {
  config = config;
  enabled = true;
  fd_open = true;
  tensors = [];
  moe_layers = [];
  ledger = ledger;
  expert_budget_bytes = 15;
  routing_records = 0;
  prefetch_calls = 0;
  pilot_calls = 0;
  pilot_slice_reads = 0;
  pilot_from_layer = negsuc 0;
  pilot_from_ids = [];
  imatrix_seeded = false;
  imatrix_loaded = false;
}

abbrev pub loaded_experts : Experts ℕ
loaded_experts = record empty {
  tensors = tensor ∷ [];
  ledger = record ledger { expert_resident_bytes = 20 };
}
