-- ===== src/Tests/Dense.antt =====
-- The dense pager at concrete inputs.
use Prim.Native.String.{String}
use guanaco.Base.{
  ℕ, ◌+◌, ◌≤◌, ◌<◌, ◌≡◌, refl, ap, true, false, none, some, List, [], ◌∷◌, ◌++◌, arith, ℤ, pos,
  length,
}
use guanaco.Base.Words.{u64_mod, add64}
use guanaco.Uring.{io_uring_slab_reap, Liburing, IoUringSlab, Waited, timed_out, completed}
use guanaco.Dense.{StreamTensor, Os, Pager, Loader, auto_mode}
use guanaco.Dense.Layer.{is_resident}
use guanaco.Dense.Async.{await_layer}
use guanaco.Dense.Async.Returns.{Awaited, await_layer-Awaited, awaited, reads_for}
use guanaco.Dense.Resident.{resident_prefix}
use guanaco.Dense.Resident.Greedy.{resident_prefix-Longest, Longest, prefix_bytes}
use guanaco.Dense.Boundary.{on_layer_boundary}
use guanaco.Dense.Boundary.Order.{
  on_layer_boundary-prefix, on_layer_boundary-next, on_layer_boundary-done,
}
use guanaco.Tests.Data.{linux, ledger, empty}

-- A ring that completes its requests in order: the tokens and results of those in flight.
abbrev pub Queue : Type 0
Queue = List (ℤ × ℤ)

abbrev pub wait_next : ℕ → Queue → Queue × Waited
wait_next timeout [] = ([], timed_out)
wait_next timeout ((token, res) ∷ q) = (q, completed token res)

pub wait_next-takes :
    (timeout : ℕ) (r r' : Queue) (token res : ℤ)
    → wait_next timeout r ≡ (r', completed token res)
    → length r' < length r
wait_next-takes timeout [] r' token res h = absurd (cc)
wait_next-takes timeout ((t, s) ∷ q) r' token res h =
    let rest : q ≡ r' = ap (λ w. w.0) h in omega (arith, ap (λ (w : Queue). length w) rest)

abbrev pub in_order : Liburing Queue
in_order = record {
  get_sqe = λ r. (r, true);
  prep_read = λ s token r. r ++ (token, pos s.len) ∷ [];
  submit = λ r. (r, pos 0);
  wait_cqe = wait_next;
  in_flight = λ r. length r;
  wait_takes = wait_next-takes;
}

abbrev pub slab : IoUringSlab Queue
slab = record {
  ring = (pos 2, pos 100) ∷ (pos 1, pos 100) ∷ [];
  ok = true;
  fd_open = true;
  reap_timeout_ms = 0;
  stats = record {
    reap_calls = 0;
    reap_timeouts = 0;
    reap_waits = 0;
    hard_errors = 0;
    sqe_submits = 2;
    sqe_full = 0;
    peak_outstanding = 2;
  };
}

abbrev pub os : Os
os = record {
  kernel = linux;
  anon = λ n len. some (4096 + n);
  pread = λ offset size. some size;
  cgroup = none;
  evict_mode = auto_mode;
  available_ram = 1000;
  ram_fraction = λ n. n;
}

abbrev pub weights : String → ℕ → StreamTensor
weights name layer = record {
  name = name;
  layer = layer;
  file_offset = 0;
  byte_size = 100;
  mmap_base = none;
  slab = some 4096;
  slab_len = 4096;
}

abbrev pub layers : List (ℕ × List StreamTensor)
layers =
    (0, weights "blk.0.ffn_up" 0 ∷ [])
    ∷ (1, weights "blk.1.ffn_up" 1 ∷ [])
    ∷ (2, weights "blk.2.ffn_up" 2 ∷ [])
    ∷ []

-- Layer 0 is the resident prefix, and layer 1 has been read.
abbrev pub pager : Pager Queue
pager = record {
  use_slab = true;
  config_budget = 0;
  budget_auto = true;
  prefetch_ahead = pos 1;
  dense_enabled = true;
  fd_open = true;
  stream_layers = layers;
  layer_resident = true ∷ true ∷ false ∷ [];
  stream_total_bytes = 300;
  dense_budget_bytes = 0;
  stream_n_layers = 3;
  stream_resident_layers = 1;
  stream_resident_bytes = 100;
  last_boundary_layer = pos 0;
  submitted = 2;
  inflight = (2, 1) ∷ [];
  uring = some slab;
  boundaries = 1;
  prefetch_ops = 1;
  evict_ops = 0;
  lock_fails = 0;
  uring_ops = 1;
  pread_ops = 1;
  wait_ops = 0;
  io_bytes = 200;
  max_inflight = 2;
  inflight_sum = 2;
  inflight_samples = 1;
  mmaps = 3;
  advice = ledger.advice;
  preads = [];
  dropped = [];
}

abbrev pub loader : Loader ℕ Queue
loader = record { experts = empty; pager = pager }

on_layer_boundary-prefix_example :
    is_resident (on_layer_boundary os in_order loader (pos 1)).pager 0 ≡ true
on_layer_boundary-prefix_example =
    on_layer_boundary-prefix os in_order loader (pos 1) 0 (omega arith) refl

on_layer_boundary-next_example :
    is_resident (on_layer_boundary os in_order loader (pos 1)).pager 2 ≡ true
on_layer_boundary-next_example =
    on_layer_boundary-next os in_order loader 1 (weights "blk.2.ffn_up" 2 ∷ []) refl refl refl refl
      (omega arith) (omega arith)

on_layer_boundary-done_example :
    is_resident (on_layer_boundary os in_order loader (pos 1)).pager 1 ≡ false
on_layer_boundary-done_example =
    on_layer_boundary-done os in_order loader 1 (weights "blk.1.ffn_up" 1 ∷ []) refl refl
      (omega arith) refl (omega arith)

three_layers : prefix_bytes layers 3 < u64_mod
unfolding prefix_bytes add64
three_layers = omega arith

resident_prefix-Longest_example :
    (1 ≤ resident_prefix 250 layers 3) × Longest 250 layers 3 (resident_prefix 250 layers 3)
resident_prefix-Longest_example = resident_prefix-Longest 250 layers 3 (omega arith) three_layers

-- The two completions that are in flight.
abbrev both : List (ℤ × ℤ)
both = (pos 2, pos 100) ∷ (pos 1, pos 100) ∷ []

await_layer-Awaited_example :
    Awaited in_order 1 both
      ((2, 1) ∷ (1, 1) ∷ [])
      (await_layer in_order 3 1 slab ((2, 1) ∷ (1, 1) ∷ []) true)
unfolding io_uring_slab_reap awaited reads_for
await_layer-Awaited_example =
    await_layer-Awaited in_order 1 both slab ((2, 1) ∷ (1, 1) ∷ []) (refl, refl, (refl, refl, tt))
      (omega arith)
