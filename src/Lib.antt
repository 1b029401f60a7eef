-- ===== src/Lib.antt =====
-- Guanaco: paging the weights of a language model that does not fit in memory.
--
-- The library sits under llama.cpp, which maps the model's file and computes its layers in order. The
-- SteppeLoader (include/guanaco/guanaco.h, src/guanaco_steppeloader.cpp) decides what of the mapping
-- is resident, in two halves that share a budget. The expert half pages the slices of fused
-- mixture-of-experts tensors: llama.cpp reports the experts a router chose, and the loader counts
-- them, asks the kernel for the slices that are missing, pins the hottest, and evicts the rest. The
-- dense half pages whole layers, from private slabs that io_uring fills or through the mapping, as the
-- computation passes each layer's boundary. Before that the loader reads what the model's files say of
-- their tensors and of the model, which decides which half is on. The model hook
-- (src/guanaco_model_hook.cpp) is what llama.cpp calls. An older path, of the executor
-- (src/guanaco_executor.cpp), chooses experts itself (src/guanaco_router.cpp) and reads them into the
-- buffers of a HerdCache (src/guanaco_herdcache.cpp).
--
-- The files:
--   Base      lists, counts, integers, 64-bit arithmetic (Words) and sorting (Sort) for all parts
--   Madvise   madvise_range: a byte range rounded out to pages, and the log of the calls made
--   Expert    the state of the expert half (Experts, its tensors, its Ledger of counters), with
--             Slices (register_expert_tensor, touch), Routing (record_routing), Prefetch
--             (prefetch_experts), Evict (evict_to_budget), Budgets (recompute_budgets), Ceiling
--             (enforce_expert_byte_ceiling), Pin (maybe_pin_hot_experts, pin_from_seeded_totals),
--             Pilot (pilot_prefetch_next_layer), Imatrix (load_imatrix_prior), Advise
--             (advise_experts_random); Books, Invariant and Calls keep the byte counter
--   Uring     src/guanaco_io_uring.cpp over liburing as a parameter
--   Dense     the state of the dense half (Pager), with Slabs (registration, slabs), Layer
--             (prefetch_layer, evict_layer), Async (submit_layer_async, ensure_layer, drain_inflight),
--             with Returns for the wait in ensure_layer, Resident (fill_resident_layers) and Boundary
--             (on_layer_boundary)
--   Herd      HerdCache, with Lru (a list of keys in the order of use), Tidy (what the list and the map
--             agree on), Shows and Refine (each call against the list) and Room
--   Text      strstr, strtol and the like, and their laws (Scan)
--   Storage   the loader's members that its files set: Kv (parse_gguf_metadata), Names and Manifest
--             (parse_gguf_manifest), with Standalone for src/guanaco_manifest.cpp, Shards
--             (build_shard_paths, read_gguf_metadata_ctx), Start (initialize) and Reads
--             (prefetch_expert, the futures, and Race, the threads of read_expert_async)
--   Memory    guanaco_cgroup_memory_limit and guanaco_available_ram
--   Router    src/guanaco_router.cpp: Choice (one token), Selected (a batch), Room (its cache)
--   Executor  src/guanaco_executor.cpp
--   Hook      src/guanaco_model_hook.cpp: each callback, and any sequence of them
--   Tests     concrete parameters, and each theorem that has hypotheses at an instance
--
-- A loop over a map is a loop over the list of its values, in the order of the iteration. The machine's
-- size_t and uint64_t wrap at 2 ^ 64; `int` counts that the code keeps non-negative are numbers, layers
-- and ids integers. Parameters: the float type and its operations, the answers of madvise(), mmap(),
-- pread(), the environment and the cgroup files (Os), liburing (Liburing), the imatrix file that was
-- found (PriorFile), the model's files through the gguf library (Disk, ShardFile), and the text files
-- of the system (Files).
--
-- The loops that are not over a list have fuel: the eviction passes have the number of slices to give
-- up, the pread loop the bytes to read, the chunked read the number of slices, of which a round takes
-- 128, and the waits for completions one more than the requests in flight, since each completion takes
-- one. The growing read of
-- a shard's metadata has seven rounds, from 1 MiB to 64 MiB.
--
-- The reading threads of read_expert_async share a descriptor: their system calls are the steps, and a
-- schedule any list of them.
--
-- Not modelled: the contents of memory and the clock, logging, the GGUF and imatrix readers (of
-- libraries), shutdown, parse_tensor_dims_from_file and apply_madvise (which nothing calls), the backend
-- wrapper (src/guanaco_backend_wrap.cpp), and the benchmarks and examples.
pub mod Base
pub mod Uring
pub mod Dense
pub mod Herd
pub mod Tests
pub mod Madvise
pub mod Expert
pub mod Hook
pub mod Text
pub mod Storage
pub mod Executor
pub mod Router
pub mod Memory
