-- ===== src/Dense.antt =====
-- include/guanaco/guanaco.h and src/guanaco_steppeloader.cpp, the dense pager: whole layers paged
-- through private slabs or the file mapping, with a resident prefix of the layers.
--
-- A layer is a number: register_stream_tensor lets no negative one in. stream_layers_ is the list of
-- its pairs. submitted is submitted_upto_ + 1. The pager has its own log of madvise() calls beside
-- that of the experts: madvise_ops_ counts both. The contents of a slab and the clock's readings are
-- not modelled; a pread() and a posix_fadvise() leave the bytes they name in a list.
use Prim.Native.String.{String}
use text.Mathlib.Text.{◌==◌ as str_eq}
pub mod Slabs
pub mod Layer
pub mod Async
pub mod Resident
pub mod Boundary
use guanaco.Base.{
  ℕ, zero, suc, ◌+◌, ◌-◌, Bool, true, false, ◌&&◌, ◌||◌, not, Option, none, some, List, [], ◌∷◌,
  if◌then◌else◌, ltb, leb, ◌==◌, ℤ, pos, negsuc, get_or, set, replicate, length, ◌++◌,
}
use guanaco.Base.Words.{add64}
use guanaco.Madvise.{Kernel, AdviceLog, Advice, free, dontneed, round_up}
use guanaco.Uring.{IoUringSlab}
use guanaco.Expert.{Experts}

pub record StreamTensor : Type 0 where
  pub name : String
  pub layer : ℕ
  pub file_offset : ℕ
  pub byte_size : ℕ
  pub mmap_base : Option ℕ
  pub slab : Option ℕ
  pub slab_len : ℕ

pub data DenseEvictMode : Type 0 where
  auto_mode free_mode dontneed_mode : DenseEvictMode

-- The answers of the system: madvise(), the n-th anonymous mmap() of a length, pread() of a range
-- (none at the end of the file or on an error), the cgroup's memory.current and memory.max where they
-- can be read, the environment's GUANACO_DENSE_EVICT, guanaco_available_ram(), and the conversion
-- (size_t) (ram * dense_budget_ram_fraction).
pub record Os : Type 0 where
  pub kernel : Kernel
  pub anon : ℕ → ℕ → Option ℕ
  pub pread : ℕ → ℕ → Option ℕ
  pub cgroup : Option (ℕ × ℕ)
  pub evict_mode : DenseEvictMode
  pub available_ram : ℕ
  pub ram_fraction : ℕ → ℕ

pub record Pager (R : Type 0) : Type 0 where
  -- config_
  pub use_slab : Bool
  pub config_budget : ℕ
  pub budget_auto : Bool
  pub prefetch_ahead : ℤ
  -- members
  pub dense_enabled : Bool
  pub fd_open : Bool
  pub stream_layers : List (ℕ × List StreamTensor)
  pub layer_resident : List Bool
  pub stream_total_bytes : ℕ
  pub dense_budget_bytes : ℕ
  pub stream_n_layers : ℕ
  pub stream_resident_layers : ℕ
  pub stream_resident_bytes : ℕ
  pub last_boundary_layer : ℤ
  pub submitted : ℕ
  pub inflight : List (ℕ × ℕ)
  pub uring : Option (IoUringSlab R)
  -- counters
  pub boundaries : ℕ
  pub prefetch_ops : ℕ
  pub evict_ops : ℕ
  pub lock_fails : ℕ
  pub uring_ops : ℕ
  pub pread_ops : ℕ
  pub wait_ops : ℕ
  pub io_bytes : ℕ
  pub max_inflight : ℕ
  pub inflight_sum : ℕ
  pub inflight_samples : ℕ
  -- system calls made
  pub mmaps : ℕ
  pub advice : AdviceLog
  pub preads : List (ℕ × ℕ)
  pub dropped : List (ℕ × ℕ)

-- The loader, whose pager and expert cache share the budget.
pub record Loader (F R : Type 0) : Type 0 where
  pub experts : Experts F
  pub pager : Pager R

-- find, with the map's value or the default's.
abbrev pub find_layer : ℕ → List (ℕ × List StreamTensor) → Option (List StreamTensor)
find_layer layer [] = none
find_layer layer ((l, ts) ∷ rest) = if l == layer then some ts else find_layer layer rest

-- The sum of the byte sizes, in size_t.
abbrev pub sum_bytes : List StreamTensor → ℕ
sum_bytes [] = 0
sum_bytes (t ∷ ts) = add64 t.byte_size (sum_bytes ts)

abbrev pub layer_bytes : List (ℕ × List StreamTensor) → ℕ → ℕ
layer_bytes layers layer = elim (find_layer layer layers) [ none ↦ 0 | some ts ↦ sum_bytes ts ]

abbrev pub has_tensor : String → List StreamTensor → Bool
has_tensor name [] = false
has_tensor name (t ∷ ts) = str_eq t.name name || has_tensor name ts

-- stream_layers_[layer].push_back(t)
abbrev pub add_tensor : StreamTensor → List (ℕ × List StreamTensor) → List (ℕ × List StreamTensor)
add_tensor t [] = (t.layer, t ∷ []) ∷ []
add_tensor t ((l, ts) ∷ rest) =
    if l == t.layer then (l, ts ++ t ∷ []) ∷ rest else (l, ts) ∷ add_tensor t rest

-- resize(n, 0)
abbrev pub grow : ℕ → List Bool → List Bool
grow n bs = bs ++ replicate (n - length bs) false
