-- ===== src/Memory/Limit.antt =====
-- src/guanaco_steppeloader.cpp, guanaco_available_ram: the bounds of its answer.
use guanaco.Base.{ℕ, ◌≤◌, ◌≡◌, refl, ◌⊎◌, inl, inr, none, some, arith, Option-cases}
use guanaco.Base.Words.{mul64}
use guanaco.Memory.{Files, available_ram, available_kb, cgroup_memory_limit}

-- What /proc/meminfo says, in bytes.
unfoldable pub reported : Files → ℕ
reported files = elim (files "/proc/meminfo") [
  | none ↦ 0
  | some lines ↦ mul64 (available_kb lines) 1024
]

-- guanaco_available_ram gives no more than /proc/meminfo says and no more than the cgroup's limit
-- where there is one, and one of the two exactly.
pub available_ram-bounds :
    (files : Files)
    → (available_ram files ≤ reported files)
      × ((cgroup_memory_limit files ≡ 0) ⊎ (available_ram files ≤ cgroup_memory_limit files))
      × ((available_ram files ≡ reported files) ⊎ (available_ram files ≡ cgroup_memory_limit files))
unfolding available_ram reported
available_ram-bounds files = elim (Option-cases (files "/proc/meminfo")) [
  | inl shut ↦ rw (shut, available_ram, reported) (omega arith, inr (omega arith), inl refl)
  | inr (lines, open_) ↦ rw (open_, available_ram, reported) (ground arith)
]
