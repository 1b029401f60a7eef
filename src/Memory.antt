-- ===== src/Memory.antt =====
-- src/guanaco_steppeloader.cpp, guanaco_cgroup_memory_limit and guanaco_available_ram: the memory that
-- the process may use. A file is the list of the strings that successive fgets() calls give of it, none
-- where it cannot be opened.
use Prim.Native.Char.{code}
use Prim.Native.String
use Prim.Native.String.{String}
pub mod Limit
use guanaco.Base.{
  ℕ, zero, suc, ◌*◌, ◌^◌, Bool, true, false, ◌&&◌, not, Option, none, some, List, [], ◌∷◌,
  if◌then◌else◌, ltb, ◌==◌,
}
use guanaco.Base.Words.{mul64}
use guanaco.Text.{begins, advance, strtoull}
use guanaco.Storage.Shards.{first_chars}

abbrev pub Files : Type 0
Files = String → Option (List String)

-- path[strcspn(path, "\n")] = '\0'
unfoldable pub until_newline : String → String
until_newline String.[] = String.[]
until_newline (String.◌∷◌ c s) = if code c == 10 then String.[] else String.◌∷◌ c (until_newline s)

-- The path of the first line that begins with "0::", cut to the buffer's 511 characters.
unfoldable pub cgroup_path : List String → Option String
unfolding begins advance until_newline first_chars
cgroup_path [] = none
cgroup_path (line ∷ lines) =
    if begins "0::" line
    then some (until_newline (first_chars 511 (String.◌++◌ "/sys/fs/cgroup" (advance 3 line))))
    else cgroup_path lines

-- fgets() of a value: its first line.
abbrev first_line : Option (List String) → Option String
first_line none = none
first_line (some []) = none
first_line (some (v ∷ _)) = some v

-- The limit of the unified hierarchy: memory.max, unless it says "max".
unfoldable pub unified_limit : Files → Option ℕ
unfolding cgroup_path begins strtoull first_chars
unified_limit files = elim (files "/proc/self/cgroup") [
  | none ↦ none
  | some lines ↦ elim (cgroup_path lines) [
    | none ↦ none
    | some path ↦ elim (first_line (files (first_chars 639 (String.◌++◌ path "/memory.max")))) [
      | none ↦ none
      | some v ↦ if begins "max" v then none else some (strtoull v)
    ]
  ]
]

-- lim > 0 && lim < ((size_t) 1 << 60)
unfoldable pub legacy_limit : Files → ℕ
unfolding strtoull
legacy_limit files = elim (first_line (files "/sys/fs/cgroup/memory/memory.limit_in_bytes")) [
  | none ↦ 0
  | some v ↦ if ltb 0 (strtoull v) && ltb (strtoull v) (2 ^ 60) then strtoull v else 0
]

unfoldable pub cgroup_memory_limit : Files → ℕ
unfolding unified_limit legacy_limit
cgroup_memory_limit files = elim (unified_limit files) [
  | some lim ↦ lim
  | none ↦ legacy_limit files
]

-- kb of the first MemAvailable line, or 0
unfoldable pub available_kb : List String → ℕ
unfolding begins advance strtoull
available_kb [] = 0
available_kb (line ∷ lines) =
    if begins "MemAvailable:" line then strtoull (advance 13 line) else available_kb lines

unfoldable pub available_ram : Files → ℕ
available_ram files = elim (files "/proc/meminfo") [
  | none ↦ 0
  | some lines ↦
      let avail = mul64 (available_kb lines) 1024 in
      let limit = cgroup_memory_limit files in
      if not (limit == 0) && ltb limit avail then limit else avail
]
