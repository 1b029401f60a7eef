-- ===== src/Storage/Shards.antt =====
-- src/guanaco_steppeloader.cpp, build_shard_paths and read_gguf_metadata_ctx: the files of a model, and
-- the metadata of each. The directory's entries, pread() and the gguf library are parameters. A
-- std::string is its characters, and its size their number.
use Prim.Native.Char.{Char, code}
use Prim.Native.String
use Prim.Native.String.{String, [], ◌∷◌, count}
use text.Mathlib.Text.{◌==◌ as str_eq}
pub mod Growth
pub mod Paths
use guanaco.Base.{
  ℕ, zero, suc, ◌+◌, ◌-◌, ◌*◌, ◌^◌, Bool, true, false, ◌&&◌, ◌||◌, not, Option, none, some, List,
  [], ◌∷◌, if◌then◌else◌, ltb, leb, ◌==◌, ℤ, pos, ltb_ℤ,
}
use guanaco.Text.{begins, advance, is_digit, int_at}

-- The first `n` characters.
unfoldable pub first_chars : ℕ → String → String
first_chars zero s = String.[]
first_chars (suc n) String.[] = String.[]
first_chars (suc n) (String.◌∷◌ c s) = String.◌∷◌ c (first_chars n s)

-- The place behind the last character of this code, or 0: find_last_of(c) + 1
unfoldable pub behind_last : ℕ → String → ℕ
behind_last ch String.[] = 0
behind_last ch (String.◌∷◌ c s) =
    let rest = behind_last ch s in if ltb 0 rest then suc rest else if code c == ch then 1 else 0

-- The first place of `p`.
unfoldable pub place_of : String → String → Option ℕ
unfolding begins
place_of String.[] p = if begins p String.[] then some 0 else none
place_of (String.◌∷◌ c s) p =
    if begins p (String.◌∷◌ c s)
    then some 0
    else elim (place_of s p) [ none ↦ none | some n ↦ some (suc n) ]

-- Back from `n` to 1: the first place where `p` stands.
unfoldable pub last_place : String → String → ℕ → Option ℕ
unfolding begins advance
last_place p s zero = none
last_place p s (suc n) = if begins p (advance (suc n) s) then some (suc n) else last_place p s n

abbrev pub starts_with_char : (Char → Bool) → String → Bool
starts_with_char f String.[] = false
starts_with_char f (String.◌∷◌ c s) = f c

-- while (p > base && *p is a digit) --p
unfoldable pub back_over_digits : String → ℕ → ℕ
unfolding advance
back_over_digits s zero = zero
back_over_digits s (suc n) =
    if starts_with_char is_digit (advance (suc n) s) then back_over_digits s n else suc n

-- prefix and suffix of a sharded name, with its number of shards over 1.
unfoldable pub shard_name : String → Option (String × String)
unfolding first_chars place_of last_place back_over_digits int_at advance
shard_name base = elim (place_of base ".gguf") [
  | none ↦ none
  | some dot ↦ elim (last_place "-of-" base dot) [
    | none ↦ none
    | some of_ ↦
        let dash = back_over_digits base (of_ - 1) in
        if starts_with_char (λ c. code c == 45) (advance dash base)
          && ltb_ℤ (pos 1) (int_at (advance (of_ + 4) base))
        then some (first_chars (dash + 1) base, advance of_ base)
        else none
  ]
]

-- A directory entry that is a sibling shard.
unfoldable pub is_sibling : String → String → String → Bool
unfolding begins advance
is_sibling prefix suffix nm =
    leb (count suffix) (count nm)
    && begins prefix nm
    && str_eq (advance (count nm - count suffix) nm) suffix

unfoldable pub siblings : String → String → String → String → List String → List String
siblings path dir prefix suffix [] = []
siblings path dir prefix suffix (nm ∷ nms) =
    let rest = siblings path dir prefix suffix nms in
    let full = String.◌++◌ dir nm in
    if is_sibling prefix suffix nm && not (str_eq full path) then full ∷ rest else rest

-- `listing` is what readdir gives of a directory; none where it cannot be opened.
unfoldable pub build_shard_paths : (String → Option (List String)) → String → List String
build_shard_paths listing path =
    let cut = behind_last 47 path in
    let dir = first_chars cut path in
    elim (shard_name (advance cut path)) [
      | none ↦ path ∷ []
      | some (prefix, suffix) ↦ elim (listing dir) [
        | none ↦ path ∷ []
        | some nms ↦ path ∷ siblings path dir prefix suffix nms
      ]
    ]

-- max_cap and the first cap
abbrev pub max_cap : ℕ
max_cap = 2 ^ 26

abbrev pub first_cap : ℕ
first_cap = 2 ^ 20

-- A shard that has been opened: whether pread() fills a buffer of that size, and the context that
-- gguf_init_from_buffer makes of it.
pub record ShardFile (G : Type 0) : Type 0 where
  pub fills : ℕ → Bool
  pub context : ℕ → Option G

module _ {G : Type 0} (data_offset : G → ℕ) where
  -- The loop; the cap doubles up to max_cap.
  unfoldable pub grow_and_parse : ShardFile G → ℕ → ℕ → Option G
  grow_and_parse f zero cap = none
  grow_and_parse f (suc fuel) cap =
      let larger = if leb max_cap cap then none else grow_and_parse f fuel (cap * 2) in
      if not (f.fills cap) then none else elim (f.context cap) [
        | none ↦ larger
        | some g ↦ if leb (data_offset g) cap then some g else larger
      ]

  -- Seven rounds reach max_cap. None: the file cannot be opened.
  unfoldable pub read_gguf_metadata_ctx : Option (ShardFile G) → Option G
  unfolding grow_and_parse
  read_gguf_metadata_ctx none = none
  read_gguf_metadata_ctx (some f) = grow_and_parse f 7 first_cap
