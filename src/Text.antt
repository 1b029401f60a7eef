-- ===== src/Text.antt =====
-- The C library's string functions that the loader scans names with: strstr, strncmp with a literal's
-- length, std::string::find, strtol, atoi and strtoull in base 10. A string is its characters, without
-- a NUL; a pointer into it is the rest of it from there.
pub mod Scan
use Prim.Native.Char.{Char, code}
use Prim.Native.String.{String, [], ◌∷◌}
use guanaco.Base.{
  ℕ, zero, suc, ◌+◌, ◌-◌, ◌*◌, ◌%◌, ◌^◌, ◌≤◌, ◌<◌, min, Bool, true, false, ◌&&◌, ◌||◌, not, Option,
  none, some, if◌then◌else◌, ltb, leb, ◌==◌, ℤ, pos, negsuc,
}

-- strncmp(s, p, strlen(p)) == 0
unfoldable pub begins : String → String → Bool
begins [] s = true
begins (c ∷ p) [] = false
begins (c ∷ p) (d ∷ s) = code c == code d && begins p s

-- The rest of `s` from the first place where `p` stands.
unfoldable pub strstr : String → String → Option String
unfolding begins
strstr [] p = if begins p [] then some [] else none
strstr (d ∷ s) p = if begins p (d ∷ s) then some (d ∷ s) else strstr s p

-- s.find(p) != npos
unfoldable pub contains : String → String → Bool
unfolding begins
contains [] p = begins p []
contains (d ∷ s) p = begins p (d ∷ s) || contains s p

-- s + n, for n characters at most
unfoldable pub advance : ℕ → String → String
advance zero s = s
advance (suc n) [] = []
advance (suc n) (c ∷ s) = advance n s

abbrev pub is_digit : Char → Bool
is_digit c = leb 48 (code c) && leb (code c) 57

-- isspace, in the C locale
abbrev pub is_space : Char → Bool
is_space c = code c == 32 || (leb 9 (code c) && leb (code c) 13)

unfoldable pub skip_space : String → String
skip_space [] = []
skip_space (c ∷ s) = if is_space c then skip_space s else c ∷ s

-- The value of the digits that `s` begins with, after `acc`, and what follows them.
unfoldable pub digits : ℕ → String → ℕ × String
digits acc [] = (acc, [])
digits acc (c ∷ s) = if is_digit c then digits (acc * 10 + (code c - 48)) s else (acc, c ∷ s)

abbrev pub starts_number : String → Bool
starts_number [] = false
starts_number (c ∷ s) = is_digit c

-- A number, without a sign; none where there is no digit.
unfoldable pub unsigned : String → Option (ℕ × String)
unfolding digits
unsigned s = if starts_number s then some (digits 0 s) else none

-- LONG_MIN and LONG_MAX on overflow.
abbrev pub negated : ℕ → ℤ
negated zero = pos 0
negated (suc n) = negsuc (min n (2 ^ 63 - 1))

abbrev pub with_sign : Bool → Option (ℕ × String) → Option (ℤ × String)
with_sign minus none = none
with_sign true (some (n, rest)) = some (negated n, rest)
with_sign false (some (n, rest)) = some (pos (min n (2 ^ 63 - 1)), rest)

-- An optional sign.
unfoldable pub signed : String → Option (ℤ × String)
unfolding unsigned
signed [] = none
signed (c ∷ s) =
    if code c == 45
    then with_sign true (unsigned s)
    else if code c == 43
    then with_sign false (unsigned s)
    else with_sign false (unsigned (c ∷ s))

-- strtol(s, &end, 10): the value and the rest, or none where nothing is converted, when the value is 0
-- and the end is s.
unfoldable pub strtol : String → Option (ℤ × String)
unfolding skip_space signed
strtol s = signed (skip_space s)

-- (int) of a long, in two's complement.
abbrev pub as_int : ℕ → ℤ
as_int m = if ltb m (2 ^ 31) then pos m else negsuc (2 ^ 32 - 1 - m)

abbrev pub to_int : ℤ → ℤ
to_int (pos n) = as_int (n % 2 ^ 32)
to_int (negsuc n) = as_int (2 ^ 32 - 1 - n % 2 ^ 32)

-- (int) strtol(s, nullptr, 10)
unfoldable pub int_at : String → ℤ
unfolding strtol
int_at s = elim (strtol s) [ none ↦ pos 0 | some (z, rest) ↦ to_int z ]

-- strtoull(s, nullptr, 10): ULLONG_MAX on overflow; a negated value wraps.
unfoldable pub strtoull : String → ℕ
unfolding skip_space unsigned
strtoull s = elim (skip_space s) [
  | [] ↦ 0
  | c ∷ r ↦
      if code c == 45
      then elim (unsigned r) [
        | none ↦ 0
        | some (n, _) ↦ if ltb n (2 ^ 64) then (2 ^ 64 - n) % 2 ^ 64 else 2 ^ 64 - 1
      ]
      else elim (unsigned (if code c == 43 then r else c ∷ r)) [
        | none ↦ 0
        | some (n, _) ↦ min n (2 ^ 64 - 1)
      ]
]
