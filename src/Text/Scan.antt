-- ===== src/Text/Scan.antt =====
-- Laws of the scans of a string.
use Prim.Native.Char.{Char, code}
use Prim.Native.String.{String, [], ◌∷◌}
use guanaco.Base.{◌≡◌, refl, inl, inr, true, false, none, some, ◌==◌, arith, Bool-cases}
use mathlib.Core.Path.{subst}
use guanaco.Base.{some_inj, pos, sym}
use guanaco.Text.{
  begins, strstr, contains, strtol, int_at, unsigned, signed, skip_space, is_space, is_digit,
}

contains-here : (s p : String) → begins p s ≡ true → contains s p ≡ true
unfolding contains
contains-here [] p h = h
contains-here (d ∷ s) p h = ground arith

contains-there : (d : Char) (s p : String) → contains s p ≡ true → contains (d ∷ s) p ≡ true
unfolding contains
contains-there d s p h = ground arith

-- A string that has a pattern has the pattern's tail.
pub contains-tail : (c : Char) (s p : String) → contains s (c ∷ p) ≡ true → contains s p ≡ true
unfolding begins contains
contains-tail c [] p h = absurd (cc)
contains-tail c (d ∷ s) p h = elim (Bool-cases (contains s (c ∷ p))) [
  | inl later ↦ contains-there d s p (contains-tail c s p later)
  | inr now ↦ contains-there d s p (contains-here s p (ground (arith, h, now)))
]

pub strstr-begins : (s p r : String) → strstr s p ≡ some r → begins p r ≡ true
unfolding strstr
strstr-begins [] p r h = elim (Bool-cases (begins p [])) [
  | inl here ↦ subst (λ u. begins p u ≡ true) (some_inj (rw here at h)) here
  | inr not_ ↦ let h' : none ≡ some r = rw not_ at h in absurd (cc)
]
strstr-begins (d ∷ s) p r h = elim (Bool-cases (begins p (d ∷ s))) [
  | inl here ↦ subst (λ u. begins p u ≡ true) (some_inj (rw here at h)) here
  | inr not_ ↦ strstr-begins s p r (rw not_ at h)
]

pub strstr-none : (s p : String) → strstr s p ≡ none → contains s p ≡ false
unfolding strstr contains
strstr-none [] p h = ground arith
strstr-none (d ∷ s) p h = ground (arith, strstr-none s p)

-- Where the next character is no digit, no blank and no sign, strtol converts nothing.
pub int_at-word :
    (c : Char) (s : String)
    → is_space c ≡ false
    → (code c == 45) ≡ false
    → (code c == 43) ≡ false
    → is_digit c ≡ false
    → int_at (c ∷ s) ≡ pos 0
unfolding int_at strtol skip_space signed unsigned
int_at-word c s blank minus plus digit =
    rw (blank, minus, plus, digit, int_at, strtol, skip_space, signed, unsigned) refl

pub contains-none : (s p : String) → contains s p ≡ false → strstr s p ≡ none
unfolding strstr contains
contains-none [] p h = rw (h, strstr) refl
contains-none (d ∷ s) p h =
    let now : begins p (d ∷ s) ≡ false = ground arith in
    rw (now, strstr) (contains-none s p (ground arith))

-- What a rest of the string has, the string has.
pub contains-strstr :
    (s p q r : String) → strstr s p ≡ some r → contains r q ≡ true → contains s q ≡ true
unfolding strstr
contains-strstr [] p q r h k = elim (Bool-cases (begins p [])) [
  | inl here ↦ subst (λ u. contains u q ≡ true) (sym (some_inj (rw here at h))) k
  | inr not_ ↦ let h' : none ≡ some r = rw not_ at h in absurd (cc)
]
contains-strstr (d ∷ s) p q r h k = elim (Bool-cases (begins p (d ∷ s))) [
  | inl here ↦ subst (λ u. contains u q ≡ true) (sym (some_inj (rw here at h))) k
  | inr not_ ↦ contains-there d s q (contains-strstr s p q r (rw not_ at h) k)
]
