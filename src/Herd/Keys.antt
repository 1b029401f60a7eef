-- ===== src/Herd/Keys.antt =====
-- src/guanaco_herdcache.cpp: how often a key stands in the map and in the LRU list.
use guanaco.Base.{
  ℕ, suc, ◌+◌, ◌-◌, ◌<◌, ◌≡◌, ◌↔◌, ◌⊎◌, inl, inr, refl, ap, true, false, none, some, List, [], ◌∷◌,
  ◌++◌, length, Bool-cases, arith, ==ℤ_iff, if◌then◌else◌,
}
use mathlib.Core.Path.{subst}
use guanaco.Herd.{
  ExpertKey, ExpertTensorBuffer, find_active, put_active, erase_active, erase_lru, key_eq,
}

pub key_eq_iff : (a b : ExpertKey) → (key_eq a b ≡ true) ↔ (a ≡ b)
unfolding key_eq
key_eq_iff a b =
    let p = ==ℤ_iff a.layer_idx b.layer_idx in
    let q = ==ℤ_iff a.expert_idx b.expert_idx in
    (
      λ h. ground (arith, p.0, q.0),
      λ e. ground (arith, p.1 (ap (λ k. k.layer_idx) e), q.1 (ap (λ k. k.expert_idx) e)),
    )

-- One for the key, zero for another.
abbrev pub one_if : ExpertKey → ExpertKey → ℕ
one_if k key = if key_eq k key then 1 else 0

abbrev pub occurrences : ExpertKey → List ExpertKey → ℕ
occurrences key [] = 0
occurrences key (k ∷ ks) = one_if k key + occurrences key ks

abbrev pub keys : List (ExpertKey × ExpertTensorBuffer) → List ExpertKey
keys [] = []
keys ((k, b) ∷ es) = k ∷ keys es

pub occurrences-append :
    (key : ExpertKey) (xs ys : List ExpertKey)
    → occurrences key (xs ++ ys) ≡ occurrences key xs + occurrences key ys
occurrences-append key [] ys = omega arith
occurrences-append key (x ∷ xs) ys = omega (arith, occurrences-append key xs ys)

-- Two different keys are not both equal to a third.
one_if-zero :
    (k key j : ExpertKey)
    → key_eq k key ≡ false
    → (one_if key j ≡ 0) ⊎ ((one_if key j ≡ 1) × (one_if k j ≡ 0))
one_if-zero k key j other = elim (Bool-cases (key_eq key j)) [
  | inl same ↦
      let e : key ≡ j = (key_eq_iff key j).0 same in
      let ne : key_eq k j ≡ false = subst (λ x. key_eq k x ≡ false) e other in
      inr (ground (arith, same), ground (arith, ne))
  | inr ne ↦ inl (ground (arith, ne))
]

-- Erasing the first k that is the key from a list that starts with another.
erase_step :
    (k key j : ExpertKey) (n m : ℕ)
    → key_eq k key ≡ false
    → n ≡ m - one_if key j
    → one_if k j + n ≡ one_if k j + m - one_if key j
erase_step k key j n m other h = elim (one_if-zero k key j other) [
  | inl z ↦ omega arith
  | inr (one, z) ↦ omega arith
]

erase_here : (k key j : ExpertKey) (m : ℕ) → key_eq k key ≡ true → m ≡ one_if k j + m - one_if key j
erase_here k key j m here =
    let same : k ≡ key = (key_eq_iff k key).0 here in omega (arith, ap (λ x. one_if x j) same)

pub occurrences-erase_lru :
    (key j : ExpertKey) (ks : List ExpertKey)
    → occurrences j (erase_lru key ks) ≡ occurrences j ks - one_if key j
unfolding erase_lru
occurrences-erase_lru key j [] = omega arith
occurrences-erase_lru key j (k ∷ ks) = elim (Bool-cases (key_eq k key)) [
  | inl here ↦ rw (here, erase_lru) (erase_here k key j (occurrences j ks) here)
  | inr other ↦
      rw (other, erase_lru)
        (erase_step k key j _ (occurrences j ks) other (occurrences-erase_lru key j ks))
]

pub occurrences-erase_active :
    (key j : ExpertKey) (es : List (ExpertKey × ExpertTensorBuffer))
    → occurrences j (keys (erase_active key es)) ≡ occurrences j (keys es) - one_if key j
unfolding erase_active
occurrences-erase_active key j [] = omega arith
occurrences-erase_active key j ((k, b) ∷ es) = elim (Bool-cases (key_eq k key)) [
  | inl here ↦ rw (here, erase_active) (erase_here k key j (occurrences j (keys es)) here)
  | inr other ↦
      rw (other, erase_active)
        (erase_step k key j _ (occurrences j (keys es)) other (occurrences-erase_active key j es))
]

pub one_if_self : (key : ExpertKey) → one_if key key ≡ 1
one_if_self key = let h = (key_eq_iff key key).1 refl in ground (arith, h)

-- A list with the key gets shorter by one.
pub length-erase_lru :
    (key : ExpertKey) (ks : List ExpertKey)
    → (occurrences key ks ≡ 0 → erase_lru key ks ≡ ks)
      × (0 < occurrences key ks → suc (length (erase_lru key ks)) ≡ length ks)
unfolding erase_lru
length-erase_lru key [] = (λ h. refl, λ h. absurd (omega arith))
length-erase_lru key (k ∷ ks) = elim (Bool-cases (key_eq k key)) [
  | inl here ↦ rw (here, erase_lru) (λ h. absurd (ground (arith, here)), λ h. refl)
  | inr other ↦
      let (none_, some_) = length-erase_lru key ks in
      rw (other, erase_lru)
        (
          λ h. ap (λ r. k ∷ r) (none_ (ground (arith, other))),
          λ h. ap suc (some_ (ground (arith, other))),
        )
]

pub length-erase_active :
    (key : ExpertKey) (es : List (ExpertKey × ExpertTensorBuffer))
    → 0 < occurrences key (keys es)
    → suc (length (erase_active key es)) ≡ length es
unfolding erase_active
length-erase_active key [] h = absurd (omega arith)
length-erase_active key ((k, b) ∷ es) h = elim (Bool-cases (key_eq k key)) [
  | inl here ↦ rw (here, erase_active) refl
  | inr other ↦
      rw (other, erase_active) (ap suc (length-erase_active key es (ground (arith, other))))
]

-- The map finds exactly the keys that it has.
pub find_active-cases :
    (key : ExpertKey) (es : List (ExpertKey × ExpertTensorBuffer))
    → ((find_active key es ≡ none) × (occurrences key (keys es) ≡ 0))
      ⊎ ((b : ExpertTensorBuffer) × (find_active key es ≡ some b) × (0 < occurrences key (keys es)))
unfolding find_active
find_active-cases key [] = inl (refl, refl)
find_active-cases key ((k, b) ∷ es) = elim (Bool-cases (key_eq k key)) [
  | inl here ↦ inr (b, rw here refl, ground (arith, here))
  | inr other ↦ elim (find_active-cases key es) [
    | inl (a, z) ↦ inl (ground (arith, other), ground (arith, other))
    | inr (c, a, z) ↦ inr (c, ground (arith, other), ground (arith, other))
  ]
]

-- Writing an entry adds the key if it is new.
pub put_active-new :
    (key : ExpertKey) (buf : ExpertTensorBuffer) (es : List (ExpertKey × ExpertTensorBuffer))
    → occurrences key (keys es) ≡ 0
    → ((j : ExpertKey)
        → occurrences j (keys (put_active key buf es)) ≡ occurrences j (keys es) + one_if key j)
      × (length (put_active key buf es) ≡ suc (length es))
unfolding put_active
put_active-new key buf [] h = (λ j. omega arith, refl)
put_active-new key buf ((k, b) ∷ es) h = elim (Bool-cases (key_eq k key)) [
  | inl here ↦ absurd (ground (arith, here))
  | inr other ↦
      let (occ, len) = put_active-new key buf es (ground (arith, other)) in
      rw (other, put_active) (λ j. omega (arith, occ j), ap suc len)
]

pub put_active-old :
    (key : ExpertKey) (buf : ExpertTensorBuffer) (es : List (ExpertKey × ExpertTensorBuffer))
    → 0 < occurrences key (keys es)
    → ((j : ExpertKey) → occurrences j (keys (put_active key buf es)) ≡ occurrences j (keys es))
      × (length (put_active key buf es) ≡ length es)
unfolding put_active
put_active-old key buf [] h = absurd (omega arith)
put_active-old key buf ((k, b) ∷ es) h = elim (Bool-cases (key_eq k key)) [
  | inl here ↦ rw (here, put_active) (λ j. refl, refl)
  | inr other ↦
      let (occ, len) = put_active-old key buf es (ground (arith, other)) in
      rw (other, put_active) (λ j. omega (arith, occ j), ap suc len)
]

pub one_if-true : (k j : ExpertKey) → key_eq k j ≡ true → one_if k j ≡ 1
one_if-true k j h = ground (arith, h)

pub one_if-false : (k j : ExpertKey) → key_eq k j ≡ false → one_if k j ≡ 0
one_if-false k j h = ground (arith, h)
