-- ===== src/Base/Sort.antt =====
-- std::sort by a comparator. Ties keep their order here; the theorems use only that the result is a
-- permutation, and ordered where the comparator is an order.
use mathlib.Core.List.Perm
use mathlib.Core.List.{List, [], ◌∷◌, Perm}
use mathlib.Core.Bool.{Bool, true, false}
use mathlib.Core.Logic.{inl, inr}
use mathlib.Core.Path.{◌≡◌}
use Prim.Native.Nat.{ℕ, zero, suc, ◌+◌, ◌≤◌, ◌<◌}
use native.Mathlib.Omega.{arith}
use guanaco.Base.Lists.{All, All-map, range, range_from}
use guanaco.Base.Tests.{if◌then◌else◌, Bool-cases, ltb}

module _ {ℓ} {A : Type ℓ} (before : A → A → Bool) where
  unfoldable pub insert : A → List A → List A
  insert x [] = x ∷ []
  insert x (y ∷ ys) = if before y x then y ∷ insert x ys else x ∷ y ∷ ys

  unfoldable pub sort : List A → List A
  unfolding insert
  sort [] = []
  sort (x ∷ xs) = insert x (sort xs)

  insert-perm : (x : A) (ys : List A) → Perm (insert x ys) (x ∷ ys)
  unfolding insert
  insert-perm x [] = Perm.refl _
  insert-perm x (y ∷ ys) = elim (Bool-cases (before y x)) [
    | inl e ↦ rw e (Perm.trans (Perm.cons y (insert-perm x ys)) (Perm.swap x y ys))
    | inr e ↦ rw e (Perm.refl _)
  ]

  pub sort-perm : (xs : List A) → Perm (sort xs) xs
  unfolding sort
  sort-perm [] = Perm.refl []
  sort-perm (x ∷ xs) = Perm.trans (insert-perm x (sort xs)) (Perm.cons x (sort-perm xs))

insert-All {ℓ κ} :
    {A : Type ℓ} (before : A → A → Bool) (P : A → Type κ) (x : A) (ys : List A)
    → P x
    → All P ys
    → All P (insert before x ys)
unfolding insert
insert-All before P x [] p h = (p, tt)
insert-All before P x (y ∷ ys) p h = elim (Bool-cases (before y x)) [
  | inl e ↦ rw e (h.0, insert-All before P x ys p h.1)
  | inr e ↦ rw e (p, h)
]

pub All-sort {ℓ κ} :
    {A : Type ℓ} (before : A → A → Bool) (P : A → Type κ) (xs : List A)
    → All P xs
    → All P (sort before xs)
unfolding sort
All-sort before P [] h = tt
All-sort before P (x ∷ xs) h = insert-All before P x (sort before xs) h.0 (All-sort before P xs h.1)

All-range_from : (i n : ℕ) → All (λ x. x < i + n) (range_from i n)
unfolding range_from
All-range_from i zero = tt
All-range_from i (suc n) =
    (omega arith, All-map (range_from (i + 1) n) (λ a h. omega arith) (All-range_from (i + 1) n))

pub All-range : (n : ℕ) → All (λ x. x < n) (range n)
unfolding range
All-range n = All-map (range_from 0 n) (λ a h. omega arith) (All-range_from 0 n)

insert-All_inv {ℓ κ} :
    {A : Type ℓ} (before : A → A → Bool) (P : A → Type κ) (x : A) (ys : List A)
    → All P (insert before x ys)
    → P x × All P ys
unfolding insert
insert-All_inv before P x [] h = h
insert-All_inv before P x (y ∷ ys) h = elim (Bool-cases (before y x)) [
  | inl e ↦
      let h' : All P (y ∷ insert before x ys) = rw e at h in
      let rest = insert-All_inv before P x ys h'.1 in (rest.0, (h'.0, rest.1))
  | inr e ↦ let h' : All P (x ∷ y ∷ ys) = rw e at h in h'
]

-- The converse of All-sort.
pub All-sort_inv {ℓ κ} :
    {A : Type ℓ} (before : A → A → Bool) (P : A → Type κ) (xs : List A)
    → All P (sort before xs)
    → All P xs
unfolding sort
All-sort_inv before P [] h = tt
All-sort_inv before P (x ∷ xs) h =
    let both = insert-All_inv before P x (sort before xs) h in
    (both.0, All-sort_inv before P xs both.1)

-- Each element is at most every later one, by a key.
abbrev pub Ascending {ℓ} : {A : Type ℓ} → (A → ℕ) → List A → Type ℓ
Ascending key [] = Unit
Ascending key (x ∷ xs) = All (λ y. key x ≤ key y) xs × Ascending key xs

module _ {ℓ} {A : Type ℓ} (key : A → ℕ) where
  abbrev by_key : A → A → Bool
  by_key a b = ltb (key a) (key b)

  insert-Ascending : (x : A) (ys : List A) → Ascending key ys → Ascending key (insert by_key x ys)
  unfolding insert
  insert-Ascending x [] h = (tt, tt)
  insert-Ascending x (y ∷ ys) h = elim (Bool-cases (by_key y x)) [
    | inl e ↦
        rw e (
          insert-All by_key (λ z. key y ≤ key z) x ys (ground arith) h.0,
          insert-Ascending x ys h.1,
        )
    | inr e ↦
        let least : key x ≤ key y = ground arith in
        rw e ((least, All-map ys (λ z le. omega arith) h.0), h)
  ]

  pub sort-Ascending : (xs : List A) → Ascending key (sort by_key xs)
  unfolding sort
  sort-Ascending [] = tt
  sort-Ascending (x ∷ xs) = insert-Ascending x (sort by_key xs) (sort-Ascending xs)

-- Each element stands in the relation to every later one.
abbrev pub Ordered {ℓ κ} : {A : Type ℓ} → (A → A → Type κ) → List A → Type (ℓ ⊔ κ)
Ordered R [] = Unit
Ordered R (x ∷ xs) = All (R x) xs × Ordered R xs

module _ {ℓ κ} {A : Type ℓ} (before : A → A → Bool) (R : A → A → Type κ)
    (ahead : (x y : A) → before x y ≡ true → R x y)
    (behind : (x y : A) → before y x ≡ false → R x y)
    (trans : (x y z : A) → R x y → R y z → R x z) where
  insert-Ordered : (x : A) (ys : List A) → Ordered R ys → Ordered R (insert before x ys)
  unfolding insert
  insert-Ordered x [] h = (tt, tt)
  insert-Ordered x (y ∷ ys) h = elim (Bool-cases (before y x)) [
    | inl e ↦ rw e (insert-All before (R y) x ys (ahead y x e) h.0, insert-Ordered x ys h.1)
    | inr e ↦
        let least : R x y = behind x y e in
        rw e ((least, All-map ys (λ z r. trans x y z least r) h.0), h)
  ]

  -- Sorting orders by any relation that the comparator decides.
  pub sort-Ordered : (xs : List A) → Ordered R (sort before xs)
  unfolding sort
  sort-Ordered [] = tt
  sort-Ordered (x ∷ xs) = insert-Ordered x (sort before xs) (sort-Ordered xs)
