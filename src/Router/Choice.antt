-- ===== src/Router/Choice.antt =====
-- src/guanaco_router.cpp: the best experts of one token.
use mathlib.Core.List.{Perm}
use mathlib.Core.Path.{subst}
use guanaco.Base.{
  ℕ, zero, suc, ◌≡◌, ◌≤◌, refl, sym, ap, ◌∙◌, Bool, Option, some, leb, length, arith, map, range,
  range_from, ◌+◌, Bool-cases, inl, inr, true, false, List, [], ◌∷◌, ◌++◌, take, drop, All,
}
use guanaco.Base.Sort.{sort, insert, sort-perm, Ordered, sort-Ordered}
use guanaco.Router.{best, scores, higher}

take-drop {ℓ} : {A : Type ℓ} (n : ℕ) (xs : List A) → take n xs ++ drop n xs ≡ xs
take-drop zero xs = refl
take-drop (suc n) [] = refl
take-drop (suc n) (x ∷ xs) = ap (λ r. x ∷ r) (take-drop n xs)

All-drop {ℓ κ} : {A : Type ℓ} (P : A → Type κ) (n : ℕ) (xs : List A) → All P xs → All P (drop n xs)
All-drop P zero xs h = h
All-drop P (suc n) [] h = h
All-drop P (suc n) (x ∷ xs) h = All-drop P n xs h.1

-- What is kept comes before what is left.
take-Ordered {ℓ κ} :
    {A : Type ℓ} (R : A → A → Type κ) (n : ℕ) (xs : List A)
    → Ordered R xs
    → All (λ x. All (R x) (drop n xs)) (take n xs)
take-Ordered R zero xs h = tt
take-Ordered R (suc n) [] h = tt
take-Ordered R (suc n) (x ∷ xs) h = (All-drop (R x) n xs h.0, take-Ordered R n xs h.1)

pub All-take {ℓ κ} :
    {A : Type ℓ} (P : A → Type κ) (n : ℕ) (xs : List A) → All P xs → All P (take n xs)
All-take P zero xs h = tt
All-take P (suc n) [] h = h
All-take P (suc n) (x ∷ xs) h = (h.0, All-take P n xs h.1)

-- What is kept is in order.
take-still_Ordered {ℓ κ} :
    {A : Type ℓ} (R : A → A → Type κ) (n : ℕ) (xs : List A) → Ordered R xs → Ordered R (take n xs)
take-still_Ordered R zero xs h = tt
take-still_Ordered R (suc n) [] h = tt
take-still_Ordered R (suc n) (x ∷ xs) h = (All-take (R x) n xs h.0, take-still_Ordered R n xs h.1)

pub length-take {ℓ} : {A : Type ℓ} (n : ℕ) (xs : List A) → n ≤ length xs → length (take n xs) ≡ n
length-take zero xs h = refl
length-take (suc n) [] h = absurd (omega arith)
length-take (suc n) (x ∷ xs) h = ap suc (length-take n xs (omega arith))

length-insert {ℓ} :
    {A : Type ℓ} (before : A → A → Bool) (x : A) (ys : List A)
    → length (insert before x ys) ≡ suc (length ys)
unfolding insert
length-insert before x [] = refl
length-insert before x (y ∷ ys) = elim (Bool-cases (before y x)) [
  | inl later ↦ rw later (ap suc (length-insert before x ys))
  | inr here ↦ rw here refl
]

length-sort {ℓ} :
    {A : Type ℓ} (before : A → A → Bool) (xs : List A) → length (sort before xs) ≡ length xs
unfolding sort
length-sort before [] = refl
length-sort before (x ∷ xs) =
    length-insert before x (sort before xs) ∙ ap suc (length-sort before xs)

length-map-range_from {ℓ} : {A : Type ℓ} (f : ℕ → A) (i n : ℕ) → length (map f (range_from i n)) ≡ n
unfolding range_from
length-map-range_from f i zero = refl
length-map-range_from f i (suc n) = ap suc (length-map-range_from f (i + 1) n)

pub length-sort-scores :
    {F : Type 0} (gt : F → F → Bool) (logits : ℕ → F) (n : ℕ)
    → length (sort (higher gt) (scores gt logits n)) ≡ n
unfolding range
length-sort-scores gt logits n =
    length-sort (higher gt) (scores gt logits n) ∙ length-map-range_from (λ e. (logits e, e)) 0 n

module _ {F : Type 0} (gt : F → F → Bool) where
  -- A choice of top_k experts of n, with the others.
  pub record IsTopChoice (top_k : ℕ) (logits : ℕ → F) (n : ℕ) (answer : Option (List (F × ℕ)))
      : Type 0 where
    pub chosen : List (F × ℕ)
    pub others : List (F × ℕ)
    pub defined : answer ≡ some chosen
    pub how_many : length chosen ≡ top_k
    pub all_of_them : Perm (chosen ++ others) (scores gt logits n)
    pub best_first : Ordered (λ (a b : F × ℕ). gt b.0 a.0 ≡ false) chosen
    pub none_higher : All (λ b. All (λ (o : F × ℕ). gt o.0 b.0 ≡ false) others) chosen

  -- Where top_k is at most the number of experts and float comparison is a strict weak order, the
  -- choice for a token is top_k experts, none before one with a higher logit; with the others they
  -- are all the experts, and no other has a higher logit than a chosen one.
  pub best-IsTopChoice :
      (top_k : ℕ) (logits : ℕ → F) (n : ℕ)
      → top_k ≤ n
      → ((a b : F) → gt a b ≡ true → gt b a ≡ false)
      → ((a b c : F) → gt b a ≡ false → gt c b ≡ false → gt c a ≡ false)
      → IsTopChoice top_k logits n (best gt top_k logits n)
  unfolding best
  best-IsTopChoice top_k logits n within asym weak =
      let all_ = sort (higher gt) (scores gt logits n) in
      let sorted =
        sort-Ordered (higher gt) (λ (a b : F × ℕ). gt b.0 a.0 ≡ false) (λ x y e. asym x.0 y.0 e)
          (λ x y e. e) (λ x y z e d. weak x.0 y.0 z.0 e d) (scores gt logits n) in
      let ok : leb top_k n ≡ true = ground arith in
      let size : length all_ ≡ n = length-sort-scores gt logits n in
      record {
        chosen = take top_k all_;
        others = drop top_k all_;
        defined = rw (ok, best) refl;
        how_many = length-take top_k all_ (omega (arith, size, within));
        all_of_them =
            subst (λ u. Perm u (scores gt logits n)) (sym (take-drop top_k all_))
              (sort-perm (higher gt) (scores gt logits n));
        best_first = take-still_Ordered (λ (a b : F × ℕ). gt b.0 a.0 ≡ false) top_k all_ sorted;
        none_higher = take-Ordered (λ (a b : F × ℕ). gt b.0 a.0 ≡ false) top_k all_ sorted;
      }
