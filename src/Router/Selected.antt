-- ===== src/Router/Selected.antt =====
-- src/guanaco_router.cpp, process_router_output: the selected experts of a batch of tokens.
use guanaco.Base.{
  ℕ, zero, suc, ◌+◌, ◌*◌, ◌≤◌, ◌<◌, ◌≡◌, refl, ap, ◌∙◌, inl, inr, Bool, false, ◌||◌, List, [], ◌∷◌,
  map, take, range, arith, All, All-map, All-append, Bool-cases, ltb, leb, length, length-append,
  true, Option, some, ◌++◌, ◌==◌, ℤ,
}
use guanaco.Base.Sort.{sort, insert, Ordered, sort-Ordered, All-sort, All-range}
use guanaco.Router.{RouterOutput, best, scores, higher, choices, unique, decide}
use guanaco.Router.Choice.{All-take, length-take, length-sort-scores}

-- std::find
abbrev pub has : ℕ → List ℕ → Bool
has e [] = false
has e (x ∷ xs) = x == e || has e xs

has-insert : (e x : ℕ) (ys : List ℕ) → has e (insert ltb x ys) ≡ (x == e || has e ys)
unfolding insert
has-insert e x [] = refl
has-insert e x (y ∷ ys) = elim (Bool-cases (ltb y x)) [
  | inl later ↦ rw later (ap (λ b. y == e || b) (has-insert e x ys) ∙ ground arith)
  | inr here ↦ rw here refl
]

has-sort : (e : ℕ) (xs : List ℕ) → has e (sort ltb xs) ≡ has e xs
unfolding sort
has-sort e [] = refl
has-sort e (x ∷ xs) = has-insert e x (sort ltb xs) ∙ ap (λ b. x == e || b) (has-sort e xs)

has-unique : (e : ℕ) (xs : List ℕ) → has e (unique xs) ≡ has e xs
unfolding unique
has-unique e [] = refl
has-unique e (x ∷ []) = refl
has-unique e (x ∷ y ∷ ys) = elim (Bool-cases (x == y)) [
  | inl same ↦ rw same (has-unique e (y ∷ ys) ∙ ground (arith, same))
  | inr new ↦ rw new (ap (λ b. x == e || b) (has-unique e (y ∷ ys)))
]

All-unique {ℓ} : (P : ℕ → Type ℓ) (xs : List ℕ) → All P xs → All P (unique xs)
unfolding unique
All-unique P [] h = h
All-unique P (x ∷ []) h = h
All-unique P (x ∷ y ∷ ys) h = elim (Bool-cases (x == y)) [
  | inl same ↦ rw same (All-unique P (y ∷ ys) h.1)
  | inr new ↦ rw new (h.0, All-unique P (y ∷ ys) h.1)
]

unique-Ordered : (xs : List ℕ) → Ordered (λ a b. a ≤ b) xs → Ordered (λ a b. a < b) (unique xs)
unfolding unique
unique-Ordered [] h = tt
unique-Ordered (x ∷ []) h = (tt, tt)
unique-Ordered (x ∷ y ∷ ys) h = elim (Bool-cases (x == y)) [
  | inl same ↦ rw same (unique-Ordered (y ∷ ys) h.1)
  | inr new ↦
      let less : x < y = ground (arith, new, h.0.0) in
      rw new (
        All-unique (λ z. x < z) (y ∷ ys) (less, All-map ys (λ z le. omega arith) h.1.0),
        unique-Ordered (y ∷ ys) h.1,
      )
]

All-mapped {ℓ κ μ} :
    {A : Type ℓ} {B : Type κ} (P : B → Type μ) (f : A → B) (xs : List A)
    → All (λ a. P (f a)) xs
    → All P (map f xs)
All-mapped P f [] h = tt
All-mapped P f (x ∷ xs) h = (h.0, All-mapped P f xs h.1)

length-map {ℓ κ} :
    {A : Type ℓ} {B : Type κ} (f : A → B) (xs : List A) → length (map f xs) ≡ length xs
length-map f [] = refl
length-map f (x ∷ xs) = ap suc (length-map f xs)

module _ {F : Type 0} (gt : F → F → Bool) where
  -- `many` choices, each of one of n experts.
  abbrev Chosen : ℕ → ℕ → Option (List (F × ℕ)) → Type 0
  Chosen many n answer =
      (chosen : List (F × ℕ)) × (answer ≡ some chosen)
      × (length chosen ≡ many)
      × All (λ (p : F × ℕ). p.1 < n) chosen

  best-Chosen :
      (top_k : ℕ) (logits : ℕ → F) (n : ℕ) → top_k ≤ n → Chosen top_k n (best gt top_k logits n)
  unfolding best
  best-Chosen top_k logits n within =
      let ranked = sort (higher gt) (scores gt logits n) in
      let ok : leb top_k n ≡ true = ground arith in
      (
        take top_k ranked,
        rw (ok, best) refl,
        length-take top_k ranked (omega (arith, length-sort-scores gt logits n, within)),
        All-take (λ (p : F × ℕ). p.1 < n) top_k ranked
            (All-sort (higher gt) (λ (p : F × ℕ). p.1 < n) (scores gt logits n)
              (All-mapped (λ (p : F × ℕ). p.1 < n) (λ e. (logits e, e)) (range n) (All-range n))),
      )

  choices-Chosen :
      (top_k : ℕ) (logits : ℕ → F) (n t left : ℕ)
      → top_k ≤ n
      → Chosen (left * top_k) n (choices gt top_k logits n t left)
  unfolding choices
  choices-Chosen top_k logits n t zero within = ([], refl, grind arith, tt)
  choices-Chosen top_k logits n t (suc left) within =
      let (here, one, size, low) = best-Chosen top_k (λ e. logits (t * n + e)) n within in
      let (later, more, rest, lows) = choices-Chosen top_k logits n (suc t) left within in
      (
        here ++ later,
        rw (one, more, choices) refl,
        length-append here later ∙ grind (arith, size, rest),
        All-append (λ (p : F × ℕ). p.1 < n) here later low lows,
      )

  -- The output for a batch of tokens: its experts are those chosen for some token, below n, and its
  -- weights are those of the choices.
  pub record IsSelection (top_k tokens n : ℕ) (choice : Option (List (F × ℕ)))
      (answer : Option (RouterOutput F)) : Type 0 where
    pub chosen : List (F × ℕ)
    pub output : RouterOutput F
    pub choice_made : choice ≡ some chosen
    pub decided : answer ≡ some output
    pub ascending : Ordered (λ a b. a < b) output.selected_experts
    pub same : (e : ℕ) → has e output.selected_experts ≡ has e (map (λ (p : F × ℕ). p.1) chosen)
    pub valid : All (λ e. e < n) output.selected_experts
    pub weights : output.expert_weights ≡ map (λ (p : F × ℕ). p.0) chosen
    pub how_many : length output.expert_weights ≡ tokens * top_k

  -- Where top_k is at most the number of experts, the selected experts of a batch are strictly
  -- ascending, below the number of experts, and just those chosen for some token, and there are
  -- top_k weights for each token, those of the choices in their order.
  pub decide-IsSelection :
      (top_k : ℕ) (layer : ℤ) (logits : ℕ → F) (tokens n : ℕ)
      → top_k ≤ n
      → IsSelection top_k tokens n
          (choices gt top_k logits n 0 tokens)
          (decide gt top_k layer logits tokens n)
  unfolding decide
  decide-IsSelection top_k layer logits tokens n within =
      let (chosen, made, size, low) = choices-Chosen top_k logits n 0 tokens within in
      let ids = map (λ (p : F × ℕ). p.1) chosen in
      record {
        chosen = chosen;
        output = record {
          selected_experts = unique (sort ltb ids);
          expert_weights = map (λ (p : F × ℕ). p.0) chosen;
          layer_idx = layer;
          num_tokens = tokens;
          top_k = top_k;
        };
        choice_made = made;
        decided = rw (made, decide) refl;
        ascending = unique-Ordered (sort ltb ids) (
            sort-Ordered ltb (λ a b. a ≤ b) (λ x y e. ground arith) (λ x y e. ground arith)
              (λ x y z a b. omega arith) ids);
        same = λ e. has-unique e (sort ltb ids) ∙ has-sort e ids;
        valid =
            All-unique (λ e. e < n) (sort ltb ids)
              (All-sort ltb (λ e. e < n) ids
                (All-mapped (λ e. e < n) (λ (p : F × ℕ). p.1) chosen low));
        weights = refl;
        how_many = length-map (λ (p : F × ℕ). p.0) chosen ∙ size;
      }
