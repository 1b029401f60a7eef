-- ===== src/Dense/Async/Returns.antt =====
-- src/guanaco_steppeloader.cpp, ensure_layer: the wait for the completions of a layer's reads.
use guanaco.Base.{
  ℕ, zero, suc, ◌+◌, ◌-◌, ◌≤◌, ◌<◌, ◌≡◌, ◌⊎◌, refl, sym, ap, inl, inr, Bool, true, false, none,
  some, List, [], ◌∷◌, ℤ, pos, negsuc, ltb_ℤ, ◌==◌, leb, length, take, Option-cases, Bool-cases,
  arith, if◌then◌else◌,
}
use mathlib.Core.Path.{subst}
use guanaco.Uring.{IoUringSlab, Liburing, io_uring_slab_reap}
use guanaco.Uring.Loop.{reap-takes}
use guanaco.Dense.Async.{Inflight, find_inflight, one_less, complete, await_layer}

-- The completions that dense_inflight_ has a layer wait for.
unfoldable pub awaited : ℕ → Inflight → ℕ
awaited layer [] = 0
awaited layer ((l, n) ∷ m) =
    (if l == layer then (if leb n 1 then 1 else n) else 0) + awaited layer m

-- The completions of a layer, by their tokens.
unfoldable pub reads_for : ℕ → List (ℤ × ℤ) → ℕ
reads_for layer [] = 0
reads_for layer ((pos l, res) ∷ cs) =
    let rest = reads_for layer cs in if l == layer then suc rest else rest
reads_for layer ((negsuc n, res) ∷ cs) = reads_for layer cs

-- dense_inflight_ once completions are booked.
abbrev pub booked : List (ℤ × ℤ) → Inflight → Inflight
booked [] m = m
booked ((token, res) ∷ cs) m = booked cs (complete token m)

one_less-same : (layer : ℕ) (m : Inflight) → awaited layer (one_less layer m) ≡ awaited layer m - 1
unfolding one_less awaited
one_less-same layer [] = refl
one_less-same layer ((l, n) ∷ m) = elim (Bool-cases (l == layer)) [
  | inr other ↦
      let rest = one_less-same layer m in
      rw (other, one_less) (rw (other, awaited) (omega (arith, rest)))
  | inl same ↦ elim (Bool-cases (leb n 1)) [
    | inl last ↦ rw (same, last, one_less, awaited) (omega arith)
    | inr more ↦ rw (same, more, one_less) (rw (same, awaited) (ground (arith, more)))
  ]
]

one_less-other :
    (l layer : ℕ) (m : Inflight)
    → (l == layer) ≡ false
    → awaited layer (one_less l m) ≡ awaited layer m
unfolding one_less awaited
one_less-other l layer [] h = refl
one_less-other l layer ((k, n) ∷ m) h = elim (Bool-cases (k == l)) [
  | inr other ↦
      let rest = one_less-other l layer m h in
      rw (other, one_less)
        (ap (λ r. (if k == layer then (if leb n 1 then 1 else n) else 0) + r) rest)
  | inl same ↦
      let apart : (k == layer) ≡ false = ground (arith, same, h) in
      elim (Bool-cases (leb n 1)) [
        | inl last ↦ rw (same, last, one_less) (rw (apart, awaited) (omega arith))
        | inr more ↦ rw (same, more, one_less) (rw (apart, awaited) refl)
      ]
]

find_inflight-awaited :
    (layer n : ℕ) (m : Inflight) → find_inflight layer m ≡ some (suc n) → 0 < awaited layer m
unfolding awaited
find_inflight-awaited layer n [] h = absurd (cc)
find_inflight-awaited layer n ((l, k) ∷ m) h = elim (Bool-cases (l == layer)) [
  | inl here ↦ ground (arith, here)
  | inr other ↦
      let later = find_inflight-awaited layer n m (rw other at h) in ground (arith, other, later)
]

module _ {R : Type 0} (lib : Liburing R) where
  -- The ring gives these completions next, none of them with an error.
  abbrev pub Delivers : IoUringSlab R → List (ℤ × ℤ) → Type 0
  Delivers u [] = Unit {0}
  Delivers u ((token, res) ∷ cs) =
      ((io_uring_slab_reap lib u).1 ≡ some (token, res))
      × (ltb_ℤ res (pos 0) ≡ false)
      × Delivers (io_uring_slab_reap lib u).0 cs

  -- The wait succeeds: it has booked some of the completions, the first ones, and no read of the
  -- layer is left.
  pub record Awaited (layer : ℕ) (cs : List (ℤ × ℤ)) (m : Inflight)
      (answer : IoUringSlab R × Inflight × Bool) : Type 0 where
    pub reaped : ℕ
    pub left : answer.1 ≡ booked (take reaped cs) m
    pub finished : (find_inflight layer answer.1 ≡ none) ⊎ (find_inflight layer answer.1 ≡ some 0)
    pub succeeded : answer.2 ≡ true

  Delivers-in_flight :
      (cs : List (ℤ × ℤ)) (u : IoUringSlab R) → Delivers u cs → length cs ≤ lib.in_flight u.ring
  Delivers-in_flight [] u d = omega arith
  Delivers-in_flight ((token, res) ∷ cs) u d =
      let fewer = reap-takes lib u token res d.0 in
      omega (arith, fewer, Delivers-in_flight cs (io_uring_slab_reap lib u).0 d.2)

  awaited-one :
      (layer : ℕ) (token res : ℤ) (cs : List (ℤ × ℤ)) (m : Inflight)
      → awaited layer m ≤ reads_for layer ((token, res) ∷ cs)
      → awaited layer (complete token m) ≤ reads_for layer cs
  unfolding complete reads_for
  awaited-one layer (negsuc n) res cs m h = h
  awaited-one layer (pos l) res cs m h = elim (Bool-cases (l == layer)) [
    | inl same ↦
        let e : l ≡ layer = ground (arith, same) in
        let less = one_less-same layer m in
        subst (λ k. awaited layer (one_less k m) ≤ reads_for layer cs) (sym e)
          (ground (arith, same, less, h))
    | inr other ↦ ground (arith, other, one_less-other l layer m other)
  ]

  rounds-Awaited :
      (fuel layer : ℕ) (cs : List (ℤ × ℤ)) (u : IoUringSlab R) (m : Inflight)
      → length cs < fuel
      → Delivers u cs
      → awaited layer m ≤ reads_for layer cs
      → Awaited layer cs m (await_layer lib fuel layer u m true)
  unfolding await_layer reads_for
  rounds-Awaited zero layer cs u m h d enough = absurd (omega arith)
  rounds-Awaited (suc fuel) layer [] u m h d enough = elim (Option-cases (find_inflight layer m)) [
    | inl none_ ↦
        rw (none_, await_layer)
          (record { reaped = 0; left = refl; finished = inl none_; succeeded = refl })
    | inr (zero, done) ↦
        rw (done, await_layer)
          (record { reaped = 0; left = refl; finished = inr done; succeeded = refl })
    | inr (suc n, due) ↦ absurd (omega (arith, find_inflight-awaited layer n m due))
  ]
  rounds-Awaited (suc fuel) layer ((token, res) ∷ cs) u m h d enough =
      elim (Option-cases (find_inflight layer m)) [
        | inl none_ ↦
            rw (none_, await_layer)
              (record { reaped = 0; left = refl; finished = inl none_; succeeded = refl })
        | inr (zero, done) ↦
            rw (done, await_layer)
              (record { reaped = 0; left = refl; finished = inr done; succeeded = refl })
        | inr (suc n, due) ↦
            let rest =
              rounds-Awaited fuel layer cs (io_uring_slab_reap lib u).0 (complete token m)
                (omega arith) d.2 (awaited-one layer token res cs m enough) in
            rw (due, d.0, d.1, await_layer)
              (record {
                reaped = suc rest.reaped;
                left = rest.left;
                finished = rest.finished;
                succeeded = rest.succeeded;
              })
      ]

  -- Where the ring gives completions without errors, among them at least as many for a layer as
  -- dense_inflight_ has it wait for, the wait in ensure_layer ends with success and with no read
  -- of the layer in flight, and has booked the first of those completions, for the other layers
  -- too.
  pub await_layer-Awaited :
      (layer : ℕ) (cs : List (ℤ × ℤ)) (u : IoUringSlab R) (m : Inflight)
      → Delivers u cs
      → awaited layer m ≤ reads_for layer cs
      → Awaited layer cs m (await_layer lib (suc (lib.in_flight u.ring)) layer u m true)
  await_layer-Awaited layer cs u m d enough =
      rounds-Awaited (suc (lib.in_flight u.ring)) layer cs u m
        (omega (arith, Delivers-in_flight cs u d)) d enough
