-- ===== src/Storage/Reads/Race/Alone.antt =====
-- src/guanaco_steppeloader.cpp, read_expert_async: what a thread reads where no other comes between its
-- calls, and where one does.
use guanaco.Base.{
  ℕ, ◌+◌, ◌-◌, ◌<◌, ◌≤◌, ◌≡◌, inl, inr, refl, sym, ap, ◌∙◌, true, Option, none, some, List, [], ◌∷◌,
  ◌++◌, if◌then◌else◌, ltb, min, ◌==◌, get_elem?, set, map, arith, Bool-cases, some_inj,
  get_elem?-set_self,
}
use mathlib.Core.Path.{subst}
use guanaco.Storage.Reads.{ReadPlan}
use guanaco.Storage.Reads.Race.{
  Phase, starting, reading, ready, failed, Thread, Answer, works, gives, fails, settled, call,
  Readers, turn, schedule, start,
}

-- Ranges one behind the other, from `at`: where they end.
unfoldable pub tiles : ℕ → List (ℕ × ℕ) → Option ℕ
tiles at [] = some at
tiles at ((o, n) ∷ ps) = if o == at then tiles (at + n) ps else none

tiles-append :
    (ps : List (ℕ × ℕ)) (at end n : ℕ)
    → tiles at ps ≡ some end
    → tiles at (ps ++ (end, n) ∷ []) ≡ some (end + n)
unfolding tiles
tiles-append [] at end n h =
    let same : at ≡ end = some_inj h in
    let here : (end == at) ≡ true = ground arith in rw here (ap some (ground arith))
tiles-append ((o, m) ∷ ps) at end n h = elim (Bool-cases (o == at)) [
  | inl here ↦ rw here (tiles-append ps (at + m) end n (rw here at h))
  | inr gap ↦ let h' : none ≡ some end = rw gap at h in absurd (cc)
]

-- What a thread that has been alone has read, by its phase.
abbrev Fine : Phase → ReadPlan → ℕ → List (ℕ × ℕ) → ℕ → Type 0
Fine starting p total pieces position = (pieces ≡ []) × (total ≡ 0)
Fine reading p total pieces position =
    (tiles p.offset pieces ≡ some position) × (position ≡ p.offset + total) × (total < p.size)
Fine ready p total pieces position = tiles p.offset pieces ≡ some (p.offset + p.size)
Fine failed p total pieces position = Unit {0}

abbrev IsFine : ℕ → Thread → Type 0
IsFine position t = Fine t.phase t.plan t.total_read t.pieces position

settled-Fine :
    (p : ReadPlan) (total : ℕ) (pieces : List (ℕ × ℕ)) (position : ℕ)
    → tiles p.offset pieces ≡ some position
    → position ≡ p.offset + total
    → total ≤ p.size
    → Fine (settled p total) p total pieces position
unfolding settled
settled-Fine p total pieces position h e le = elim (Bool-cases (ltb total p.size)) [
  | inl more ↦ rw more (h, e, ground arith)
  | inr all_ ↦ rw all_ (h ∙ ap some (ground arith))
]

call-Fine :
    (answer : Answer) (position : ℕ) (phase : Phase) (p : ReadPlan) (total : ℕ)
    (pieces : List (ℕ × ℕ))
    → Fine phase p total pieces position
    → IsFine
        (call answer position
          (record { plan = p; phase = phase; total_read = total; pieces = pieces })).0
        (call answer position
          (record { plan = p; phase = phase; total_read = total; pieces = pieces })).1
unfolding call tiles
call-Fine works position starting p total pieces f =
    settled-Fine p 0 pieces p.offset (ap (tiles p.offset) f.0) (omega arith) (omega arith)
call-Fine (gives n) position starting p total pieces f = f
call-Fine fails position starting p total pieces f = tt
call-Fine works position reading p total pieces f = f
call-Fine (gives more) position reading p total pieces f =
    let n = min (more + 1) (p.size - total) in
    settled-Fine p (total + n) (pieces ++ (position, n) ∷ []) (position + n)
      (tiles-append pieces p.offset position n f.0) (omega (arith, f.1)) (omega (arith, f.2))
call-Fine fails position reading p total pieces f = tt
call-Fine answer position ready p total pieces f = f
call-Fine answer position failed p total pieces f = tt

-- The thread's calls with no other thread's between them.
unfoldable pub calls : List Answer → ℕ → Thread → ℕ × Thread
calls [] position t = (position, t)
calls (a ∷ as_) position t = calls as_ (call a position t).0 (call a position t).1

pub calls-Fine :
    (as_ : List Answer) (position : ℕ) (t : Thread)
    → IsFine position t
    → IsFine (calls as_ position t).0 (calls as_ position t).1
unfolding calls
calls-Fine [] position t f = f
calls-Fine (a ∷ as_) position t f =
    calls-Fine as_ (call a position t).0 (call a position t).1
      (call-Fine a position t.phase t.plan t.total_read t.pieces f)

call-plan : (a : Answer) (position : ℕ) (t : Thread) → (call a position t).1.plan ≡ t.plan
unfolding call
call-plan a position t = ground arith

calls-plan :
    (as_ : List Answer) (position : ℕ) (t : Thread) → (calls as_ position t).1.plan ≡ t.plan
unfolding calls
calls-plan [] position t = refl
calls-plan (a ∷ as_) position t =
    calls-plan as_ (call a position t).0 (call a position t).1 ∙ call-plan a position t

turn-at :
    (a : Answer) (i : ℕ) (r : Readers) (t : Thread)
    → get_elem? r.threads i ≡ some t
    → turn i a r ≡ record {
      position = (call a r.position t).0;
      threads = set r.threads i (call a r.position t).1;
    }
unfolding turn
turn-at a i r t h = rw (h, turn) refl

-- A thread's turns with no other's between them are its calls.
pub schedule-calls :
    (as_ : List Answer) (i : ℕ) (r : Readers) (t : Thread)
    → get_elem? r.threads i ≡ some t
    → get_elem? (schedule (map (λ a. (i, a)) as_) r).threads i ≡ some (calls as_ r.position t).1
unfolding schedule calls
schedule-calls [] i r t h = h
schedule-calls (a ∷ as_) i r t h =
    let next : Readers = record {
      position = (call a r.position t).0;
      threads = set r.threads i (call a r.position t).1;
    } in
    ap (λ u. get_elem? (schedule (map (λ b. (i, b)) as_) u).threads i) (turn-at a i r t h)
    ∙ schedule-calls as_ i next (call a r.position t).1
        (get_elem?-set_self r.threads i t (call a r.position t).1 h)

-- If a reading thread runs with no other thread's call between its own and ends ready, its buffer
-- holds exactly the bytes of its slice, in order.
pub read_alone :
    (as_ : List Answer) (i : ℕ) (r : Readers) (p : ReadPlan) (t : Thread)
    → get_elem? r.threads i ≡ some (start p)
    → get_elem? (schedule (map (λ a. (i, a)) as_) r).threads i ≡ some t
    → t.phase ≡ ready
    → tiles p.offset t.pieces ≡ some (p.offset + p.size)
unfolding tiles
read_alone as_ i r p t h k e =
    let same : (calls as_ r.position (start p)).1 ≡ t =
      some_inj (sym (schedule-calls as_ i r (start p) h) ∙ k) in
    let fine : IsFine (calls as_ r.position (start p)).0 t =
      subst (IsFine (calls as_ r.position (start p)).0) same
        (calls-Fine as_ r.position (start p) (refl, refl)) in
    let plan : t.plan ≡ p =
      ap (λ (u : Thread). u.plan) (sym same) ∙ calls-plan as_ r.position (start p) in
    let ends : Fine ready t.plan t.total_read t.pieces (calls as_ r.position (start p)).0 =
      subst (λ ph. Fine ph t.plan t.total_read t.pieces (calls as_ r.position (start p)).0) e
        fine in
    subst (λ q. tiles q.offset t.pieces ≡ some (q.offset + q.size)) plan ends
