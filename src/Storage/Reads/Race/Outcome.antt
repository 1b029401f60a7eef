-- ===== src/Storage/Reads/Race/Outcome.antt =====
-- src/guanaco_steppeloader.cpp, read_expert_async: that a thread ends, and what two threads on the one
-- descriptor can come to.
use guanaco.Base.{
  ℕ, ◌+◌, ◌-◌, ◌<◌, ◌≤◌, ◌≡◌, refl, ap, ◌∙◌, true, false, some, List, [], ◌∷◌, ◌++◌, ltb, min,
  get_elem?, map, arith, Bool-cases, inl, inr, length, ltb→lt, lt→ltb,
}
use guanaco.Storage.Reads.{ReadPlan}
use guanaco.Storage.Reads.Race.{
  reading, ready, Thread, works, gives, settled, call, Readers, turn, schedule, start,
}
use guanaco.Storage.Reads.Race.Alone.{calls, tiles, schedule-calls, read_alone}

ready_stays :
    (ns : List ℕ) (position : ℕ) (t : Thread)
    → t.phase ≡ ready
    → (calls (map gives ns) position t).1.phase ≡ ready
unfolding calls call
ready_stays [] position t h = h
ready_stays (n ∷ ns) position t h = rw (h, calls, call) (ready_stays ns position t h)

settled-all : (p : ReadPlan) (total : ℕ) → p.size ≤ total → settled p total ≡ ready
unfolding settled
settled-all p total le =
    let done : ltb total p.size ≡ false = ground arith in rw (done, settled) refl

settled-more : (p : ReadPlan) (total : ℕ) → ltb total p.size ≡ true → settled p total ≡ reading
unfolding settled
settled-more p total more = rw (more, settled) refl

-- As many reads as there are bytes left are enough.
reads_finish :
    (ns : List ℕ) (position : ℕ) (t : Thread)
    → t.phase ≡ settled t.plan t.total_read
    → t.plan.size ≤ t.total_read + length ns
    → (calls (map gives ns) position t).1.phase ≡ ready
unfolding calls call
reads_finish [] position t h le = h ∙ settled-all t.plan t.total_read (omega (arith, le))
reads_finish (n ∷ ns) position t h le = elim (Bool-cases (ltb t.total_read t.plan.size)) [
  | inr all_ ↦
      ready_stays (n ∷ ns) position t (h ∙ settled-all t.plan t.total_read (ground (arith, all_)))
  | inl more ↦
      let phase : t.phase ≡ reading = h ∙ settled-more t.plan t.total_read more in
      let m = min (n + 1) (t.plan.size - t.total_read) in
      let next : Thread = record t {
        phase = settled t.plan (t.total_read + m);
        total_read = t.total_read + m;
        pieces = t.pieces ++ (position, m) ∷ [];
      } in
      let one : call (gives n) position t ≡ (position + m, next) = rw (phase, call) refl in
      ap (λ (u : ℕ × Thread). (calls (map gives ns) u.0 u.1).1.phase) one
      ∙ reads_finish ns (position + m) next refl
          (omega (arith, le, ltb→lt t.total_read t.plan.size more))
]

calls-ready :
    (ns : List ℕ) (position : ℕ) (p : ReadPlan)
    → p.size ≤ length ns
    → (calls (works ∷ map gives ns) position (start p)).1.phase ≡ ready
unfolding calls call
calls-ready ns position p le =
    reads_finish ns p.offset (record { plan = p; phase = settled p 0; total_read = 0; pieces = [] })
      refl (omega (arith, le))

-- A reading thread that runs alone, whose lseek works and each of whose reads gives a byte at
-- least, is ready after as many reads as its slice has bytes, with exactly the bytes of its slice.
pub reads_alone_finish :
    (ns : List ℕ) (i : ℕ) (r : Readers) (p : ReadPlan)
    → get_elem? r.threads i ≡ some (start p)
    → p.size ≤ length ns
    → (t : Thread) × (get_elem? (schedule (map (λ a. (i, a)) (works ∷ map gives ns)) r).threads i
        ≡ some t)
      × (t.phase ≡ ready)
      × (tiles p.offset t.pieces ≡ some (p.offset + p.size))
reads_alone_finish ns i r p h le =
    let as_ = works ∷ map gives ns in
    let t = (calls as_ r.position (start p)).1 in
    let there = schedule-calls as_ i r (start p) h in
    let done = calls-ready ns r.position p le in
    (t, there, done, read_alone as_ i r p t h there done)

-- Where a second thread seeks between the first one's lseek and its read, the first ends ready
-- with the bytes at the second one's offset; its slice is not empty.
pub first_reads_second :
    (p q : ReadPlan) (position : ℕ)
    → 0 < p.size
    → get_elem?
        (schedule
          ((0, works) ∷ (1, works) ∷ (0, gives p.size) ∷ [])
          (record { position = position; threads = start p ∷ start q ∷ [] })).threads
        0
      ≡ some (record {
        plan = p;
        phase = ready;
        total_read = p.size;
        pieces = (q.offset, p.size) ∷ [];
      })
unfolding schedule turn call
first_reads_second p q position more =
    let begun = settled-more p 0 (lt→ltb 0 p.size more) in
    let all_ : min (p.size + 1) (p.size - 0) ≡ p.size = omega arith in
    let whole : 0 + p.size ≡ p.size = omega arith in
    let done = settled-all p p.size (omega arith) in rw (begun, call, all_, whole, done) refl
