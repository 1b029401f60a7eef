-- ===== src/Storage/Reads/Race.antt =====
-- src/guanaco_steppeloader.cpp, read_expert_async: the threads, which lseek() and read() on one
-- descriptor, so that they share its position. A system call is a step; the schedule is a list of
-- threads with the answers that they get. A buffer is the list of the file's ranges in it.
pub mod Alone
pub mod Outcome
use guanaco.Base.{
  ℕ, ◌+◌, ◌-◌, Bool, true, false, Option, none, some, List, [], ◌∷◌, ◌++◌, if◌then◌else◌, ltb, min,
  get_elem?, set, map, ◌==◌,
}
use guanaco.Storage.Reads.{ReadPlan}

pub data Phase : Type 0 where
  starting reading ready failed : Phase

pub record Thread : Type 0 where
  pub plan : ReadPlan
  pub phase : Phase
  pub total_read : ℕ
  pub pieces : List (ℕ × ℕ)

-- What the kernel answers: lseek() works, read() gives that many bytes more than 0 (no more than were
-- asked for), or the call fails. The end of the file fails a read.
pub data Answer : Type 0 where
  works : Answer
  gives : ℕ → Answer
  fails : Answer

-- Where total_read has come to slice_size, is_ready is set.
unfoldable pub settled : ReadPlan → ℕ → Phase
settled p total = if ltb total p.size then reading else ready

-- The thread's next call: the position that it leaves, and the thread.
unfoldable pub call : Answer → ℕ → Thread → ℕ × Thread
call answer position t = elim t.phase [
  | starting ↦ elim answer [
    | works ↦ (t.plan.offset, record t { phase = settled t.plan 0; total_read = 0 })
    | gives _ ↦ (position, t)
    | fails ↦ (position, record t { phase = failed })
  ]
  | reading ↦ elim answer [
    | works ↦ (position, t)
    | gives more ↦
        let n = min (more + 1) (t.plan.size - t.total_read) in
        (
          position + n,
          record t {
            phase = settled t.plan (t.total_read + n);
            total_read = t.total_read + n;
            pieces = t.pieces ++ (position, n) ∷ [];
          },
        )
    | fails ↦ (position, record t { phase = failed })
  ]
  | ready ↦ (position, t)
  | failed ↦ (position, t)
]

-- The descriptor's position, and the threads.
pub record Readers : Type 0 where
  pub position : ℕ
  pub threads : List Thread

unfoldable pub turn : ℕ → Answer → Readers → Readers
turn i answer r = elim (get_elem? r.threads i) [
  | none ↦ r
  | some t ↦
      let (position, t') = call answer r.position t in
      record { position = position; threads = set r.threads i t' }
]

unfoldable pub schedule : List (ℕ × Answer) → Readers → Readers
unfolding turn
schedule [] r = r
schedule ((i, answer) ∷ rest) r = schedule rest (turn i answer r)

-- std::thread(…)
abbrev pub start : ReadPlan → Thread
start p = record { plan = p; phase = starting; total_read = 0; pieces = [] }
