-- ===== src/Uring.antt =====
-- src/guanaco_io_uring.cpp: batched reads through io_uring. liburing is a parameter: its ring is a
-- state, and its calls are functions on it. A user_data token is the integer that it stands for.
pub mod Loop
use guanaco.Base.{
  ℕ, zero, suc, ◌+◌, ◌-◌, ◌<◌, ◌≡◌, Bool, true, false, ◌||◌, ◌&&◌, not, Option, none, some, List,
  [], ◌∷◌, if◌then◌else◌, ltb, leb, ◌==◌, ℤ, pos, negsuc, ltb_ℤ, length, take, drop,
}
use guanaco.Base.Words.{add64, sub64, inc64}

pub record IoUringSlice : Type 0 where
  pub dst : ℕ
  pub len : ℕ
  pub offset : ℕ

-- What io_uring_wait_cqe(_timeout) reports: -ETIME, another error, or a completion's token and res.
pub data Waited : Type 0 where
  timed_out failed : Waited
  completed : ℤ → ℤ → Waited

-- The calls of liburing. A ring has finitely many requests in flight, and a completion takes one.
pub record Liburing (R : Type 0) : Type 0 where
  pub get_sqe : R → R × Bool
  pub prep_read : IoUringSlice → ℤ → R → R
  pub submit : R → R × ℤ
  pub wait_cqe : ℕ → R → R × Waited
  pub in_flight : R → ℕ
  pub wait_takes :
      (timeout : ℕ) (r r' : R) (token res : ℤ)
      → wait_cqe timeout r ≡ (r', completed token res)
      → in_flight r' < in_flight r

pub record UringStats : Type 0 where
  pub reap_calls : ℕ
  pub reap_timeouts : ℕ
  pub reap_waits : ℕ
  pub hard_errors : ℕ
  pub sqe_submits : ℕ
  pub sqe_full : ℕ
  pub peak_outstanding : ℕ

-- An IoUringSlab, with g_uring_stats and g_reap_timeout_ms.
pub record IoUringSlab (R : Type 0) : Type 0 where
  pub ring : R
  pub ok : Bool
  pub fd_open : Bool
  pub reap_timeout_ms : ℕ
  pub stats : UringStats

module _ {R : Type 0} (lib : Liburing R) where
  -- prep_read and set_data on an entry
  unfoldable pub put : IoUringSlice → ℤ → IoUringSlab R → R → IoUringSlab R
  put s token u r = record u { ring = lib.prep_read s token r }

  -- The loop over the slices: `queued` and `pending`, or none where a flush fails.
  unfoldable pub queue_slices :
      ℤ → List IoUringSlice → IoUringSlab R → ℕ → ℕ → IoUringSlab R × Option (ℕ × ℕ)
  unfolding put
  queue_slices token [] u queued pending = (u, some (queued, pending))
  queue_slices token (s ∷ ss) u queued pending =
      let (r, got) = lib.get_sqe u.ring in
      elim got [
        | true ↦ queue_slices token ss (put s token u r) (queued + 1) (pending + 1)
        | false ↦
            let full = record u { stats = record u.stats { sqe_full = inc64 u.stats.sqe_full } } in
            let (r', rc) = lib.submit r in
            elim (ltb_ℤ rc (pos 0)) [
              | true ↦ (record full { ring = r' }, none)
              | false ↦
                  let (r'', got') = lib.get_sqe r' in
                  elim got' [
                    | true ↦ queue_slices token ss (put s token full r'') (queued + 1) 1
                    | false ↦ (record full { ring = r'' }, some (queued, 0))
                  ]
            ]
      ]

  -- peak_outstanding, and the result
  unfoldable pub note_depth : IoUringSlab R → ℕ → IoUringSlab R × Option ℕ
  note_depth u queued =
      let depth = sub64 u.stats.sqe_submits u.stats.reap_calls in
      let noted =
        if ltb u.stats.peak_outstanding depth
        then record u { stats = record u.stats { peak_outstanding = depth } }
        else u in
      (noted, if ltb 0 queued then some queued else none)

  unfoldable pub flush : IoUringSlab R × Option (ℕ × ℕ) → IoUringSlab R × Option ℕ
  unfolding note_depth
  flush (u, none) = (u, none)
  flush (u, some (queued, pending)) =
      if pending == 0
      then note_depth u queued
      else (let (r, rc) = lib.submit u.ring in
          if ltb_ℤ rc (pos 0)
          then (record u { ring = r }, none)
          else note_depth
              (record u {
                ring = r;
                stats = record u.stats { sqe_submits = add64 u.stats.sqe_submits pending };
              })
              queued)

  -- The number of requests queued; none is the source's -1.
  unfoldable pub io_uring_slab_submit :
      List IoUringSlice → ℤ → IoUringSlab R → IoUringSlab R × Option ℕ
  unfolding queue_slices flush
  io_uring_slab_submit slices token u =
      if not u.ok || not u.fd_open then (u, none) else flush (queue_slices token slices u 0 0)

  unfoldable pub count_reap : IoUringSlab R → R × Waited → IoUringSlab R × Option (ℤ × ℤ)
  count_reap u (r, timed_out) = (
    record u { ring = r; stats = record u.stats { reap_timeouts = inc64 u.stats.reap_timeouts } },
    none,
  )
  count_reap u (r, failed) = (
    record u { ring = r; stats = record u.stats { hard_errors = inc64 u.stats.hard_errors } },
    none,
  )
  count_reap u (r, completed token res) = (
    record u { ring = r; stats = record u.stats { reap_waits = inc64 u.stats.reap_waits } },
    some (token, res),
  )

  -- The completion's token and result; none is the source's false.
  unfoldable pub io_uring_slab_reap : IoUringSlab R → IoUringSlab R × Option (ℤ × ℤ)
  unfolding count_reap
  io_uring_slab_reap u =
      if not u.ok
      then (u, none)
      else count_reap
          (record u { stats = record u.stats { reap_calls = inc64 u.stats.reap_calls } })
          (lib.wait_cqe u.reap_timeout_ms u.ring)

  -- for (k = 0; k < n; ++k) in io_uring_slab_read: `all_ok` so far.
  unfoldable pub reap_part : ℕ → IoUringSlab R → Bool → IoUringSlab R × Bool
  unfolding io_uring_slab_reap
  reap_part zero u all_ok = (u, all_ok)
  reap_part (suc n) u all_ok =
      let (u', got) = io_uring_slab_reap u in
      elim got [
        | none ↦ (u', false)
        | some (token, res) ↦ reap_part n u' (all_ok && not (ltb_ℤ res (pos 0)))
      ]

  -- The chunks of 128 slices; the first number bounds the rounds.
  unfoldable pub read_chunks : ℕ → List IoUringSlice → IoUringSlab R → Bool → IoUringSlab R × Bool
  unfolding io_uring_slab_submit reap_part
  read_chunks fuel [] u all_ok = (u, all_ok)
  read_chunks zero (s ∷ ss) u all_ok = (u, false)
  read_chunks (suc fuel) (s ∷ ss) u all_ok =
      let (u', queued) = io_uring_slab_submit (take 128 (s ∷ ss)) (pos 0) u in
      elim queued [
        | none ↦ (u', false)
        | some n ↦
            let (u'', all_ok') = reap_part n u' all_ok in
            read_chunks fuel (drop 128 (s ∷ ss)) u'' all_ok'
      ]

  unfoldable pub io_uring_slab_read : List IoUringSlice → IoUringSlab R → IoUringSlab R × Bool
  unfolding read_chunks
  io_uring_slab_read slices u =
      if not u.ok || not u.fd_open || length slices == 0
      then (u, false)
      else read_chunks (length slices) slices u true
