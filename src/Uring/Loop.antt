-- ===== src/Uring/Loop.antt =====
-- src/guanaco_io_uring.cpp: a completion that io_uring_slab_reap gives is one less in flight.
use guanaco.Base.{ℕ, ◌<◌, ◌≡◌, refl, inl, inr, not, none, some, ℤ, Bool-cases}
use guanaco.Base.Words.{inc64}
use guanaco.Uring.{
  Liburing, IoUringSlab, Waited, timed_out, failed, completed, count_reap, io_uring_slab_reap,
}

module _ {R : Type 0} (lib : Liburing R) where
  count_reap-takes :
      (u : IoUringSlab R) (w : R × Waited) (timeout : ℕ) (r : R) (token res : ℤ)
      → lib.wait_cqe timeout r ≡ w
      → (count_reap lib u w).1 ≡ some (token, res)
      → lib.in_flight (count_reap lib u w).0.ring < lib.in_flight r
  unfolding count_reap
  count_reap-takes u (r', timed_out) timeout r token res waited got = absurd (cc)
  count_reap-takes u (r', failed) timeout r token res waited got = absurd (cc)
  count_reap-takes u (r', completed token' res') timeout r token res waited got =
      lib.wait_takes timeout r r' token' res' waited

  pub reap-takes :
      (u : IoUringSlab R) (token res : ℤ)
      → (io_uring_slab_reap lib u).1 ≡ some (token, res)
      → lib.in_flight (io_uring_slab_reap lib u).0.ring < lib.in_flight u.ring
  unfolding io_uring_slab_reap
  reap-takes u token res got = elim (Bool-cases (not u.ok)) [
    | inl dead ↦ let none_ : none ≡ some (token, res) = rw dead at got in absurd (cc)
    | inr live ↦
        let u' = record u { stats = record u.stats { reap_calls = inc64 u.stats.reap_calls } } in
        let w = lib.wait_cqe u.reap_timeout_ms u.ring in
        let got' : (count_reap lib u' w).1 ≡ some (token, res) = rw live at got in
        rw (live, io_uring_slab_reap)
          (count_reap-takes u' w u.reap_timeout_ms u.ring token res refl got')
  ]
