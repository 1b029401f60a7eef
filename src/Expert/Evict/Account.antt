-- ===== src/Expert/Evict/Account.antt =====
-- evict_to_budget and the byte counter.
use guanaco.Base.{
  ℕ, zero, suc, ◌+◌, ◌-◌, ◌*◌, ◌<◌, ◌≡◌, refl, ap, ◌∙◌, inl, inr, Bool, true, false, arith, min,
  Option-cases,
}
use guanaco.Base.Words.{u64_mod, sub64_small}
use guanaco.Madvise.{Kernel}
use guanaco.Expert.{Floats, ExpertTensor, Config, Ledger, is_loaded, unload, budget_of}
use guanaco.Expert.Books.{
  unload-IsSized, IsSized, Keeps, Balanced, held, held-le, loaded_slices-unload,
}
use guanaco.Expert.Evict.{scan, evict_slice, reclaim, resident_count, two_passes, evict_to_budget}
use guanaco.Expert.Evict.Victim.{scan-IsOldest}
use guanaco.Expert.Evict.Reclaim.{reclaim-none, reclaim-some, reclaim-zero}

module _ {F : Type 0} (fl : Floats F) (k : Kernel) where
  evict_slice-books :
      (t : ExpertTensor F) (v : ℕ) (s : Ledger) (r : ℕ)
      → IsSized t
      → v < t.num_experts
      → is_loaded t v ≡ true
      → s.expert_resident_bytes ≡ held t + r
      → t.byte_size + r < u64_mod
      → (evict_slice fl k t v s).expert_resident_bytes ≡ held (unload t v) + r
  unfolding evict_slice
  evict_slice-books t v s r z l e b h =
      let fewer = ap (λ n. n * t.per_expert_bytes) (loaded_slices-unload t v l z.loaded e) in
      let below = held-le t z in
      sub64_small s.expert_resident_bytes (min t.per_expert_bytes s.expert_resident_bytes)
        (omega arith) (omega arith)
      ∙ omega arith

  pub reclaim-Keeps :
      (cold_only : Bool) (n : ℕ) (t : ExpertTensor F) (s : Ledger) (r : ℕ)
      → IsSized t
      → s.expert_resident_bytes ≡ held t + r
      → t.byte_size + r < u64_mod
      → Keeps t s r (reclaim fl k cold_only n t s).0 (reclaim fl k cold_only n t s).1
  reclaim-Keeps cold_only zero t s r z e h =
      rw (reclaim-zero fl k cold_only t s) (record { sized = z; bytes = refl; books = e })
  reclaim-Keeps cold_only (suc n) t s r z e h =
      elim (Option-cases (scan fl cold_only t t.num_experts).victim) [
        | inl stop ↦
            rw (reclaim-none fl k cold_only n t s stop)
              (record { sized = z; bytes = refl; books = e })
        | inr (v, go) ↦
            let found = (scan-IsOldest fl cold_only t t.num_experts).found v go in
            let rest =
              reclaim-Keeps cold_only n (unload t v) (evict_slice fl k t v s) r
                (unload-IsSized t v z) (evict_slice-books t v s r z found.0 found.1.0 e h) h in
            rw (reclaim-some fl k cold_only n t s v go)
              (record { sized = rest.sized; bytes = rest.bytes; books = rest.books })
      ]

  two_passes-Keeps :
      (n : ℕ) (t : ExpertTensor F) (s : Ledger) (r : ℕ)
      → IsSized t
      → s.expert_resident_bytes ≡ held t + r
      → t.byte_size + r < u64_mod
      → Keeps t s r (two_passes fl k n t s).0 (two_passes fl k n t s).1
  unfolding two_passes
  two_passes-Keeps n t s r z e h =
      let a = reclaim fl k true n t s in
      let first = reclaim-Keeps true n t s r z e h in
      let second =
        reclaim-Keeps false a.2 a.0 a.1 r first.sized first.books (omega (arith, first.bytes)) in
      record { sized = second.sized; bytes = second.bytes ∙ first.bytes; books = second.books }

  -- evict_to_budget takes from the byte counter exactly what it unloads.
  pub evict_to_budget-Balanced : (c : Config F) → Balanced (evict_to_budget fl k c)
  unfolding evict_to_budget
  evict_to_budget-Balanced c t s r z e h =
      ground (arith, two_passes-Keeps (resident_count fl k t - budget_of c t) t s r z e h)
