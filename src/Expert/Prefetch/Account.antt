-- ===== src/Expert/Prefetch/Account.antt =====
-- Prefetching and the byte counter: only slices that are not resident are faulted in, each once.
use mathlib.Core.Path.{subst}
use guanaco.Base.{
  ℕ, ◌+◌, ◌*◌, ◌<◌, ◌≡◌, ◌≢◌, refl, sym, ap, ◌∙◌, inl, inr, Bool, true, false, List, [], ◌∷◌, arith,
  set, ℤ, All, Bool-cases, length-set, get_or-set_ne,
}
use guanaco.Base.Words.{add64_small, u64_mod}
use guanaco.Madvise.{Kernel}
use guanaco.Expert.{ExpertTensor, Ledger, is_loaded, load}
use guanaco.Expert.Books.{IsSized, Keeps, Balanced, held, held-le, loaded_slices-load}
use guanaco.Expert.Slices.{fault_in}
use guanaco.Expert.Prefetch.{
  Classified, classify, fault_all, prefetch_tensor, prefetch_body, serves,
}
use guanaco.Expert.Prefetch.Classify.{Wanted, classify-Classifies}

Wanted-set :
    (loaded : List Bool) (n v : ℕ) (ids : List ℕ)
    → All (λ x. x ≢ v) ids
    → Wanted loaded n ids
    → Wanted (set loaded v true) n ids
Wanted-set loaded n v [] ne w = tt
Wanted-set loaded n v (id ∷ ids) ne w = (
  w.0,
  get_or-set_ne loaded v id true false (λ c. ne.0 (sym c)) ∙ w.1,
  w.2,
  Wanted-set loaded n v ids ne.1 w.3,
)

module _ {F : Type 0} (k : Kernel) where
  load-IsSized : (t : ExpertTensor F) (v : ℕ) → IsSized t → IsSized (load t v)
  load-IsSized t v z = record {
    loaded = length-set t.loaded v true ∙ z.loaded;
    total_hits = z.total_hits;
    window_hits = z.window_hits;
    pinned = z.pinned;
    last_used = z.last_used;
    trans = z.trans;
    slices = z.slices;
  }

  -- Faulting in a slice that was not resident.
  pub fault_in-Keeps :
      (t : ExpertTensor F) (s : Ledger) (r v : ℕ)
      → IsSized t
      → s.expert_resident_bytes ≡ held t + r
      → t.byte_size + r < u64_mod
      → v < t.num_experts
      → is_loaded t v ≡ false
      → Keeps t s r (fault_in k t v s).0 (fault_in k t v s).1
  unfolding fault_in
  fault_in-Keeps t s r v z e h l out =
      let more = ap (λ n. n * t.per_expert_bytes) (loaded_slices-load t v l z.loaded out) in
      let room = held-le (load t v) (load-IsSized t v z) in
      record {
        sized = load-IsSized t v z;
        bytes = refl;
        books = add64_small s.expert_resident_bytes t.per_expert_bytes (omega arith) ∙ omega arith;
      }

  fault_all-Keeps :
      (ids : List ℕ) (t : ExpertTensor F) (s : Ledger) (r : ℕ)
      → IsSized t
      → s.expert_resident_bytes ≡ held t + r
      → t.byte_size + r < u64_mod
      → Wanted t.loaded t.num_experts ids
      → Keeps t s r (fault_all k ids t s).0 (fault_all k ids t s).1
  unfolding fault_all fault_in
  fault_all-Keeps [] t s r z e h w = record { sized = z; bytes = refl; books = e }
  fault_all-Keeps (id ∷ ids) t s r z e h w =
      let step = fault_in-Keeps t s r id z e h w.0 w.1 in
      let rest =
        fault_all-Keeps ids (fault_in k t id s).0 (fault_in k t id s).1 r step.sized step.books h
          (Wanted-set t.loaded t.num_experts id ids w.2 w.3) in
      record { sized = rest.sized; bytes = rest.bytes; books = rest.books }

  prefetch_tensor-Balanced : (ids : List ℤ) → Balanced (prefetch_tensor {F = F} k ids)
  unfolding prefetch_tensor
  prefetch_tensor-Balanced ids t s r z e h =
      let start : Classified F = record { tensor = t; ledger = s; want = [] } in
      let c = classify ids start in
      let p = classify-Classifies ids start in
      let sized : IsSized c.tensor = subst IsSized (sym p.frame) (record {
        loaded = z.loaded;
        total_hits = z.total_hits;
        window_hits = z.window_hits;
        pinned = z.pinned;
        last_used = p.recency ∙ z.last_used;
        trans = z.trans;
        slices = z.slices;
      }) in
      let rest =
        fault_all-Keeps c.want c.tensor c.ledger r sized (omega (arith, p.bytes, ap held p.frame))
          (omega (arith, ap (λ u. u.byte_size) p.frame))
          (subst (λ (u : ExpertTensor F). Wanted u.loaded u.num_experts c.want) (sym p.frame)
            (p.want tt)) in
      record {
        sized = rest.sized;
        bytes = rest.bytes ∙ ap (λ u. u.byte_size) p.frame;
        books = rest.books;
      }

  -- Prefetching adds to the byte counter exactly what it loads.
  pub prefetch_body-Balanced :
      (layer : ℤ) (ids : List ℤ) → Balanced (prefetch_body {F = F} k layer ids)
  unfolding prefetch_body
  prefetch_body-Balanced layer ids t s r z e h = elim (Bool-cases (serves layer t)) [
    | inl yes_ ↦ rw (yes_, prefetch_body) (prefetch_tensor-Balanced ids t s r z e h)
    | inr no_ ↦ rw (no_, prefetch_body) (record { sized = z; bytes = refl; books = e })
  ]
