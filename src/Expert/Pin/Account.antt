-- ===== src/Expert/Pin/Account.antt =====
-- Pinning and the byte counter.
use guanaco.Base.{
  ℕ, zero, suc, ◌+◌, ◌<◌, ◌≡◌, refl, ◌∙◌, inl, inr, Bool, true, ◌&&◌, not, List, [], ◌∷◌, arith,
  All, Bool-cases, length-set, range,
}
use guanaco.Base.Words.{u64_mod}
use guanaco.Base.Sort.{All-sort, All-range}
use guanaco.Madvise.{Kernel}
use guanaco.Expert.{Floats, ExpertTensor, Config, Ledger, is_loaded, is_pinned, budget_of}
use guanaco.Expert.Books.{IsSized, Keeps, Balanced, held}
use guanaco.Expert.Slices.{fault_in}
use guanaco.Expert.Prefetch.Account.{fault_in-Keeps}
use guanaco.Expert.Evict.{evict_to_budget}
use guanaco.Expert.Evict.Account.{evict_to_budget-Balanced}
use guanaco.Expert.Pin.{is_mapped, set_pin, pin_slice, pin_top, pin_hot, pin_body, pin_seeded}

module _ {F : Type 0} (k : Kernel) where
  set_pin-Keeps :
      (t : ExpertTensor F) (s : Ledger) (r id : ℕ)
      → IsSized t
      → s.expert_resident_bytes ≡ held t + r
      → Keeps t s r (set_pin t id s).0 (set_pin t id s).1
  unfolding set_pin
  set_pin-Keeps t s r id z e = record {
    sized = record {
      loaded = z.loaded;
      total_hits = z.total_hits;
      window_hits = z.window_hits;
      pinned = length-set t.pinned id true ∙ z.pinned;
      last_used = z.last_used;
      trans = z.trans;
      slices = z.slices;
    };
    bytes = refl;
    books = e;
  }

  pin_slice-Keeps :
      (t : ExpertTensor F) (s : Ledger) (r id : ℕ)
      → IsSized t
      → s.expert_resident_bytes ≡ held t + r
      → t.byte_size + r < u64_mod
      → id < t.num_experts
      → Keeps t s r (pin_slice k t id s).0 (pin_slice k t id s).1
  unfolding pin_slice
  pin_slice-Keeps t s r id z e h l = elim (Bool-cases (not (is_loaded t id) && is_mapped t)) [
    | inl fault ↦
        let f = fault_in-Keeps k t s r id z e h l (ground arith) in
        let p = set_pin-Keeps (fault_in k t id s).0 (fault_in k t id s).1 r id f.sized f.books in
        rw (fault, pin_slice)
          (record { sized = p.sized; bytes = p.bytes ∙ f.bytes; books = p.books })
    | inr stay ↦ rw (stay, pin_slice) (set_pin-Keeps t s r id z e)
  ]

  pin_slice-num :
      (t : ExpertTensor F) (s : Ledger) (id : ℕ)
      → (pin_slice k t id s).0.num_experts ≡ t.num_experts
  unfolding pin_slice
  pin_slice-num t s id = ground arith

  pub pin_top-Keeps :
      (unused : ExpertTensor F → ℕ → Bool) (topk : ℕ) (order : List ℕ) (t : ExpertTensor F)
      (s : Ledger) (r : ℕ)
      → IsSized t
      → s.expert_resident_bytes ≡ held t + r
      → t.byte_size + r < u64_mod
      → All (λ id. id < t.num_experts) order
      → Keeps t s r (pin_top k unused topk order t s).0 (pin_top k unused topk order t s).1
  unfolding pin_top
  pin_top-Keeps unused zero order t s r z e h o = record { sized = z; bytes = refl; books = e }
  pin_top-Keeps unused (suc topk) [] t s r z e h o = record { sized = z; bytes = refl; books = e }
  pin_top-Keeps unused (suc topk) (id ∷ order) t s r z e h o = elim (Bool-cases (is_pinned t id)) [
    | inl old ↦ rw (old, pin_top) (pin_top-Keeps unused topk order t s r z e h o.1)
    | inr new ↦ elim (Bool-cases (unused t id)) [
      | inl stop ↦ rw (new, stop, pin_top) (record { sized = z; bytes = refl; books = e })
      | inr go ↦
          let p = pin_slice-Keeps t s r id z e h o.0 in
          let t' = (pin_slice k t id s).0 in
          let rest =
            pin_top-Keeps unused topk order t' (pin_slice k t id s).1 r p.sized p.books
              (omega (arith, p.bytes)) (rw (pin_slice-num t s id) o.1) in
          rw (new, go, pin_top)
            (record { sized = rest.sized; bytes = rest.bytes ∙ p.bytes; books = rest.books })
    ]
  ]

  module _ (fl : Floats F) where
    pin_hot-Balanced : (c : Config F) → Balanced (pin_hot k fl c)
    unfolding pin_hot
    pin_hot-Balanced c t s r z e h =
        pin_top-Keeps _ (budget_of c t) _ t s r z e h
          (All-sort _ _ (range t.num_experts) (All-range t.num_experts))

    pub pin_seeded-Balanced : (c : Config F) → Balanced (pin_seeded k fl c)
    unfolding pin_seeded
    pin_seeded-Balanced c t s r z e h =
        pin_top-Keeps _ (budget_of c t) _ t s r z e h
          (All-sort _ _ (range t.num_experts) (All-range t.num_experts))

    pub pin_body-Balanced : (c : Config F) → Balanced (pin_body k fl c)
    unfolding pin_body
    pin_body-Balanced c t s r z e h =
        let p = pin_hot-Balanced c t s r z e h in
        let q =
          evict_to_budget-Balanced fl k c (pin_hot k fl c t s).0 (pin_hot k fl c t s).1 r p.sized
            p.books (omega (arith, p.bytes)) in
        let u = (pin_hot k fl c t s).0 in
        let v = (pin_hot k fl c t s).1 in
        let both : Keeps t s r (evict_to_budget fl k c u v).0 (evict_to_budget fl k c u v).1 =
          record { sized = q.sized; bytes = q.bytes ∙ p.bytes; books = q.books } in
        let same : Keeps t s r t s = record { sized = z; bytes = refl; books = e } in
        ground (arith, both, same)
