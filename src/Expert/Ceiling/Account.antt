-- ===== src/Expert/Ceiling/Account.antt =====
-- The byte ceiling and the byte counter.
use guanaco.Base.{
  some_inj, get_or-true-lt, get_elem?-All, set-All, ℕ, zero, suc, ◌+◌, ◌*◌, ◌<◌, ◌≡◌, ap, ◌∙◌, true,
  some, List, [], ◌∷◌, arith, get_elem?, set, min,
}
use guanaco.Base.Words.{sub64_small}
use guanaco.Madvise.{Kernel}
use guanaco.Expert.{ExpertTensor, Ledger, is_loaded, unload}
use guanaco.Expert.Books.{
  IsBooked, unload-IsSized, IsSized, held, total, total-held-le, loaded_slices-unload,
}
use guanaco.Expert.Ceiling.{Slice, drop_slice, drop_slices}
use guanaco.Expert.Ceiling.Steps.{drop_slices-nil, drop_slices-cases}

module _ {F : Type 0} where
  total-set :
      (w : ExpertTensor F → ℕ) (ts : List (ExpertTensor F)) (i : ℕ) (t t' : ExpertTensor F)
      → get_elem? ts i ≡ some t
      → total w (set ts i t') + w t ≡ total w ts + w t'
  unfolding total
  total-set w [] i t t' e = absurd (cc)
  total-set w (x ∷ xs) zero t t' e = omega (arith, ap w (some_inj e))
  total-set w (x ∷ xs) (suc i) t t' e = omega (arith, total-set w xs i t t' e)

  module _ {slack : ℕ} (k : Kernel) where
    drop_one :
        (ts : List (ExpertTensor F)) (s : Ledger) (i v : ℕ) (t : ExpertTensor F)
        → IsBooked slack ts s
        → get_elem? ts i ≡ some t
        → is_loaded t v ≡ true
        → IsBooked slack (set ts i (unload t v)) (drop_slice k t v s)
    unfolding drop_slice
    drop_one ts s i v t b e held_v =
        let z = get_elem?-All IsSized ts i t b.sized e in
        let l : v < t.num_experts = omega (arith, get_or-true-lt t.loaded v held_v, z.loaded) in
        let fewer = ap (λ n. n * t.per_expert_bytes) (loaded_slices-unload t v l z.loaded held_v) in
        let swap = total-set held ts i t (unload t v) e in
        let same = total-set (λ u. u.byte_size) ts i t (unload t v) e in
        let room = total-held-le ts b.sized in
        record {
          sized = set-All IsSized ts i (unload t v) b.sized (unload-IsSized t v z);
          books =
              sub64_small s.expert_resident_bytes (min t.per_expert_bytes s.expert_resident_bytes)
                (omega arith) (omega (arith, b.books, b.fits))
              ∙ omega (arith, b.books);
          fits = omega (arith, b.fits);
        }

    pub drop_slices-IsBooked :
        (budget : ℕ) (cs : List Slice) (ts : List (ExpertTensor F)) (s : Ledger)
        → IsBooked slack ts s
        → IsBooked slack (drop_slices k budget cs ts s).0 (drop_slices k budget cs ts s).1
    drop_slices-IsBooked budget [] ts s b = rw (drop_slices-nil k budget ts s) b
    drop_slices-IsBooked budget (c ∷ cs) ts s b =
        drop_slices-cases k (λ r. IsBooked slack r.0 r.1) budget c cs ts s (λ _. b)
          (λ _. drop_slices-IsBooked budget cs ts s b)
          (λ t here held_c.
            drop_slices-IsBooked budget cs (set ts c.tensor (unload t c.id)) (drop_slice k t c.id s)
              (drop_one ts s c.tensor c.id t b here held_c))
