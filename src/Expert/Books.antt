-- ===== src/Expert/Books.antt =====
-- expert_resident_bytes_ against the residency bits: what a loop over the tensors must keep so that
-- the counter is the number of bytes in loaded slices.
use guanaco.Base.{
  ℕ, suc, ◌+◌, ◌*◌, ◌≤◌, ◌<◌, ◌≡◌, refl, ◌∙◌, true, false, List, [], ◌∷◌, arith, length,
  count_below, count_below-flip, count_below-le, get_or-set_self, get_or-set_ne, length-set, sym,
  All, map,
}
use guanaco.Base.Words.{u64_mod}
use guanaco.Expert.{ExpertTensor, Ledger, is_loaded, load, unload, for_each}

module _ {F : Type 0} where
  -- The vectors of a registered tensor keep one entry for each expert, and its slices divide it.
  pub record IsSized (t : ExpertTensor F) : Type 0 where
    pub loaded : length t.loaded ≡ t.num_experts
    pub total_hits : length t.total_hits ≡ t.num_experts
    pub window_hits : length t.window_hits ≡ t.num_experts
    pub pinned : length t.pinned ≡ t.num_experts
    pub last_used : length t.last_used ≡ t.num_experts
    pub trans : length t.trans ≡ t.num_experts * t.num_experts
    pub slices : t.num_experts * t.per_expert_bytes ≡ t.byte_size

  abbrev pub loaded_slices : ExpertTensor F → ℕ
  loaded_slices t = count_below t.num_experts (is_loaded t)

  -- The bytes of the loaded slices.
  abbrev pub held : ExpertTensor F → ℕ
  held t = loaded_slices t * t.per_expert_bytes

  unfoldable pub total : (ExpertTensor F → ℕ) → List (ExpertTensor F) → ℕ
  total w [] = 0
  total w (t ∷ ts) = w t + total w ts

  pub loaded_slices-unload :
      (t : ExpertTensor F) (v : ℕ)
      → v < t.num_experts
      → length t.loaded ≡ t.num_experts
      → is_loaded t v ≡ true
      → loaded_slices t ≡ suc (loaded_slices (unload t v))
  loaded_slices-unload t v l len e =
      count_below-flip t.num_experts v _ _ l e
        (get_or-set_self t.loaded v false false (omega arith))
        (λ i ne. sym (get_or-set_ne t.loaded v i false false (λ c. ne (sym c))))

  pub loaded_slices-load :
      (t : ExpertTensor F) (v : ℕ)
      → v < t.num_experts
      → length t.loaded ≡ t.num_experts
      → is_loaded t v ≡ false
      → loaded_slices (load t v) ≡ suc (loaded_slices t)
  loaded_slices-load t v l len e =
      count_below-flip t.num_experts v _ _ l (get_or-set_self t.loaded v true false (omega arith)) e
        (λ i ne. get_or-set_ne t.loaded v i true false (λ c. ne (sym c)))

  pub unload-IsSized : (t : ExpertTensor F) (v : ℕ) → IsSized t → IsSized (unload t v)
  unload-IsSized t v z = record {
    loaded = length-set t.loaded v false ∙ z.loaded;
    total_hits = z.total_hits;
    window_hits = z.window_hits;
    pinned = z.pinned;
    last_used = z.last_used;
    trans = z.trans;
    slices = z.slices;
  }

  pub held-le : (t : ExpertTensor F) → IsSized t → held t ≤ t.byte_size
  held-le t z = grind (arith, count_below-le t.num_experts (is_loaded t))

  -- A body that keeps a tensor's size, and changes the counter by what it loads and unloads. `r` is
  -- what the other tensors hold.
  pub record Keeps (t : ExpertTensor F) (s : Ledger) (r : ℕ) (t' : ExpertTensor F) (s' : Ledger)
      : Type 0 where
    pub sized : IsSized t'
    pub bytes : t'.byte_size ≡ t.byte_size
    pub books : s'.expert_resident_bytes ≡ held t' + r

  abbrev pub Balanced : (ExpertTensor F → Ledger → ExpertTensor F × Ledger) → Type 0
  Balanced f =
      (t : ExpertTensor F) (s : Ledger) (r : ℕ)
      → IsSized t
      → s.expert_resident_bytes ≡ held t + r
      → t.byte_size + r < u64_mod
      → Keeps t s r (f t s).0 (f t s).1

  pub total-held-le :
      (ts : List (ExpertTensor F)) → All IsSized ts → total held ts ≤ total (λ t. t.byte_size) ts
  unfolding total
  total-held-le [] z = omega arith
  total-held-le (t ∷ ts) z = omega (arith, held-le t z.0, total-held-le ts z.1)

  pub for_each-Balanced :
      (f : ExpertTensor F → Ledger → ExpertTensor F × Ledger)
      → Balanced f
      → (ts : List (ExpertTensor F)) (s : Ledger) (r : ℕ) → All IsSized ts
      → s.expert_resident_bytes ≡ total held ts + r
      → total (λ t. t.byte_size) ts + r < u64_mod
      → All IsSized (for_each f ts s).0
        × (total (λ t. t.byte_size) (for_each f ts s).0 ≡ total (λ t. t.byte_size) ts)
        × ((for_each f ts s).1.expert_resident_bytes ≡ total held (for_each f ts s).0 + r)
  unfolding for_each total
  for_each-Balanced f b [] s r z e h = (tt, refl, e)
  for_each-Balanced f b (t ∷ ts) s r z e h =
      let step =
        b t s (total held ts + r) z.0 (omega arith) (omega (arith, total-held-le ts z.1)) in
      let rest =
        for_each-Balanced f b ts (f t s).1 (held (f t s).0 + r) z.1 (omega (arith, step.books))
          (omega (arith, step.bytes, held-le (f t s).0 step.sized)) in
      ((step.sized, rest.0), omega (arith, step.bytes, rest.1), omega (arith, rest.2))

  -- The counter is the bytes of the loaded slices; the bytes of all tensors, and `slack` more, fit a
  -- size_t.
  pub record IsBooked (slack : ℕ) (ts : List (ExpertTensor F)) (s : Ledger) : Type 0 where
    pub sized : All IsSized ts
    pub books : s.expert_resident_bytes ≡ total held ts
    pub fits : total (λ t. t.byte_size) ts + slack < u64_mod

  pub for_each-IsBooked :
      (f : ExpertTensor F → Ledger → ExpertTensor F × Ledger)
      → Balanced f
      → {slack : ℕ} (ts : List (ExpertTensor F)) (s : Ledger) → IsBooked slack ts s
      → IsBooked slack (for_each f ts s).0 (for_each f ts s).1
  for_each-IsBooked f b ts s h =
      let r =
        for_each-Balanced f b ts s 0 h.sized (omega (arith, h.books)) (omega (arith, h.fits)) in
      record { sized = r.0; books = omega (arith, r.2); fits = omega (arith, r.1, h.fits) }

  -- A change of a tensor that leaves sizes and residency alone.
  pub record Quiet (t t' : ExpertTensor F) : Type 0 where
    pub sized : IsSized t → IsSized t'
    pub held_same : held t' ≡ held t
    pub bytes_same : t'.byte_size ≡ t.byte_size

  map-IsSized :
      (f : ExpertTensor F → ExpertTensor F)
      → ((t : ExpertTensor F) → Quiet t (f t))
      → (ts : List (ExpertTensor F)) → All IsSized ts
      → All IsSized (map f ts)
  map-IsSized f q [] h = tt
  map-IsSized f q (t ∷ ts) h = ((q t).sized h.0, map-IsSized f q ts h.1)

  map-total :
      (w : ExpertTensor F → ℕ) (f : ExpertTensor F → ExpertTensor F)
      → ((t : ExpertTensor F) → w (f t) ≡ w t)
      → (ts : List (ExpertTensor F)) → total w (map f ts) ≡ total w ts
  unfolding total
  map-total w f q [] = refl
  map-total w f q (t ∷ ts) = omega (arith, q t, map-total w f q ts)

  pub map-IsBooked :
      (f : ExpertTensor F → ExpertTensor F)
      → ((t : ExpertTensor F) → Quiet t (f t))
      → {slack : ℕ} (ts : List (ExpertTensor F)) (s : Ledger) → IsBooked slack ts s
      → IsBooked slack (map f ts) s
  map-IsBooked f q ts s h = record {
    sized = map-IsSized f q ts h.sized;
    books = h.books ∙ sym (map-total held f (λ t. (q t).held_same) ts);
    fits = omega (arith, h.fits, map-total (λ t. t.byte_size) f (λ t. (q t).bytes_same) ts);
  }
