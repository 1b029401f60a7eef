-- ===== src/Expert/Calls.antt =====
-- src/guanaco_steppeloader.cpp, register_expert_tensor, pilot_prefetch_next_layer and
-- load_imatrix_prior: the byte counter across them.
use Prim.Native.String.{String}
use native.Mathlib.Nat.{div-add-mod'}
use guanaco.Base.{
  ℕ, ◌+◌, ◌*◌, ◌/◌, ◌%◌, ◌<◌, ◌≡◌, refl, ap, ◌∙◌, inl, inr, true, false, not, Option, List, [], ◌∷◌,
  ◌++◌, map, arith, length, List-cases, ℤ, pos, Bool-cases, length-replicate, get_or-replicate,
  All-append, get_or, replicate, count_below-all,
}
use guanaco.Base.Words.{add64, add64_small, mul64, mul64_small, u64_mod, inc64}
use guanaco.Madvise.{Kernel}
use guanaco.Expert.{Floats, ExpertTensor, Config, Experts}
use guanaco.Expert.Books.{IsSized, held, total, total-held-le}
use guanaco.Expert.Slices.{register_expert_tensor, fresh_tensor, accepts_tensor}
use guanaco.Expert.Pilot.Outcome.{pilot_outcome}
use guanaco.Expert.Pilot.{pilot_prefetch_next_layer}
use guanaco.Expert.Imatrix.{
  PriorFile, missing, unreadable, entries, seed_entries, apply_prior, read_prior,
  load_imatrix_prior,
}
use guanaco.Expert.Imatrix.Account.{seed_entries-IsBooked}
use guanaco.Expert.Invariant.{Booked, prefetch_experts-Booked, pin_seeded-Booked}

module _ {F : Type 0} (k : Kernel) (fl : Floats F) where
  fresh_tensor-IsSized :
      (c : Config F) (name : String) (layer : ℤ) (off size n : ℕ) (base : Option ℕ)
      → size % n ≡ 0
      → n * n < u64_mod
      → IsSized (fresh_tensor fl c name layer off size n base)
  unfolding fresh_tensor
  fresh_tensor-IsSized c name layer off size n base even small = record {
    loaded = length-replicate n true;
    total_hits = length-replicate n 0;
    window_hits = length-replicate n fl.zero_f;
    pinned = length-replicate n false;
    last_used = length-replicate n 0;
    trans = length-replicate (mul64 n n) 0 ∙ mul64_small n n small;
    slices = omega (arith, div-add-mod' size n);
  }

  fresh_tensor-held :
      (c : Config F) (name : String) (layer : ℤ) (off size n : ℕ) (base : Option ℕ)
      → size % n ≡ 0
      → held (fresh_tensor fl c name layer off size n base) ≡ size
  unfolding fresh_tensor
  fresh_tensor-held c name layer off size n base even =
      let all_ =
        count_below-all n (λ i. get_or (replicate n true) i false)
          (λ i l. get_or-replicate n i true false l) in
      omega (arith, ap (λ m. m * (size / n)) all_, div-add-mod' size n)

  fresh_tensor-bytes :
      (c : Config F) (name : String) (layer : ℤ) (off size n : ℕ) (base : Option ℕ)
      → (fresh_tensor fl c name layer off size n base).byte_size ≡ size
  unfolding fresh_tensor
  fresh_tensor-bytes c name layer off size n base = refl

  total-append :
      (w : ExpertTensor F → ℕ) (ts : List (ExpertTensor F)) (t : ExpertTensor F)
      → total w (ts ++ t ∷ []) ≡ total w ts + w t
  unfolding total
  total-append w [] t = omega arith
  total-append w (x ∷ xs) t = omega (arith, total-append w xs t)

  pub register-Booked :
      {slack : ℕ} (st : Experts F) (name : String) (layer : ℤ) (off size n : ℕ) (base : Option ℕ)
      → n * n < u64_mod
      → Booked (size + slack) st
      → Booked slack (register_expert_tensor fl st name layer off size n base)
  unfolding register_expert_tensor accepts_tensor
  register-Booked {slack} st name layer off size n base small b =
      elim (Bool-cases (accepts_tensor fl st name size n)) [
        | inl ok_ ↦
            let even : size % n ≡ 0 = ground arith in
            let t = fresh_tensor fl st.config name layer off size n base in
            let z = fresh_tensor-IsSized st.config name layer off size n base even small in
            let h = fresh_tensor-held st.config name layer off size n base even in
            let sum = total-append held st.tensors t in
            let bytes = total-append (λ u. u.byte_size) st.tensors t in
            rw (ok_, register_expert_tensor)
              (record {
                sized = All-append IsSized st.tensors (t ∷ []) b.sized (z, tt);
                books =
                    add64_small st.ledger.expert_resident_bytes size
                      (omega (arith, b.books, b.fits, total-held-le st.tensors b.sized))
                    ∙ omega (arith, sum, h, b.books);
                fits =
                    omega (
                      arith,
                      bytes,
                      b.fits,
                      fresh_tensor-bytes st.config name layer off size n base,
                    );
              })
        | inr no_ ↦
            rw (no_, register_expert_tensor)
              (record { sized = b.sized; books = b.books; fits = omega (arith, b.fits) })
      ]

  pub pilot-Booked :
      {slack : ℕ} (st : Experts F) (layer : ℤ) (ids : List ℤ)
      → Booked slack st
      → Booked slack (pilot_prefetch_next_layer fl k st layer ids)
  pilot-Booked {slack} st layer ids b = pilot_outcome k fl (Booked slack) st layer ids b (λ next ps.
      prefetch_experts-Booked k
        (record st {
          pilot_calls = inc64 st.pilot_calls;
          pilot_slice_reads = add64 st.pilot_slice_reads (length ps);
        })
        next (map pos ps) b)

  apply_prior-Booked :
      {slack : ℕ} (st : Experts F) (es : List (String × List ℤ))
      → Booked slack st
      → Booked slack (apply_prior k fl st es).0
  unfolding apply_prior
  apply_prior-Booked st es b =
      let r = seed_entries es st.tensors 0 in
      let seeded_st = record st { tensors = r.0 } in
      let q = seed_entries-IsBooked es st.tensors 0 st.ledger b in
      ground (arith, q, pin_seeded-Booked k fl seeded_st q)

  read_prior-Booked :
      {slack : ℕ} (st : Experts F) (file : PriorFile)
      → Booked slack st
      → Booked slack (read_prior k fl st file).0
  unfolding read_prior
  read_prior-Booked st missing b = b
  read_prior-Booked st unreadable b = b
  read_prior-Booked st (entries es) b = apply_prior-Booked st es b

  pub load_imatrix_prior-Booked :
      {slack : ℕ} (st : Experts F) (file : PriorFile)
      → Booked slack st
      → Booked slack (load_imatrix_prior k fl st file).0
  unfolding load_imatrix_prior
  load_imatrix_prior-Booked st file b = elim (List-cases st.tensors) [
    | inl none_ ↦ rw (none_, load_imatrix_prior) b
    | inr (t, ts, some_) ↦ elim (Bool-cases st.imatrix_seeded) [
      | inl again ↦ rw (some_, again, load_imatrix_prior) b
      | inr first ↦ elim (Bool-cases (not st.config.use_imatrix)) [
        | inl off ↦ rw (some_, first, off, load_imatrix_prior) b
        | inr on ↦
            rw (some_, first, on, load_imatrix_prior)
              (read_prior-Booked (record st { imatrix_seeded = true }) file b)
      ]
    ]
  ]
