-- ===== src/Dense/Boundary/Order.antt =====
-- What a layer boundary does to the residency of the layers.
use mathlib.Core.Path.{subst}
use guanaco.Base.{
  ℕ, ◌+◌, ◌-◌, ◌≤◌, ◌<◌, ◌≡◌, refl, sym, ap, ◌∙◌, inl, inr, Bool, true, false, not, ◌||◌, some,
  List, if◌then◌else◌, leb, ◌==◌, Bool-cases, Option-cases, get_or, length, arith, ℤ, pos, negsuc,
  min, ltb_ℤ,
}
use guanaco.Uring.{Liburing}
use guanaco.Dense.{Os, Pager, Loader, StreamTensor, find_layer}
use guanaco.Dense.Layer.{is_resident}
use guanaco.Dense.Layer.Core.{core, Leaves}
use guanaco.Dense.Async.{drain_inflight}
use guanaco.Dense.Boundary.{
  submit_ahead, ensure_next, evict_done, page_layer, new_pass, on_layer_boundary, ahead_of,
}
use guanaco.Dense.Boundary.Stages.{
  submit_ahead-Leaves, ensure_next-Filled, ensure_next-resident, evict_done-Evicted, Evicted-other,
  evict_done-prefix, evict_done-gone, Filled-prefix, Filled-core,
}

module _ {R : Type 0} (os : Os) (lib : Liburing R) where
  page_layer-prefix :
      (layer l : ℕ) (p : Pager R)
      → l < p.stream_resident_layers
      → is_resident p l ≡ true
      → is_resident (page_layer os lib layer p) l ≡ true
  unfolding page_layer
  page_layer-prefix layer l p low warm = elim (Bool-cases (leb p.stream_n_layers layer)) [
    | inl past ↦ rw (past, page_layer) warm
    | inr due ↦
        let rounds = min (layer + ahead_of p.prefetch_ahead + 1) p.stream_n_layers - p.submitted in
        let p0 = record p { boundaries = p.boundaries + 1 } in
        let p1 = submit_ahead os lib rounds p0 in
        let p2 = ensure_next os lib layer p1 in
        let sent = submit_ahead-Leaves os lib rounds p0 in
        let filled = ensure_next-Filled os lib layer p1 in
        let same : core p2 ≡ core p = Filled-core os lib (layer + 1) p1 p2 filled ∙ sent.0 in
        rw (due, page_layer)
          (evict_done-prefix os lib layer l p2 (subst (λ w. l < w) (sym (ap (λ c. c.0) same)) low) (
            Filled-prefix os lib (layer + 1) l p1 p2 filled
              (ap (λ b. get_or b l false) sent.1 ∙ warm)))
  ]

  page_layer-next :
      (layer : ℕ) (ts : List StreamTensor) (p : Pager R)
      → length p.layer_resident ≡ p.stream_n_layers
      → find_layer (layer + 1) p.stream_layers ≡ some ts
      → p.stream_resident_layers ≤ layer + 1
      → layer + 1 < p.stream_n_layers
      → is_resident (page_layer os lib layer p) (layer + 1) ≡ true
  unfolding page_layer
  page_layer-next layer ts p sized known low next =
      let rounds = min (layer + ahead_of p.prefetch_ahead + 1) p.stream_n_layers - p.submitted in
      let p0 = record p { boundaries = p.boundaries + 1 } in
      let p1 = submit_ahead os lib rounds p0 in
      let p2 = ensure_next os lib layer p1 in
      let (same, bits) = submit_ahead-Leaves os lib rounds p0 in
      let due : leb p.stream_n_layers layer ≡ false = ground arith in
      let w : p1.stream_resident_layers ≡ p.stream_resident_layers = ap (λ c. c.0) same in
      let n : p1.stream_n_layers ≡ p.stream_n_layers = ap (λ c. c.1) same in
      let warm =
        ensure_next-resident os lib layer ts p1 (ap (λ c. find_layer (layer + 1) c.2) same ∙ known)
          (omega (arith, w, low)) (omega (arith, n, next))
          (ap (λ b. length b) bits ∙ sized ∙ sym n) in
      rw (due, page_layer)
        (Evicted-other os lib layer (layer + 1) p2 (evict_done os lib layer p2)
            (evict_done-Evicted os lib layer p2) (omega arith)
          ∙ warm)

  page_layer-done :
      (layer : ℕ) (ts : List StreamTensor) (p : Pager R)
      → layer < p.stream_n_layers
      → find_layer layer p.stream_layers ≡ some ts
      → p.stream_resident_layers ≤ layer
      → is_resident (page_layer os lib layer p) layer ≡ false
  unfolding page_layer
  page_layer-done layer ts p high known low =
      let rounds = min (layer + ahead_of p.prefetch_ahead + 1) p.stream_n_layers - p.submitted in
      let p0 = record p { boundaries = p.boundaries + 1 } in
      let p1 = submit_ahead os lib rounds p0 in
      let p2 = ensure_next os lib layer p1 in
      let (sent, bits) = submit_ahead-Leaves os lib rounds p0 in
      let filled = ensure_next-Filled os lib layer p1 in
      let same : core p2 ≡ core p = Filled-core os lib (layer + 1) p1 p2 filled ∙ sent in
      let due : leb p.stream_n_layers layer ≡ false = ground arith in
      let w : p2.stream_resident_layers ≡ p.stream_resident_layers = ap (λ c. c.0) same in
      let n : p2.stream_n_layers ≡ p.stream_n_layers = ap (λ c. c.1) same in
      rw (due, page_layer)
        (evict_done-gone os lib layer ts p2 (ap (λ c. find_layer layer c.2) same ∙ known)
          (omega (arith, w, low)) (omega (arith, n, high)))

  module _ {F : Type 0} where
    new_pass-Leaves :
        (ld : Loader F R) → Leaves ld.pager ld.pager.layer_resident (new_pass os lib ld).pager
    unfolding new_pass drain_inflight
    new_pass-Leaves ld = elim (Option-cases ld.pager.uring) [
      | inl none_ ↦ rw (none_, new_pass, drain_inflight) (refl, refl)
      | inr (u, ring) ↦ rw (ring, new_pass, drain_inflight) (refl, refl)
    ]

    begun-Leaves :
        (ld : Loader F R) (b : Bool)
        → Leaves ld.pager ld.pager.layer_resident (if b then ld else new_pass os lib ld).pager
    begun-Leaves ld true = (refl, refl)
    begun-Leaves ld false = new_pass-Leaves ld

    -- A layer boundary never evicts a layer of the resident prefix.
    pub on_layer_boundary-prefix :
        (ld : Loader F R) (layer : ℤ) (l : ℕ)
        → l < ld.pager.stream_resident_layers
        → is_resident ld.pager l ≡ true
        → is_resident (on_layer_boundary os lib ld layer).pager l ≡ true
    unfolding on_layer_boundary
    on_layer_boundary-prefix ld (negsuc n) l low warm = warm
    on_layer_boundary-prefix ld (pos layer) l low warm =
        elim (Bool-cases (not ld.pager.dense_enabled || length ld.pager.stream_layers == 0)) [
          | inl off ↦ rw (off, on_layer_boundary) warm
          | inr on ↦
              let b = ltb_ℤ ld.pager.last_boundary_layer (pos layer) in
              let begun = if b then ld else new_pass os lib ld in
              let (same, bits) = begun-Leaves ld b in
              rw (on, on_layer_boundary)
                (page_layer-prefix layer l (record begun.pager { last_boundary_layer = pos layer })
                  (subst (λ w. l < w) (sym (ap (λ c. c.0) same)) low)
                  (ap (λ c. get_or c l false) bits ∙ warm))
        ]

    -- Where the pager is on with a residency bit for every layer, once a layer's boundary has run
    -- the next layer is resident, if it is a layer past the resident prefix and has tensors.
    pub on_layer_boundary-next :
        (ld : Loader F R) (layer : ℕ) (ts : List StreamTensor)
        → ld.pager.dense_enabled ≡ true
        → (length ld.pager.stream_layers == 0) ≡ false
        → length ld.pager.layer_resident ≡ ld.pager.stream_n_layers
        → find_layer (layer + 1) ld.pager.stream_layers ≡ some ts
        → ld.pager.stream_resident_layers ≤ layer + 1
        → layer + 1 < ld.pager.stream_n_layers
        → is_resident (on_layer_boundary os lib ld (pos layer)).pager (layer + 1) ≡ true
    unfolding on_layer_boundary
    on_layer_boundary-next ld layer ts enabled some_ sized known low next =
        let b = ltb_ℤ ld.pager.last_boundary_layer (pos layer) in
        let begun = if b then ld else new_pass os lib ld in
        let (same, bits) = begun-Leaves ld b in
        let p = record begun.pager { last_boundary_layer = pos layer } in
        let on : (not ld.pager.dense_enabled || length ld.pager.stream_layers == 0) ≡ false =
          rw enabled some_ in
        let w : p.stream_resident_layers ≡ ld.pager.stream_resident_layers = ap (λ c. c.0) same in
        let n : p.stream_n_layers ≡ ld.pager.stream_n_layers = ap (λ c. c.1) same in
        rw (on, on_layer_boundary)
          (page_layer-next layer ts p (ap (λ c. length c) bits ∙ sized ∙ sym n)
            (ap (λ c. find_layer (layer + 1) c.2) same ∙ known) (omega (arith, w, low))
            (omega (arith, n, next)))

    -- Where the pager is on, once a layer's boundary has run the layer is not resident, if it is a
    -- layer past the resident prefix and has tensors.
    pub on_layer_boundary-done :
        (ld : Loader F R) (layer : ℕ) (ts : List StreamTensor)
        → ld.pager.dense_enabled ≡ true
        → (length ld.pager.stream_layers == 0) ≡ false
        → layer < ld.pager.stream_n_layers
        → find_layer layer ld.pager.stream_layers ≡ some ts
        → ld.pager.stream_resident_layers ≤ layer
        → is_resident (on_layer_boundary os lib ld (pos layer)).pager layer ≡ false
    unfolding on_layer_boundary
    on_layer_boundary-done ld layer ts enabled some_ high known low =
        let b = ltb_ℤ ld.pager.last_boundary_layer (pos layer) in
        let begun = if b then ld else new_pass os lib ld in
        let (same, bits) = begun-Leaves ld b in
        let p = record begun.pager { last_boundary_layer = pos layer } in
        let on : (not ld.pager.dense_enabled || length ld.pager.stream_layers == 0) ≡ false =
          rw enabled some_ in
        let w : p.stream_resident_layers ≡ ld.pager.stream_resident_layers = ap (λ c. c.0) same in
        let n : p.stream_n_layers ≡ ld.pager.stream_n_layers = ap (λ c. c.1) same in
        rw (on, on_layer_boundary)
          (page_layer-done layer ts p (omega (arith, n, high))
            (ap (λ c. find_layer layer c.2) same ∙ known) (omega (arith, w, low)))
