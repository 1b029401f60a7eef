-- ===== src/Dense/Boundary/Stages.antt =====
-- What the stages of a layer boundary do to the residency bits.
use guanaco.Base.{
  if_either, ℕ, zero, suc, ◌+◌, ◌≤◌, ◌<◌, ◌≡◌, ◌≢◌, refl, ap, ◌∙◌, ◌⊎◌, inl, inr, Bool, true, false,
  ◌&&◌, some, List, [], ◌∷◌, if◌then◌else◌, ltb, leb, Bool-cases, Option-cases, get_or, set, length,
  get_or-set_ne, arith,
}
use guanaco.Uring.{Liburing}
use guanaco.Dense.{Os, Pager, StreamTensor, find_layer}
use guanaco.Dense.Layer.{is_resident, evict_layer}
use guanaco.Dense.Layer.Core.{core, Leaves, Filled}
use guanaco.Dense.Layer.Gone.{evict_layer-Leaves}
use guanaco.Dense.Async.{submit_layer_async, ensure_layer}
use guanaco.Dense.Async.Core.{submit_layer-Leaves, ensure_layer-Filled, ensure_layer-resident}
use guanaco.Dense.Boundary.{submit_ahead, ensure_next, evict_done}

set-true-keeps :
    (bits : List Bool) (i l : ℕ)
    → get_or bits l false ≡ true
    → get_or (set bits i true) l false ≡ true
set-true-keeps [] i l h = h
set-true-keeps (b ∷ bs) zero zero h = refl
set-true-keeps (b ∷ bs) zero (suc l) h = h
set-true-keeps (b ∷ bs) (suc i) zero h = h
set-true-keeps (b ∷ bs) (suc i) (suc l) h = set-true-keeps bs i l h

clear_own_bit : (bits : List Bool) (i : ℕ) → get_or (set bits i false) i false ≡ false
clear_own_bit [] i = refl
clear_own_bit (b ∷ bs) zero = refl
clear_own_bit (b ∷ bs) (suc i) = clear_own_bit bs i

module _ {R : Type 0} (os : Os) (lib : Liburing R) where
  pub submit_ahead-Leaves :
      (rounds : ℕ) (p : Pager R) → Leaves p p.layer_resident (submit_ahead os lib rounds p)
  unfolding submit_ahead
  submit_ahead-Leaves zero p = (refl, refl)
  submit_ahead-Leaves (suc rounds) p =
      let sent = (submit_layer_async lib p.submitted p).0 in
      let tried = if leb p.stream_resident_layers p.submitted then sent else p in
      let (a, b) : Leaves p p.layer_resident tried =
        if_either (Leaves p p.layer_resident) (leb p.stream_resident_layers p.submitted) sent p
          (submit_layer-Leaves lib p.submitted p) (refl, refl) in
      let (c, d) = submit_ahead-Leaves rounds (record tried { submitted = p.submitted + 1 }) in
      (c ∙ a, d ∙ b)

  pub ensure_next-Filled :
      (layer : ℕ) (p : Pager R) → Filled os lib (layer + 1) p (ensure_next os lib layer p)
  unfolding ensure_next
  ensure_next-Filled layer p =
      if_either (Filled os lib (layer + 1) p)
        (leb p.stream_resident_layers (layer + 1) && ltb (layer + 1) p.stream_n_layers)
        (ensure_layer lib os (layer + 1) p) p (ensure_layer-Filled lib os (layer + 1) p)
        (inl (refl, refl))

  pub ensure_next-resident :
      (layer : ℕ) (ts : List StreamTensor) (p : Pager R)
      → find_layer (layer + 1) p.stream_layers ≡ some ts
      → p.stream_resident_layers ≤ layer + 1
      → layer + 1 < p.stream_n_layers
      → length p.layer_resident ≡ p.stream_n_layers
      → is_resident (ensure_next os lib layer p) (layer + 1) ≡ true
  unfolding ensure_next
  ensure_next-resident layer ts p known low high sized =
      let due : (leb p.stream_resident_layers (layer + 1) && ltb (layer + 1) p.stream_n_layers)
          ≡ true =
        ground arith in
      rw (due, ensure_next)
        (ensure_layer-resident lib os (layer + 1) ts p known (omega (arith, high, sized)))

  -- At most the layer's own bit is cleared.
  abbrev pub Evicted : ℕ → Pager R → Pager R → Type 0
  Evicted layer p p' = Leaves p p.layer_resident p' ⊎ Leaves p (set p.layer_resident layer false) p'

  evict_layer-Evicted :
      (layer : ℕ) (p : Pager R)
      → is_resident p layer ≡ true
      → Evicted layer p (evict_layer os layer p)
  unfolding evict_layer
  evict_layer-Evicted layer p warm = elim (Option-cases (find_layer layer p.stream_layers)) [
    | inl none_ ↦ rw (none_, evict_layer) (inl (refl, refl))
    | inr (ts, known) ↦ inr (evict_layer-Leaves os layer ts p known warm)
  ]

  pub evict_done-Evicted : (layer : ℕ) (p : Pager R) → Evicted layer p (evict_done os lib layer p)
  unfolding evict_done
  evict_done-Evicted layer p =
      elim (Bool-cases (
        leb p.stream_resident_layers layer && ltb layer p.stream_n_layers && is_resident p layer)) [
          | inl due ↦ rw (due, evict_done) (evict_layer-Evicted layer p (ground arith))
          | inr kept ↦ rw (kept, evict_done) (inl (refl, refl))
        ]

  pub Evicted-other :
      (layer l : ℕ) (p p' : Pager R)
      → Evicted layer p p'
      → layer ≢ l
      → is_resident p' l ≡ is_resident p l
  Evicted-other layer l p p' (inl (same, bits)) other = ap (λ b. get_or b l false) bits
  Evicted-other layer l p p' (inr (same, bits)) other =
      ap (λ b. get_or b l false) bits ∙ get_or-set_ne p.layer_resident layer l false false other

  pub evict_done-prefix :
      (layer l : ℕ) (p : Pager R)
      → l < p.stream_resident_layers
      → is_resident p l ≡ true
      → is_resident (evict_done os lib layer p) l ≡ true
  unfolding evict_done
  evict_done-prefix layer l p low warm =
      elim (Bool-cases (
        leb p.stream_resident_layers layer && ltb layer p.stream_n_layers && is_resident p layer)) [
          | inr kept ↦ rw (kept, evict_done) warm
          | inl due ↦
              let other : layer ≢ l = ground arith in
              let gone = evict_layer-Evicted layer p (ground arith) in
              rw (due, evict_done)
                (Evicted-other layer l p (evict_layer os layer p) gone other ∙ warm)
        ]

  pub evict_done-gone :
      (layer : ℕ) (ts : List StreamTensor) (p : Pager R)
      → find_layer layer p.stream_layers ≡ some ts
      → p.stream_resident_layers ≤ layer
      → layer < p.stream_n_layers
      → is_resident (evict_done os lib layer p) layer ≡ false
  unfolding evict_done
  evict_done-gone layer ts p known low high = elim (Bool-cases (is_resident p layer)) [
    | inl warm ↦
        let due : (leb p.stream_resident_layers layer
              && ltb layer p.stream_n_layers
              && is_resident p layer)
            ≡ true =
          rw warm (ground arith) in
        rw (due, evict_done)
          (ap (λ b. get_or b layer false) (evict_layer-Leaves os layer ts p known warm).1
            ∙ clear_own_bit p.layer_resident layer)
    | inr cold ↦
        let idle : (leb p.stream_resident_layers layer
              && ltb layer p.stream_n_layers
              && is_resident p layer)
            ≡ false =
          rw cold (ground arith) in
        rw (idle, evict_done) cold
  ]

  pub Filled-prefix :
      (layer l : ℕ) (p p' : Pager R)
      → Filled os lib layer p p'
      → is_resident p l ≡ true
      → is_resident p' l ≡ true
  Filled-prefix layer l p p' (inl (same, bits)) warm = ap (λ b. get_or b l false) bits ∙ warm
  Filled-prefix layer l p p' (inr (same, bits)) warm =
      ap (λ b. get_or b l false) bits ∙ set-true-keeps p.layer_resident layer l warm

  pub Filled-core : (layer : ℕ) (p p' : Pager R) → Filled os lib layer p p' → core p' ≡ core p
  Filled-core layer p p' (inl h) = h.0
  Filled-core layer p p' (inr h) = h.0
