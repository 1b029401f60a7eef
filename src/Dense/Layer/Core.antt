-- ===== src/Dense/Layer/Core.antt =====
-- What reading and evicting a layer do to the residency bits, and what they leave alone.
use guanaco.Base.{
  if_either, ℕ, ◌+◌, ◌<◌, ◌≡◌, refl, ap, ◌∙◌, ◌⊎◌, inl, inr, Bool, true, false, some, List, [], ◌∷◌,
  ◌==◌, Bool-cases, Option-cases, get_or, set, length, get_or-set_self,
}
use guanaco.Madvise.{Advice, willneed}
use guanaco.Uring.{Liburing, IoUringSlab, io_uring_slab_read}
use guanaco.Dense.{Os, Pager, StreamTensor, find_layer}
use guanaco.Dense.Layer.{
  is_resident, advise_mapping, pread_tensor, pread_tensors, settle, pread_layer, uring_layer,
  read_layer, prefetch_layer, fadvise_drop, slices_of,
}

abbrev pub Core : Type 0
Core = ℕ × ℕ × List (ℕ × List StreamTensor)

module _ {R : Type 0} where
  -- The members that only fill_resident_layers and the registrations change.
  abbrev pub core : Pager R → Core
  core p = (p.stream_resident_layers, p.stream_n_layers, p.stream_layers)

  -- The members of `core` stay, with the residency bits that an operation leaves.
  abbrev pub Leaves : Pager R → List Bool → Pager R → Type 0
  Leaves p bits p' = (core p' ≡ core p) × (p'.layer_resident ≡ bits)

  module _ (os : Os) where
    pub advise_mapping-Leaves :
        (a : Advice) (t : StreamTensor) (p : Pager R)
        → Leaves p p.layer_resident (advise_mapping os a t p)
    advise_mapping-Leaves a t p = elim (Option-cases t.mmap_base) [
      | inl none_ ↦ rw none_ (refl, refl)
      | inr (base, some_) ↦ rw some_ (refl, refl)
    ]

    pread_tensor-Leaves :
        (t : StreamTensor) (p : Pager R) → Leaves p p.layer_resident (pread_tensor os t p)
    unfolding pread_tensor
    pread_tensor-Leaves t p = elim (Option-cases t.slab) [
      | inl none_ ↦ rw (none_, pread_tensor) (advise_mapping-Leaves willneed t p)
      | inr (a, some_) ↦ elim (Bool-cases (t.byte_size == 0)) [
        | inl zero_ ↦ rw (some_, zero_, pread_tensor) (advise_mapping-Leaves willneed t p)
        | inr more ↦ rw (some_, more, pread_tensor) (refl, refl)
      ]
    ]

    pread_tensors-Leaves :
        (ts : List StreamTensor) (p : Pager R) → Leaves p p.layer_resident (pread_tensors os ts p)
    unfolding pread_tensors
    pread_tensors-Leaves [] p = (refl, refl)
    pread_tensors-Leaves (t ∷ ts) p =
        let (a, b) = pread_tensor-Leaves t p in
        let (c, d) = pread_tensors-Leaves ts (pread_tensor os t p) in (c ∙ a, d ∙ b)

    pub settle-Leaves :
        (layer : ℕ) (ts : List StreamTensor) (p : Pager R)
        → Leaves p (set p.layer_resident layer true) (settle os layer ts p)
    unfolding settle fadvise_drop
    settle-Leaves layer ts p = elim (Bool-cases p.use_slab) [
      | inl slab ↦ rw (slab, settle, fadvise_drop) (refl, refl)
      | inr mapping ↦ rw (mapping, settle, fadvise_drop) (refl, refl)
    ]

    pread_layer-Leaves :
        (layer : ℕ) (ts : List StreamTensor) (p : Pager R)
        → Leaves p (set p.layer_resident layer true) (pread_layer os layer ts p)
    unfolding pread_layer
    pread_layer-Leaves layer ts p =
        let counted = record p { pread_ops = p.pread_ops + 1 } in
        let (a, b) = pread_tensors-Leaves ts counted in
        let (c, d) = settle-Leaves layer ts (pread_tensors os ts counted) in
        (c ∙ a, d ∙ ap (λ bits. set bits layer true) b)

    module _ (lib : Liburing R) where
      uring_layer-Leaves :
          (layer : ℕ) (ts : List StreamTensor) (u : IoUringSlab R) (p : Pager R)
          → Leaves p (set p.layer_resident layer true) (uring_layer os lib layer ts u p)
      unfolding uring_layer
      uring_layer-Leaves layer ts u p =
          let (u', ok) = io_uring_slab_read lib (slices_of ts) u in
          let tried = record p { uring = some u' } in
          let read = record tried { uring_ops = p.uring_ops + 1 } in
          if_either (Leaves p (set p.layer_resident layer true)) ok (settle os layer ts read)
            (pread_layer os layer ts tried) (settle-Leaves layer ts read)
            (pread_layer-Leaves layer ts tried)

      read_layer-Leaves :
          (layer : ℕ) (ts : List StreamTensor) (p : Pager R)
          → Leaves p (set p.layer_resident layer true) (read_layer os lib layer ts p)
      unfolding read_layer
      read_layer-Leaves layer ts p = elim (Option-cases p.uring) [
        | inl none_ ↦ rw (none_, read_layer) (pread_layer-Leaves layer ts p)
        | inr (u, some_) ↦
            rw (some_, read_layer)
              (if_either (Leaves p (set p.layer_resident layer true)) p.use_slab
                (uring_layer os lib layer ts u p) (pread_layer os layer ts p)
                (uring_layer-Leaves layer ts u p) (pread_layer-Leaves layer ts p))
      ]

      -- The layer of the pager is resident, and nothing else changes.
      abbrev pub Filled : ℕ → Pager R → Pager R → Type 0
      Filled layer p p' =
          Leaves p p.layer_resident p' ⊎ Leaves p (set p.layer_resident layer true) p'

      pub prefetch_layer-Filled :
          (layer : ℕ) (p : Pager R) → Filled layer p (prefetch_layer os lib layer p)
      unfolding prefetch_layer
      prefetch_layer-Filled layer p = elim (Option-cases (find_layer layer p.stream_layers)) [
        | inl none_ ↦ rw (none_, prefetch_layer) (inl (refl, refl))
        | inr (ts, some_) ↦ elim (Bool-cases (is_resident p layer)) [
          | inl already ↦ rw (some_, already, prefetch_layer) (inl (refl, refl))
          | inr cold ↦
              rw (some_, cold, prefetch_layer)
                (inr (read_layer-Leaves layer ts (record p { prefetch_ops = p.prefetch_ops + 1 })))
        ]
      ]

      pub prefetch_layer-resident :
          (layer : ℕ) (ts : List StreamTensor) (p : Pager R)
          → find_layer layer p.stream_layers ≡ some ts
          → layer < length p.layer_resident
          → is_resident (prefetch_layer os lib layer p) layer ≡ true
      unfolding prefetch_layer
      prefetch_layer-resident layer ts p known h = elim (Bool-cases (is_resident p layer)) [
        | inl already ↦ rw (known, already, prefetch_layer) already
        | inr cold ↦
            rw (known, cold, prefetch_layer)
              (ap (λ bits. get_or bits layer false)
                  (read_layer-Leaves layer ts (record p { prefetch_ops = p.prefetch_ops + 1 })).1
                ∙ get_or-set_self p.layer_resident layer true false h)
      ]
