-- ===== src/Dense/Layer/Gone.antt =====
-- What evicting a layer does to the residency bits.
use guanaco.Base.{
  ℕ, ◌+◌, ◌≡◌, refl, ap, ◌∙◌, inl, inr, true, false, not, ◌&&◌, some, List, [], ◌∷◌, ltb, ◌==◌,
  Bool-cases, Option-cases, set, length, arith,
}
use guanaco.Madvise.{dontneed}
use guanaco.Dense.{Os, Pager, StreamTensor, find_layer}
use guanaco.Dense.Layer.{is_resident, mark, evict_tensor, evict_tensors, evict_layer}
use guanaco.Dense.Layer.Core.{Leaves, advise_mapping-Leaves}

module _ {R : Type 0} (os : Os) where
  evict_tensor-Leaves :
      (t : StreamTensor) (p : Pager R) → Leaves p p.layer_resident (evict_tensor os t p)
  unfolding evict_tensor
  evict_tensor-Leaves t p = elim (Option-cases t.slab) [
    | inl none_ ↦ rw (none_, evict_tensor) (advise_mapping-Leaves os dontneed t p)
    | inr (a, some_) ↦ elim (Bool-cases (t.slab_len == 0)) [
      | inl zero_ ↦ rw (some_, zero_, evict_tensor) (advise_mapping-Leaves os dontneed t p)
      | inr more ↦ rw (some_, more, evict_tensor) (refl, refl)
    ]
  ]

  evict_tensors-Leaves :
      (ts : List StreamTensor) (p : Pager R) → Leaves p p.layer_resident (evict_tensors os ts p)
  unfolding evict_tensors
  evict_tensors-Leaves [] p = (refl, refl)
  evict_tensors-Leaves (t ∷ ts) p =
      let (a, b) = evict_tensor-Leaves t p in
      let (c, d) = evict_tensors-Leaves ts (evict_tensor os t p) in (c ∙ a, d ∙ b)

  evict_body-Leaves :
      (layer : ℕ) (ts : List StreamTensor) (p : Pager R)
      → Leaves p (set p.layer_resident layer false) (mark false layer (evict_tensors os ts p))
  evict_body-Leaves layer ts p =
      let (a, b) = evict_tensors-Leaves ts p in (a, ap (λ bits. set bits layer false) b)

  -- A resident layer that has tensors is evicted.
  pub evict_layer-Leaves :
      (layer : ℕ) (ts : List StreamTensor) (p : Pager R)
      → find_layer layer p.stream_layers ≡ some ts
      → is_resident p layer ≡ true
      → Leaves p (set p.layer_resident layer false) (evict_layer os layer p)
  unfolding evict_layer
  evict_layer-Leaves layer ts p known warm =
      let skip : (ltb layer (length p.layer_resident) && not (is_resident p layer)) ≡ false =
        rw warm (ground arith) in
      rw (known, skip, evict_layer)
        (evict_body-Leaves layer ts (record p { evict_ops = p.evict_ops + 1 }))
