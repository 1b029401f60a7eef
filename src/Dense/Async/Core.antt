-- ===== src/Dense/Async/Core.antt =====
-- src/guanaco_steppeloader.cpp: the residency bits in submit_layer_async and ensure_layer.
use guanaco.Base.{
  if_either, ℕ, suc, ◌+◌, ◌<◌, ◌≡◌, refl, ap, ◌∙◌, inl, inr, true, false, not, some, List, ◌==◌,
  Bool-cases, Option-cases, get_or, length, get_or-set_self, pos,
}
use guanaco.Uring.{Liburing, IoUringSlab, io_uring_slab_submit}
use guanaco.Dense.{Os, Pager, StreamTensor, find_layer}
use guanaco.Dense.Layer.{is_resident, settle, prefetch_layer, slices_of}
use guanaco.Dense.Layer.Core.{
  Leaves, settle-Leaves, Filled, prefetch_layer-Filled, prefetch_layer-resident,
}
use guanaco.Dense.Async.{
  await_layer, ensure_waited, ensure_layer, submit_slices, submit_layer_async, count_submit,
  find_inflight, erase_inflight,
}

module _ {R : Type 0} (lib : Liburing R) where
  submit_slices-Leaves :
      (layer : ℕ) (ts : List StreamTensor) (u : IoUringSlab R) (p : Pager R)
      → Leaves p p.layer_resident (submit_slices lib layer ts u p).0
  unfolding submit_slices count_submit
  submit_slices-Leaves layer ts u p =
      let slices = slices_of ts in
      let r = io_uring_slab_submit lib slices (pos layer) u in
      elim (Bool-cases (length slices == 0)) [
        | inl none_ ↦ rw (none_, submit_slices) (refl, refl)
        | inr more ↦ elim (Option-cases r.1) [
          | inl failed ↦ rw (more, failed, submit_slices) (refl, refl)
          | inr (n, queued) ↦ elim (Bool-cases (n == length slices)) [
            | inl all_ ↦ rw (more, queued, all_, submit_slices) (refl, refl)
            | inr partial_ ↦ rw (more, queued, partial_, submit_slices) (refl, refl)
          ]
        ]
      ]

  pub submit_layer-Leaves :
      (layer : ℕ) (p : Pager R) → Leaves p p.layer_resident (submit_layer_async lib layer p).0
  unfolding submit_layer_async
  submit_layer-Leaves layer p = elim (Option-cases p.uring) [
    | inl none_ ↦ rw (none_, submit_layer_async) (refl, refl)
    | inr (u, ring) ↦ elim (Option-cases (find_layer layer p.stream_layers)) [
      | inl none_ ↦ rw (ring, none_, submit_layer_async) (refl, refl)
      | inr (ts, known) ↦ elim (Bool-cases (not p.use_slab)) [
        | inl mapping ↦ rw (ring, known, mapping, submit_layer_async) (refl, refl)
        | inr slab ↦ elim (Bool-cases (is_resident p layer)) [
          | inl warm ↦ rw (ring, known, slab, warm, submit_layer_async) (refl, refl)
          | inr cold ↦ elim (Option-cases (find_inflight layer p.inflight)) [
            | inr (n, queued) ↦
                rw (ring, known, slab, cold, queued, submit_layer_async) (refl, refl)
            | inl fresh ↦
                rw (ring, known, slab, cold, fresh, submit_layer_async)
                  (submit_slices-Leaves layer ts u p)
          ]
        ]
      ]
    ]
  ]

  module _ (os : Os) where
    ensure_waited-Filled :
        (layer : ℕ) (ts : List StreamTensor) (u : IoUringSlab R) (p : Pager R)
        → Filled os lib layer p (ensure_waited lib os layer ts u p)
    unfolding ensure_waited
    ensure_waited-Filled layer ts u p =
        let (u', m, all_ok) =
          await_layer lib (suc (lib.in_flight u.ring)) layer u p.inflight true in
        let waited = record p { uring = some u'; inflight = m; wait_ops = p.wait_ops + 1 } in
        let redo = record waited { inflight = erase_inflight layer m } in
        if_either (Filled os lib layer p) all_ok (settle os layer ts waited)
          (prefetch_layer os lib layer redo) (inr (settle-Leaves os layer ts waited))
          (prefetch_layer-Filled os lib layer redo)

    ensure_waited-resident :
        (layer : ℕ) (ts ts' : List StreamTensor) (u : IoUringSlab R) (p : Pager R)
        → find_layer layer p.stream_layers ≡ some ts'
        → layer < length p.layer_resident
        → is_resident (ensure_waited lib os layer ts u p) layer ≡ true
    unfolding ensure_waited
    ensure_waited-resident layer ts ts' u p known h =
        let (u', m, all_ok) =
          await_layer lib (suc (lib.in_flight u.ring)) layer u p.inflight true in
        let waited = record p { uring = some u'; inflight = m; wait_ops = p.wait_ops + 1 } in
        let redo = record waited { inflight = erase_inflight layer m } in
        if_either (λ q. is_resident q layer ≡ true) all_ok (settle os layer ts waited)
          (prefetch_layer os lib layer redo)
          (ap (λ bits. get_or bits layer false) (settle-Leaves os layer ts waited).1
            ∙ get_or-set_self p.layer_resident layer true false h)
          (prefetch_layer-resident os lib layer ts' redo known h)

    pub ensure_layer-Filled :
        (layer : ℕ) (p : Pager R) → Filled os lib layer p (ensure_layer lib os layer p)
    unfolding ensure_layer
    ensure_layer-Filled layer p = elim (Bool-cases (is_resident p layer)) [
      | inl warm ↦ rw (warm, ensure_layer) (inl (refl, refl))
      | inr cold ↦ elim (Option-cases p.uring) [
        | inl none_ ↦ rw (cold, none_, ensure_layer) (prefetch_layer-Filled os lib layer p)
        | inr (u, ring) ↦ elim (Option-cases (find_inflight layer p.inflight)) [
          | inl idle ↦ rw (cold, ring, idle, ensure_layer) (prefetch_layer-Filled os lib layer p)
          | inr (n, queued) ↦ elim (Option-cases (find_layer layer p.stream_layers)) [
            | inl none_ ↦
                rw (cold, ring, queued, none_, ensure_layer) (prefetch_layer-Filled os lib layer p)
            | inr (ts, known) ↦
                rw (cold, ring, queued, known, ensure_layer) (ensure_waited-Filled layer ts u p)
          ]
        ]
      ]
    ]

    pub ensure_layer-resident :
        (layer : ℕ) (ts : List StreamTensor) (p : Pager R)
        → find_layer layer p.stream_layers ≡ some ts
        → layer < length p.layer_resident
        → is_resident (ensure_layer lib os layer p) layer ≡ true
    unfolding ensure_layer
    ensure_layer-resident layer ts p known h = elim (Bool-cases (is_resident p layer)) [
      | inl warm ↦ rw (warm, ensure_layer) warm
      | inr cold ↦ elim (Option-cases p.uring) [
        | inl none_ ↦
            rw (cold, none_, ensure_layer) (prefetch_layer-resident os lib layer ts p known h)
        | inr (u, ring) ↦ elim (Option-cases (find_inflight layer p.inflight)) [
          | inl idle ↦
              rw (cold, ring, idle, ensure_layer)
                (prefetch_layer-resident os lib layer ts p known h)
          | inr (n, queued) ↦
              rw (cold, ring, queued, known, ensure_layer)
                (ensure_waited-resident layer ts ts u p known h)
        ]
      ]
    ]
