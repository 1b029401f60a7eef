-- ===== src/Dense/Async.antt =====
-- src/guanaco_steppeloader.cpp, the asynchronous half of the dense pager: queueing a layer's reads,
-- waiting for them, and draining the ring. dense_inflight_ is the list of its pairs.
pub mod Core
pub mod Returns
use guanaco.Base.{
  ℕ, zero, suc, ◌+◌, ◌-◌, Bool, true, false, ◌&&◌, not, Option, none, some, List, [], ◌∷◌,
  if◌then◌else◌, ltb, leb, ◌==◌, ℤ, pos, negsuc, ltb_ℤ, length,
}
use guanaco.Base.Words.{add64, inc64}
use guanaco.Uring.{IoUringSlab, Liburing, io_uring_slab_submit, io_uring_slab_reap}
use guanaco.Dense.{StreamTensor, Os, Pager, find_layer}
use guanaco.Dense.Layer.{is_resident, mark, slices_of, settle, prefetch_layer}

abbrev pub Inflight : Type 0
Inflight = List (ℕ × ℕ)

abbrev pub find_inflight : ℕ → Inflight → Option ℕ
find_inflight layer [] = none
find_inflight layer ((l, n) ∷ rest) = if l == layer then some n else find_inflight layer rest

abbrev pub erase_inflight : ℕ → Inflight → Inflight
erase_inflight layer [] = []
erase_inflight layer ((l, n) ∷ rest) =
    if l == layer then rest else (l, n) ∷ erase_inflight layer rest

abbrev pub outstanding : Inflight → ℕ
outstanding [] = 0
outstanding ((l, n) ∷ rest) = add64 n (outstanding rest)

-- if (--h->second <= 0) erase(h)
unfoldable pub one_less : ℕ → Inflight → Inflight
one_less layer [] = []
one_less layer ((l, n) ∷ rest) =
    if l == layer
    then (if leb n 1 then rest else (l, n - 1) ∷ rest)
    else (l, n) ∷ one_less layer rest

-- A completion's token is the layer that it was queued for.
unfoldable pub complete : ℤ → Inflight → Inflight
unfolding one_less
complete (pos layer) m = one_less layer m
complete (negsuc n) m = m

module _ {R : Type 0} (lib : Liburing R) where
  -- Reaping what a partial submission queued, at most.
  unfoldable pub reap_partial : ℕ → IoUringSlab R → IoUringSlab R
  reap_partial zero u = u
  reap_partial (suc n) u =
      let (u', got) = io_uring_slab_reap lib u in
      elim got [ none ↦ u' | some _ ↦ reap_partial n u' ]

  unfoldable pub count_submit : ℕ → ℕ → IoUringSlab R → Pager R → Pager R
  count_submit layer n u p =
      let inflight = (layer, n) ∷ p.inflight in
      record p {
        uring = some u;
        inflight = inflight;
        uring_ops = p.uring_ops + 1;
        max_inflight =
            if ltb p.max_inflight (outstanding inflight)
            then outstanding inflight
            else p.max_inflight;
        inflight_sum = add64 p.inflight_sum (outstanding inflight);
        inflight_samples = inc64 p.inflight_samples;
      }

  unfoldable pub submit_slices : ℕ → List StreamTensor → IoUringSlab R → Pager R → Pager R × Bool
  unfolding reap_partial count_submit slices_of
  submit_slices layer ts u p =
      let slices = slices_of ts in
      if length slices == 0
      then (p, false)
      else (let (u', queued) = io_uring_slab_submit lib slices (pos layer) u in
          elim queued [
            | none ↦ (record p { uring = some u' }, false)
            | some n ↦
                if n == length slices
                then (count_submit layer n u' p, true)
                else (record p { uring = some (reap_partial n u') }, false)
          ])

  -- With its result.
  unfoldable pub submit_layer_async : ℕ → Pager R → Pager R × Bool
  unfolding submit_slices
  submit_layer_async layer p = elim p.uring [
    | none ↦ (p, false)
    | some u ↦ elim (find_layer layer p.stream_layers) [
      | none ↦ (p, false)
      | some ts ↦
          if not p.use_slab
          then (p, false)
          else if is_resident p layer
          then (p, true)
          else elim (find_inflight layer p.inflight) [
            | some n ↦ (p, true)
            | none ↦ submit_slices layer ts u p
          ]
    ]
  ]

  -- The wait in ensure_layer: the reads in flight, the ring, and all_ok. The first number is fuel.
  unfoldable pub await_layer :
      ℕ → ℕ → IoUringSlab R → Inflight → Bool → IoUringSlab R × Inflight × Bool
  unfolding complete io_uring_slab_reap
  await_layer zero layer u m all_ok = (u, m, false)
  await_layer (suc fuel) layer u m all_ok = elim (find_inflight layer m) [
    | none ↦ (u, m, all_ok)
    | some zero ↦ (u, m, all_ok)
    | some (suc n) ↦
        let (u', got) = io_uring_slab_reap lib u in
        elim got [
          | none ↦ (u', m, false)
          | some (token, res) ↦
              await_layer fuel layer u' (complete token m) (all_ok && not (ltb_ℤ res (pos 0)))
        ]
  ]

  module _ (os : Os) where
    unfoldable pub ensure_waited : ℕ → List StreamTensor → IoUringSlab R → Pager R → Pager R
    unfolding await_layer settle
    ensure_waited layer ts u p =
        let (u', m, all_ok) = await_layer (suc (lib.in_flight u.ring)) layer u p.inflight true in
        let waited = record p { uring = some u'; inflight = m; wait_ops = p.wait_ops + 1 } in
        if all_ok
        then settle os layer ts waited
        else prefetch_layer os lib layer (record waited { inflight = erase_inflight layer m })

    unfoldable pub ensure_layer : ℕ → Pager R → Pager R
    unfolding ensure_waited
    ensure_layer layer p = if is_resident p layer then p else elim p.uring [
      | none ↦ prefetch_layer os lib layer p
      | some u ↦ elim (find_inflight layer p.inflight) [
        | none ↦ prefetch_layer os lib layer p
        | some n ↦ elim (find_layer layer p.stream_layers) [
          | none ↦ prefetch_layer os lib layer p
          | some ts ↦ ensure_waited layer ts u p
        ]
      ]
    ]

  -- while (!dense_inflight_.empty()): the first number is fuel.
  unfoldable pub drain : ℕ → IoUringSlab R → Inflight → IoUringSlab R
  unfolding complete io_uring_slab_reap
  drain zero u m = u
  drain (suc fuel) u [] = u
  drain (suc fuel) u (e ∷ m) =
      let (u', got) = io_uring_slab_reap lib u in
      elim got [ none ↦ u' | some (token, res) ↦ drain fuel u' (complete token (e ∷ m)) ]

  unfoldable pub drain_inflight : Pager R → Pager R
  unfolding drain
  drain_inflight p = elim p.uring [
    | none ↦ record p { inflight = [] }
    | some u ↦ record p {
      uring = some (drain (suc (lib.in_flight u.ring)) u p.inflight);
      inflight = [];
    }
  ]
