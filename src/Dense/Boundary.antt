-- ===== src/Dense/Boundary.antt =====
-- src/guanaco_steppeloader.cpp, on_layer_boundary: the pager's step as the computation reaches a
-- layer.
pub mod Stages
pub mod Order
use guanaco.Base.{
  ℕ, zero, suc, ◌+◌, ◌-◌, Bool, true, false, ◌&&◌, ◌||◌, not, Option, none, some, List, [], ◌∷◌,
  if◌then◌else◌, ltb, leb, ◌==◌, ℤ, pos, negsuc, ltb_ℤ, min, length,
}
use guanaco.Uring.{Liburing}
use guanaco.Expert.Ceiling.{enforce_expert_byte_ceiling}
use guanaco.Dense.{Os, Pager, Loader}
use guanaco.Dense.Layer.{is_resident, evict_layer}
use guanaco.Dense.Async.{submit_layer_async, ensure_layer, drain_inflight}

-- ahead, at least 1
abbrev pub ahead_of : ℤ → ℕ
ahead_of (pos n) = if ltb n 1 then 1 else n
ahead_of (negsuc n) = 1

module _ {R : Type 0} (os : Os) (lib : Liburing R) where
  -- The loop from submitted_upto_ + 1 on: its rounds.
  unfoldable pub submit_ahead : ℕ → Pager R → Pager R
  submit_ahead zero p = p
  submit_ahead (suc rounds) p =
      let tried =
        if leb p.stream_resident_layers p.submitted
        then (submit_layer_async lib p.submitted p).0
        else p in
      submit_ahead rounds (record tried { submitted = p.submitted + 1 })

  unfoldable pub ensure_next : ℕ → Pager R → Pager R
  ensure_next layer p =
      if leb p.stream_resident_layers (layer + 1) && ltb (layer + 1) p.stream_n_layers
      then ensure_layer lib os (layer + 1) p
      else p

  unfoldable pub evict_done : ℕ → Pager R → Pager R
  evict_done layer p =
      if leb p.stream_resident_layers layer && ltb layer p.stream_n_layers && is_resident p layer
      then evict_layer os layer p
      else p

  unfoldable pub page_layer : ℕ → Pager R → Pager R
  unfolding submit_ahead ensure_next evict_done
  page_layer layer p =
      if leb p.stream_n_layers layer
      then p
      else (let rounds =
            min (layer + ahead_of p.prefetch_ahead + 1) p.stream_n_layers - p.submitted in
          evict_done layer
            (ensure_next layer (submit_ahead rounds (record p { boundaries = p.boundaries + 1 }))))

  -- A new pass: the frontier goes back to the edge of the resident prefix.
  unfoldable pub new_pass : {F : Type 0} → Loader F R → Loader F R
  new_pass ld = record ld {
    experts =
        if ld.experts.enabled then enforce_expert_byte_ceiling os.kernel ld.experts else ld.experts;
    pager = record (drain_inflight lib ld.pager) { submitted = ld.pager.stream_resident_layers };
  }

  unfoldable pub on_layer_boundary : {F : Type 0} → Loader F R → ℤ → Loader F R
  unfolding page_layer new_pass
  on_layer_boundary ld (negsuc n) = ld
  on_layer_boundary ld (pos layer) =
      if not ld.pager.dense_enabled || length ld.pager.stream_layers == 0
      then ld
      else (let begun =
            if ltb_ℤ ld.pager.last_boundary_layer (pos layer) then ld else new_pass ld in
          record begun {
            pager = page_layer layer (record begun.pager { last_boundary_layer = pos layer });
          })
