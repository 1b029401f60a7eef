-- ===== src/Expert/Invariant.antt =====
-- src/guanaco_steppeloader.cpp: expert_resident_bytes_ over the calls of the expert half.
use guanaco.Base.{ℕ, ◌*◌, refl, inl, inr, List, [], ◌∷◌, arith, length, ℤ, Bool-cases}
use guanaco.Madvise.{Kernel}
use guanaco.Expert.{Floats, Experts}
use guanaco.Expert.Books.{IsBooked, for_each-IsBooked, map-IsBooked}
use guanaco.Expert.Prefetch.{prefetch_experts, prefetch_body}
use guanaco.Expert.Prefetch.Account.{prefetch_body-Balanced}
use guanaco.Expert.Budgets.{global_cap, recompute_budgets, assign_budgets, set_budget, total_demand}
use guanaco.Expert.Ceiling.{enforce_expert_byte_ceiling, older, collect}
use guanaco.Base.Sort.{sort}
use guanaco.Expert.Ceiling.Account.{drop_slices-IsBooked}
use guanaco.Expert.Pin.{
  maybe_pin_hot_experts, pin_all, pin_from_seeded_totals, pin_body, pin_seeded,
}
use guanaco.Expert.Pin.Account.{pin_body-Balanced, pin_seeded-Balanced}
use guanaco.Expert.Routing.{learn_tensor, hit_tensor, count_routing, record_routing, follows}
use guanaco.Expert.Routing.Quiet.{hit_tensor-Quiet, learn_tensor-Quiet}

abbrev pub Booked : {F : Type 0} → ℕ → Experts F → Type 0
Booked slack st = IsBooked slack st.tensors st.ledger

module _ {F : Type 0} {slack : ℕ} where
  pub recompute_budgets-Booked :
      (st : Experts F) → Booked slack st → Booked slack (recompute_budgets st)
  unfolding recompute_budgets assign_budgets set_budget
  recompute_budgets-Booked st b =
      let g = global_cap st.config in
      let mapped =
        map-IsBooked (set_budget g (g * length st.tensors) (total_demand st.tensors))
          (λ t. record {
            sized = λ z. record {
              loaded = z.loaded;
              total_hits = z.total_hits;
              window_hits = z.window_hits;
              pinned = z.pinned;
              last_used = z.last_used;
              trans = z.trans;
              slices = z.slices;
            };
            held_same = refl;
            bytes_same = refl;
          })
          st.tensors st.ledger b in
      ground (arith, mapped, b)

  module _ (k : Kernel) where
    pub enforce-Booked :
        (st : Experts F) → Booked slack st → Booked slack (enforce_expert_byte_ceiling k st)
    unfolding enforce_expert_byte_ceiling
    enforce-Booked st b = ground (
      arith,
      b,
      drop_slices-IsBooked k st.expert_budget_bytes (sort older (collect 0 st.tensors)) st.tensors
          st.ledger b,
    )

    pub prefetch_experts-Booked :
        (st : Experts F) (layer : ℤ) (ids : List ℤ)
        → Booked slack st
        → Booked slack (prefetch_experts k st layer ids)
    unfolding prefetch_experts
    prefetch_experts-Booked st layer [] b = b
    prefetch_experts-Booked st layer (z ∷ zs) b = ground (
      arith,
      b,
      for_each-IsBooked (prefetch_body k layer (z ∷ zs)) (prefetch_body-Balanced k layer (z ∷ zs))
          st.tensors st.ledger b,
    )

    module _ (fl : Floats F) where
      pub maybe_pin-Booked :
          (st : Experts F) → Booked slack st → Booked slack (maybe_pin_hot_experts k fl st)
      unfolding maybe_pin_hot_experts pin_all
      maybe_pin-Booked st b =
          let r = recompute_budgets st in
          enforce-Booked (pin_all k fl r) (
            for_each-IsBooked (pin_body k fl r.config) (pin_body-Balanced k fl r.config) r.tensors
              r.ledger (recompute_budgets-Booked st b))

      pub pin_seeded-Booked :
          (st : Experts F) → Booked slack st → Booked slack (pin_from_seeded_totals k fl st)
      unfolding pin_from_seeded_totals
      pin_seeded-Booked st b =
          let r = recompute_budgets st in
          for_each-IsBooked (pin_seeded k fl r.config) (pin_seeded-Balanced k fl r.config) r.tensors
            r.ledger (recompute_budgets-Booked st b)

module _ {F : Type 0} {slack : ℕ} (fl : Floats F) where
  count_routing-Booked :
      (st : Experts F) (layer : ℤ) (ids : List ℤ)
      → Booked slack st
      → Booked slack (count_routing fl st layer ids)
  unfolding count_routing
  count_routing-Booked st layer ids b =
      let learnt =
        map-IsBooked (learn_tensor fl layer st.pilot_from_ids ids)
          (learn_tensor-Quiet fl layer st.pilot_from_ids ids) st.tensors st.ledger b in
      elim (Bool-cases (follows fl st layer)) [
        | inl next ↦
            rw (next, count_routing)
              (map-IsBooked (hit_tensor fl layer ids) (hit_tensor-Quiet fl layer ids) _ st.ledger
                learnt)
        | inr first ↦
            rw (first, count_routing)
              (map-IsBooked (hit_tensor fl layer ids) (hit_tensor-Quiet fl layer ids) _ st.ledger b)
      ]

  pub record_routing-Booked :
      (k : Kernel) (st : Experts F) (layer : ℤ) (ids : List ℤ)
      → Booked slack st
      → Booked slack (record_routing fl k st layer ids)
  unfolding record_routing
  record_routing-Booked k st layer [] b = b
  record_routing-Booked k st layer (z ∷ zs) b =
      let counted = count_routing fl st layer (z ∷ zs) in
      let c = count_routing-Booked st layer (z ∷ zs) b in
      ground (arith, b, c, maybe_pin-Booked k fl counted c)
