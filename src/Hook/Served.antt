-- ===== src/Hook/Served.antt =====
-- src/guanaco_model_hook.cpp, on_router_computed: the order of its three calls.
use guanaco.Base.{ℕ, ◌≡◌, refl, ◌∙◌, true, List, [], ◌∷◌, ℤ, map, pos, All, All-map, if_either}
use guanaco.Madvise.{Kernel}
use guanaco.Expert.{Floats, Experts}
use guanaco.Expert.Invariant.{Booked, record_routing-Booked}
use guanaco.Expert.Prefetch.{prefetch_experts}
use guanaco.Expert.Prefetch.Resident.{Serves, prefetch_experts-Serves, prefetch_experts-keeps}
use guanaco.Base.Words.{add64, inc64}
use guanaco.Base.{length, inr}
use guanaco.Expert.Pilot.Outcome.{pilot_outcome}
use guanaco.Expert.Pilot.{pilot_prefetch_next_layer}
use guanaco.Expert.Routing.{record_routing, count_routing, pin_due}
use guanaco.Expert.Pin.{maybe_pin_hot_experts, pin_all}
use guanaco.Expert.Budgets.{recompute_budgets}
use guanaco.Expert.Ceiling.{enforce_expert_byte_ceiling}
use guanaco.Hook.{Hook, World, on_router_computed}

module _ {F : Type 0} (k : Kernel) (fl : Floats F) where
  enforce-enabled : (st : Experts F) → (enforce_expert_byte_ceiling k st).enabled ≡ st.enabled
  unfolding enforce_expert_byte_ceiling
  enforce-enabled st = if_either (λ (q : Experts F). q.enabled ≡ st.enabled) _ st _ refl refl

  maybe_pin-enabled : (st : Experts F) → (maybe_pin_hot_experts k fl st).enabled ≡ st.enabled
  unfolding maybe_pin_hot_experts pin_all recompute_budgets
  maybe_pin-enabled st =
      enforce-enabled (pin_all k fl (recompute_budgets st))
      ∙ if_either (λ (q : Experts F). q.enabled ≡ st.enabled) _ st _ refl refl

  record_routing-enabled :
      (st : Experts F) (layer : ℤ) (ids : List ℤ)
      → (record_routing fl k st layer ids).enabled ≡ st.enabled
  unfolding record_routing count_routing
  record_routing-enabled st layer [] = refl
  record_routing-enabled st layer (z ∷ zs) =
      if_either (λ (q : Experts F). q.enabled ≡ st.enabled) _ st _ refl
        (if_either (λ (q : Experts F). q.enabled ≡ st.enabled)
          (pin_due fl (count_routing fl st layer (z ∷ zs)).routing_records) _
          (count_routing fl st layer (z ∷ zs))
          (maybe_pin-enabled (count_routing fl st layer (z ∷ zs))) refl)

  pilot-Serves :
      (st : Experts F) (layer layer' : ℤ) (ids ids' : List ℤ)
      → All (Serves layer ids) st.tensors
      → All (Serves layer ids) (pilot_prefetch_next_layer fl k st layer' ids').tensors
  pilot-Serves st layer layer' ids ids' h =
      pilot_outcome k fl (λ (q : Experts F). All (Serves layer ids) q.tensors) st layer' ids' h
        (λ next ps.
          prefetch_experts-keeps k
            (record st {
              pilot_calls = inc64 st.pilot_calls;
              pilot_slice_reads = add64 st.pilot_slice_reads (length ps);
            })
            layer next ids (map pos ps) h)

module _ {F R : Type 0} (w : World F R) where
  -- Where expert streaming is on and the books are right, once on_router_computed has run every
  -- expert that the router chose, if it is in range of a mapped tensor of the layer, is pinned or
  -- loaded in it, whatever the pilot has prefetched since.
  pub on_router_computed-Serves :
      {slack : ℕ} (h : Hook F R) (layer : ℤ) (ids : List ℤ)
      → h.loader.experts.enabled ≡ true
      → Booked slack h.loader.experts
      → All (Serves layer ids) (on_router_computed w h layer ids).loader.experts.tensors
  unfolding on_router_computed
  on_router_computed-Serves h layer [] on b =
      All-map h.loader.experts.tensors (λ t e. inr tt) b.sized
  on_router_computed-Serves h layer (z ∷ zs) on b =
      let k = w.os.kernel in
      let st = h.loader.experts in
      let recorded = record_routing w.floats k st layer (z ∷ zs) in
      pilot-Serves k w.floats (prefetch_experts k recorded layer (z ∷ zs)) layer layer (z ∷ zs)
        (z ∷ zs)
        (prefetch_experts-Serves k recorded layer (z ∷ zs)
          (record_routing-enabled k w.floats st layer (z ∷ zs) ∙ on)
          (record_routing-Booked w.floats k st layer (z ∷ zs) b).sized)
