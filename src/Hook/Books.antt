-- ===== src/Hook/Books.antt =====
-- src/guanaco_model_hook.cpp: the expert half's books over any sequence of llama.cpp's calls.
use Prim.Native.String.{String}
use guanaco.Base.{
  ℕ, ◌+◌, ◌*◌, ◌<◌, Option, none, some, List, [], ◌∷◌, arith, if_either, ℤ, pos, negsuc, ltb_ℤ,
}
use guanaco.Base.Words.{u64_mod}
use guanaco.Expert.{Experts}
use guanaco.Expert.Invariant.{
  Booked, prefetch_experts-Booked, record_routing-Booked, enforce-Booked,
}
use guanaco.Expert.Calls.{register-Booked, pilot-Booked, load_imatrix_prior-Booked}
use guanaco.Expert.Advise.{advise_experts_random}
use guanaco.Dense.{Loader}
use guanaco.Dense.Slabs.{register_stream_tensor}
use guanaco.Dense.Resident.{fill_resident_layers, fill as fill_layers, resolve_dense_budget_auto}
use guanaco.Dense.Boundary.{on_layer_boundary, new_pass}
use guanaco.Hook
use guanaco.Hook.{
  Event, initializes, initialize_hook, expert_tensor, stream_tensor, resident_fill, boundary,
  routed_to, random_access, tensors_loaded, register_expert, register_stream, fill, at_boundary,
  on_router_computed, advise_random_access, on_tensors_loaded, handle, handle_all,
}
use guanaco.Expert.Prefetch.{prefetch_experts}
use guanaco.Expert.Routing.{record_routing}

module _ {F R : Type 0} (w : Hook.World F R) where
  -- What the books of a loader are.
  abbrev Kept : ℕ → Loader F R → Type 0
  Kept slack ld = Booked slack ld.experts

  resolve-Booked :
      {slack : ℕ} (ld : Loader F R) → Kept slack ld → Kept slack (resolve_dense_budget_auto w.os ld)
  unfolding resolve_dense_budget_auto
  resolve-Booked {slack} ld b = if_either (Kept slack) _ ld _ b b

  fill-Booked :
      {slack : ℕ} (ld : Loader F R)
      → Kept slack ld
      → Kept slack (fill_resident_layers w.os w.lib ld)
  unfolding fill_resident_layers fill_layers
  fill-Booked {slack} ld b =
      let r = resolve-Booked ld b in
      if_either (Kept slack) _ (resolve_dense_budget_auto w.os ld) _ r r

  new_pass-Booked :
      {slack : ℕ} (ld : Loader F R) → Kept slack ld → Kept slack (new_pass w.os w.lib ld)
  unfolding new_pass
  new_pass-Booked {slack} ld b =
      if_either (Booked slack) ld.experts.enabled _ ld.experts
        (enforce-Booked w.os.kernel ld.experts b) b

  boundary-Booked :
      {slack : ℕ} (ld : Loader F R) (layer : ℤ)
      → Kept slack ld
      → Kept slack (on_layer_boundary w.os w.lib ld layer)
  unfolding on_layer_boundary
  boundary-Booked ld (negsuc n) b = b
  boundary-Booked {slack} ld (pos n) b = if_either (Kept slack) _ ld _ b (
      if_either (Kept slack) (ltb_ℤ ld.pager.last_boundary_layer (pos n)) ld _ b
        (new_pass-Booked ld b))

  advise-Booked :
      {slack : ℕ} (st : Experts F)
      → Booked slack st
      → Booked slack (advise_experts_random w.os.kernel w.fadvise w.expert_advice_env st).0
  unfolding advise_experts_random
  advise-Booked {slack} st b =
      if_either (λ (q : Experts F × ℕ). Booked slack q.0) _ (st, 0) _ b
        (record { sized = b.sized; books = b.books; fits = b.fits })

  routed-Booked :
      {slack : ℕ} (h : Hook.Hook F R) (layer : ℤ) (ids : List ℤ)
      → Kept slack h.loader
      → Kept slack (on_router_computed w h layer ids).loader
  unfolding on_router_computed
  routed-Booked h layer [] b = b
  routed-Booked h layer (z ∷ zs) b =
      let k = w.os.kernel in
      let recorded = record_routing w.floats k h.loader.experts layer (z ∷ zs) in
      pilot-Booked k w.floats (prefetch_experts k recorded layer (z ∷ zs)) layer (z ∷ zs) (
        prefetch_experts-Booked k recorded layer (z ∷ zs)
          (record_routing-Booked w.floats k h.loader.experts layer (z ∷ zs) b))

  -- The bytes that the events register, at most.
  abbrev pub offered : List Event → ℕ
  offered [] = 0
  offered (expert_tensor name layer off size n base ∷ es) = size + offered es
  offered (_ ∷ es) = offered es

  -- num_experts is an int, so its square fits a size_t.
  abbrev pub Small : List Event → Type 0
  Small [] = Unit {0}
  Small (expert_tensor name layer off size n base ∷ es) = (n * n < u64_mod) × Small es
  Small (_ ∷ es) = Small es

  register_expert-Booked :
      {slack : ℕ} (h : Hook.Hook F R) (name : Option String) (layer : ℤ) (off size n : ℕ)
      (base : Option ℕ)
      → n * n < u64_mod
      → Kept (size + slack) h.loader
      → Kept slack (register_expert w h name layer off size n base).loader
  unfolding register_expert
  register_expert-Booked h none layer off size n base small b = record {
    sized = b.sized;
    books = b.books;
    fits = omega (arith, b.fits);
  }
  register_expert-Booked h (some name) layer off size n base small b =
      register-Booked w.os.kernel w.floats h.loader.experts name layer off size n base small b

  loaded-Booked :
      {slack : ℕ} (h : Hook.Hook F R)
      → Kept slack h.loader
      → Kept slack (on_tensors_loaded w h).loader
  unfolding on_tensors_loaded fill
  loaded-Booked h b =
      load_imatrix_prior-Booked w.os.kernel w.floats
        (fill_resident_layers w.os w.lib h.loader).experts w.prior (fill-Booked h.loader b)

  stream-Booked :
      {slack : ℕ} (h : Hook.Hook F R) (name : Option String) (layer : ℤ) (off size : ℕ)
      (base : Option ℕ)
      → Kept slack h.loader
      → Kept slack (register_stream h name layer off size base).loader
  unfolding register_stream register_stream_tensor
  stream-Booked h none layer off size base b = b
  stream-Booked h (some name) layer off size base b = b

  -- After any sequence of llama.cpp's calls on the model hook, expert_resident_bytes_ is the
  -- number of bytes in loaded slices and every tensor's vectors have one entry for each expert, if
  -- that held before, the bytes of all the tensors fit a size_t and num_experts squared does.
  pub handle_all-Booked :
      (h : Hook.Hook F R) (es : List Event)
      → Small es
      → Booked (offered es) h.loader.experts
      → Booked 0 (handle_all w h es).loader.experts
  unfolding handle_all handle at_boundary fill advise_random_access initialize_hook
  handle_all-Booked h [] small b = b
  handle_all-Booked h (initializes ∷ es) small b =
      handle_all-Booked (handle w h initializes) es small
        (record { sized = b.sized; books = b.books; fits = b.fits })
  handle_all-Booked h (expert_tensor name layer off size n base ∷ es) small b =
      handle_all-Booked (handle w h (expert_tensor name layer off size n base)) es small.1
        (register_expert-Booked h name layer off size n base small.0 b)
  handle_all-Booked h (stream_tensor name layer off size base ∷ es) small b =
      handle_all-Booked (handle w h (stream_tensor name layer off size base)) es small
        (stream-Booked h name layer off size base b)
  handle_all-Booked h (resident_fill ∷ es) small b =
      handle_all-Booked (handle w h resident_fill) es small (fill-Booked h.loader b)
  handle_all-Booked h (boundary layer ∷ es) small b =
      handle_all-Booked (handle w h (boundary layer)) es small (boundary-Booked h.loader layer b)
  handle_all-Booked h (routed_to layer ids ∷ es) small b =
      handle_all-Booked (handle w h (routed_to layer ids)) es small (routed-Booked h layer ids b)
  handle_all-Booked h (random_access ∷ es) small b =
      handle_all-Booked (handle w h random_access) es small (advise-Booked h.loader.experts b)
  handle_all-Booked h (tensors_loaded ∷ es) small b =
      handle_all-Booked (handle w h tensors_loaded) es small (loaded-Booked h b)
