-- ===== src/Expert/Pilot/Outcome.antt =====
-- src/guanaco_steppeloader.cpp, pilot_prefetch_next_layer: it leaves the loader alone, or it prefetches.
use guanaco.Base.{
  ℕ, inl, inr, ◌||◌, not, List, [], ◌∷◌, map, length, ℤ, pos, Bool-cases, Option-cases, List-cases,
}
use guanaco.Base.Words.{add64, inc64}
use guanaco.Madvise.{Kernel}
use guanaco.Expert.{Floats, Experts}
use guanaco.Expert.Prefetch.{prefetch_experts}
use guanaco.Expert.Pilot.{pilot_prefetch_next_layer, next_layer, predict}

module _ {F : Type 0} (k : Kernel) (fl : Floats F) where
  -- A property of the loader that counting and prefetching keep.
  pub pilot_outcome :
      (P : Experts F → Type 0) (st : Experts F) (layer : ℤ) (ids : List ℤ)
      → P st
      → ((next : ℤ) (ps : List ℕ)
          → P (
              prefetch_experts k
                (record st {
                  pilot_calls = inc64 st.pilot_calls;
                  pilot_slice_reads = add64 st.pilot_slice_reads (length ps);
                })
                next
                (map pos ps)))
      → P (pilot_prefetch_next_layer fl k st layer ids)
  unfolding pilot_prefetch_next_layer
  pilot_outcome P st layer [] same moved = same
  pilot_outcome P st layer (z ∷ zs) same moved =
      elim (Bool-cases (not st.enabled || not st.config.use_pilot)) [
        | inl off ↦ rw (off, pilot_prefetch_next_layer) same
        | inr on ↦ elim (Option-cases (next_layer layer st.moe_layers)) [
          | inl last ↦ rw (on, last, pilot_prefetch_next_layer) same
          | inr (next, found) ↦
              elim (List-cases (predict fl st.config next (z ∷ zs) st.tensors [])) [
                | inl nothing ↦ rw (on, found, nothing, pilot_prefetch_next_layer) same
                | inr (p, ps, some_) ↦
                    rw (on, found, some_, pilot_prefetch_next_layer) (moved next (p ∷ ps))
              ]
        ]
      ]
