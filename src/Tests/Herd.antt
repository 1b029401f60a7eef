-- ===== src/Tests/Herd.antt =====
-- HerdCache at concrete inputs.
use guanaco.Base.{◌≡◌, refl, true, false, some, [], ◌∷◌, pos}
use guanaco.Herd.{
  HerdCache, ExpertKey, allocate_slot, get_buffer, fresh_buffer, is_pinned, evict_if_needed,
}
use guanaco.Base.{◌≤◌, ◌<◌, length, List, arith}
use guanaco.Herd.{unpin_expert}
use guanaco.Herd.Tidy.{IsTidy}
use guanaco.Herd.Lru.{newest, Op, allocates, gets, tests, unpins, limits, spec_run}
use guanaco.Herd.Shows.{
  Shows, allocate_slot-Shows, evict_if_needed-Shows, view, length-allocate_slot,
}
use guanaco.Herd.Refine.{cache_run, cache_run_refines}
use guanaco.Herd.Room.{get_buffer-allocate_slot}

abbrev first : ExpertKey
first = record { layer_idx = pos 0; expert_idx = pos 3 }

abbrev second : ExpertKey
second = record { layer_idx = pos 0; expert_idx = pos 5 }

-- Room for one expert, and the first in it.
abbrev cache : HerdCache
cache = record {
  max_active_experts = 1;
  use_madvise = true;
  active_experts = (first, fresh_buffer first) ∷ [];
  lru_list = first ∷ [];
  advised = [];
}

get_buffer-allocate_slot_example :
    ((get_buffer second (allocate_slot second cache)).1 ≡ some (fresh_buffer second))
    × (is_pinned second (allocate_slot second cache) ≡ true)
get_buffer-allocate_slot_example = get_buffer-allocate_slot second cache

-- The second expert takes the place of the first.
first_evicted : is_pinned first (allocate_slot second cache) ≡ false
unfolding is_pinned allocate_slot
first_evicted = refl

abbrev empty_cache : HerdCache
empty_cache = record {
  max_active_experts = 1;
  use_madvise = true;
  active_experts = [];
  lru_list = [];
  advised = [];
}

empty_cache-IsTidy : IsTidy empty_cache
empty_cache-IsTidy = record { same = λ j. refl; once = λ j. omega arith; size = refl }

abbrev ops : List Op
ops = allocates first ∷ allocates second ∷ tests first ∷ gets second ∷ limits 2 ∷ unpins second ∷ []

cache_run_refines_example : cache_run empty_cache ops ≡ spec_run (view empty_cache) ops
cache_run_refines_example = cache_run_refines empty_cache ops empty_cache-IsTidy

answers : cache_run empty_cache ops ≡ true ∷ true ∷ false ∷ true ∷ true ∷ true ∷ []
unfolding cache_run allocate_slot get_buffer is_pinned unpin_expert
answers = refl

length-allocate_slot_example : length (allocate_slot first empty_cache).active_experts ≤ 1
length-allocate_slot_example =
    length-allocate_slot first empty_cache empty_cache-IsTidy (omega arith)

-- Room for two experts, and both there.
abbrev wide_cache : HerdCache
wide_cache = record empty_cache { max_active_experts = 2 }

abbrev full_cache : HerdCache
full_cache = allocate_slot second (allocate_slot first wide_cache)

full_cache-IsTidy : IsTidy full_cache
full_cache-IsTidy =
    let t : IsTidy wide_cache = record { same = λ j. refl; once = λ j. omega arith; size = refl } in
    (allocate_slot-Shows second (allocate_slot first wide_cache)
      (allocate_slot-Shows first wide_cache t).0).0

evict_if_needed-Shows_example :
    Shows (record { max = 2; order = newest 1 full_cache.lru_list }) (evict_if_needed full_cache)
    × (length (evict_if_needed full_cache).active_experts < 2)
unfolding allocate_slot
evict_if_needed-Shows_example = evict_if_needed-Shows full_cache full_cache-IsTidy (omega arith)

the_newest : (evict_if_needed full_cache).lru_list ≡ second ∷ []
unfolding evict_if_needed allocate_slot
the_newest = refl
