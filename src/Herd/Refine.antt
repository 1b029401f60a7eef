-- ===== src/Herd/Refine.antt =====
-- src/guanaco_herdcache.cpp: the cache against the list of keys in order of use.
use guanaco.Base.{◌≡◌, inl, inr, refl, sym, ap, ◌∙◌, Bool, true, false, none, some, List, [], ◌∷◌}
use mathlib.Core.Path.{ap₂}
use guanaco.Herd.{
  HerdCache, ExpertKey, ExpertTensorBuffer, find_active, update_lru, allocate_slot, get_buffer,
  is_pinned, pin_expert, unpin_expert, set_max_active,
}
use guanaco.Herd.Lru.{Lru, Op, allocates, gets, tests, pins, unpins, limits, spec_step, spec_run}
use guanaco.Herd.Tidy.{IsTidy}
use guanaco.Herd.Shows.{
  view, Shows, update_lru-Shows, allocate_slot-Shows, pin_expert-Shows, unpin_expert-Shows,
  find_active-contains,
}

-- The client's call, with the answer that it gets.
unfoldable pub cache_step : HerdCache → Op → HerdCache × Bool
unfolding set_max_active
cache_step c (allocates key) = (allocate_slot key c, true)
cache_step c (gets key) =
    let (c', got) = get_buffer key c in (c', elim got [ none ↦ false | some b ↦ true ])
cache_step c (tests key) = (c, is_pinned key c)
cache_step c (pins key) = (pin_expert key c, true)
cache_step c (unpins key) = (unpin_expert key c, true)
cache_step c (limits n) = (set_max_active n c, true)

unfoldable pub cache_run : HerdCache → List Op → List Bool
unfolding cache_step
cache_run c [] = []
cache_run c (op ∷ ops) = let (c', answer) = cache_step c op in answer ∷ cache_run c' ops

get_buffer-absent :
    (key : ExpertKey) (c : HerdCache)
    → find_active key c.active_experts ≡ none
    → get_buffer key c ≡ (c, none)
unfolding get_buffer
get_buffer-absent key c h = rw (h, get_buffer)

get_buffer-found :
    (key : ExpertKey) (c : HerdCache) (b : ExpertTensorBuffer)
    → find_active key c.active_experts ≡ some b
    → get_buffer key c ≡ (update_lru key c, some b)
unfolding get_buffer
get_buffer-found key c b h = rw (h, get_buffer)

is_pinned-absent :
    (key : ExpertKey) (c : HerdCache)
    → find_active key c.active_experts ≡ none
    → is_pinned key c ≡ false
unfolding is_pinned
is_pinned-absent key c h = rw (h, is_pinned)

is_pinned-found :
    (key : ExpertKey) (c : HerdCache) (b : ExpertTensorBuffer)
    → find_active key c.active_experts ≡ some b
    → is_pinned key c ≡ true
unfolding is_pinned
is_pinned-found key c b h = rw (h, is_pinned)

-- One call.
abbrev Answers : Lru × Bool → HerdCache × Bool → Type 0
Answers s r = Shows s.0 r.0 × (r.1 ≡ s.1)

cache_step-Answers :
    (c : HerdCache) (op : Op) → IsTidy c → Answers (spec_step (view c) op) (cache_step c op)
unfolding cache_step spec_step
cache_step-Answers c (allocates key) t = (allocate_slot-Shows key c t, refl)
cache_step-Answers c (gets key) t = elim (find_active-contains key c t) [
  | inl (none_, no_) ↦ rw (get_buffer-absent key c none_, no_, cache_step) ((t, refl), refl)
  | inr (b, found, yes_, has) ↦
      rw (get_buffer-found key c b found, yes_, cache_step) (update_lru-Shows key c has t, refl)
]
cache_step-Answers c (tests key) t = elim (find_active-contains key c t) [
  | inl (none_, no_) ↦ ((t, refl), is_pinned-absent key c none_ ∙ sym no_)
  | inr (b, found, yes_, has) ↦ ((t, refl), is_pinned-found key c b found ∙ sym yes_)
]
cache_step-Answers c (pins key) t = (pin_expert-Shows key c t, refl)
cache_step-Answers c (unpins key) t = (unpin_expert-Shows key c t, refl)
cache_step-Answers c (limits n) t =
    ((record { same = t.same; once = t.once; size = t.size }, refl), refl)

-- Whatever the sequence of calls on a HerdCache whose list and map hold the same keys once, its
-- answers are those of a plain list of keys in the order of their use, cut to the limit.
pub cache_run_refines :
    (c : HerdCache) (ops : List Op) → IsTidy c → cache_run c ops ≡ spec_run (view c) ops
unfolding cache_run spec_run
cache_run_refines c [] t = refl
cache_run_refines c (op ∷ ops) t =
    let ((u, same), answer) = cache_step-Answers c op t in
    ap₂ ◌∷◌ answer (cache_run_refines (cache_step c op).0 ops u ∙ ap (λ l. spec_run l ops) same)
