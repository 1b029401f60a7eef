-- ===== src/Router/Room.antt =====
-- src/guanaco_router.cpp, prefetch_experts: HerdCache while the selected experts are given slots.
use guanaco.Base.{
  ℕ, ◌<◌, ◌≤◌, ◌≡◌, ap, ◌∙◌, not, Option, List, [], ◌∷◌, ℤ, pos, length, arith, if_either,
  if◌then◌else◌, Option-cases, inl, inr, true, false,
}
use guanaco.Herd.{HerdCache, ExpertKey, allocate_slot, is_pinned}
use guanaco.Herd.Keys.{keys, occurrences, find_active-cases, put_active-old}
use guanaco.Herd.Room.{get_buffer-allocate_slot}
use guanaco.Herd.Lru.{Lru, allocate}
use guanaco.Herd.Tidy.{IsTidy}
use guanaco.Herd.Shows.{allocate_slot-Shows, length-allocate_slot}
use guanaco.Storage.{ManifestEntry, Storage}
use guanaco.Storage.Reads.{Outcome, entries_of, entry_for}
use guanaco.Router.{prefetch_selected, give_slot, fill_slot, read_buffer, listed_in, key_of}

-- A tidy cache under its limit.
pub record Fits (max : ℕ) (c : HerdCache) : Type 0 where
  pub tidy : IsTidy c
  pub limit : c.max_active_experts ≡ max
  pub size : length c.active_experts ≤ max

allocate_slot-Fits :
    (max : ℕ) (key : ExpertKey) (c : HerdCache)
    → 0 < max
    → Fits max c
    → Fits max (allocate_slot key c)
unfolding allocate
allocate_slot-Fits max key c some_room f =
    let (u, same) = allocate_slot-Shows key c f.tidy in
    record {
      tidy = u;
      limit = ap (λ (l : Lru). l.max) same ∙ f.limit;
      size =
          omega
            (arith, f.limit, length-allocate_slot key c f.tidy (omega (arith, f.limit, some_room)));
    }

-- A key that the cache answers for is in its map.
is_pinned-occurs :
    (key : ExpertKey) (c : HerdCache)
    → is_pinned key c ≡ true
    → 0 < occurrences key (keys c.active_experts)
unfolding is_pinned
is_pinned-occurs key c there = elim (find_active-cases key c.active_experts) [
  | inl (none_, z) ↦ absurd (let no : false ≡ true = rw (none_, is_pinned) at there in cc)
  | inr (b, found, has) ↦ has
]

module _ (address : ManifestEntry → ℕ) (read : ManifestEntry → Outcome) (s : Storage) where
  -- The read changes the buffer of a key that the cache has.
  fill_slot-Fits :
      (max : ℕ) (layer : ℤ) (e : ℕ) (c : HerdCache)
      → is_pinned (key_of layer e) c ≡ true
      → Fits max c
      → Fits max (fill_slot address read s layer e c)
  unfolding fill_slot
  fill_slot-Fits max layer e c there f = elim (Option-cases (entries_of layer s.layer_experts)) [
    | inl none_ ↦ rw (none_, fill_slot) f
    | inr (ms, some_) ↦ elim (Option-cases (entry_for (pos e) ms)) [
      | inl none_ ↦ rw (some_, none_, fill_slot) f
      | inr (m, found) ↦
          let (occ, len) =
            put_active-old (key_of layer e) (read_buffer address read s m) c.active_experts
              (is_pinned-occurs (key_of layer e) c there) in
          rw (some_, found, fill_slot)
            (record {
              tidy = record {
                same = λ j. occ j ∙ f.tidy.same j;
                once = f.tidy.once;
                size = len ∙ f.tidy.size;
              };
              limit = f.limit;
              size = omega (arith, len, f.size);
            })
    ]
  ]

  give_slot-Fits :
      (max : ℕ) (ms : Option (List ManifestEntry)) (layer : ℤ) (e : ℕ) (c : HerdCache)
      → 0 < max
      → Fits max c
      → Fits max (give_slot address read s ms layer e c)
  unfolding give_slot
  give_slot-Fits max ms layer e c some_room f =
      let given = allocate_slot (key_of layer e) c in
      let g = allocate_slot-Fits max (key_of layer e) c some_room f in
      if_either (Fits max) (listed_in layer e ms) (fill_slot address read s layer e given) given
        (fill_slot-Fits max layer e given (get_buffer-allocate_slot (key_of layer e) c).1 g) g

  -- While the router's selected experts are given slots, a HerdCache that is tidy and under a
  -- limit that is not 0 stays so.
  pub prefetch_selected-Fits :
      (max : ℕ) (ms : Option (List ManifestEntry)) (layer : ℤ) (es : List ℕ) (c : HerdCache)
      → 0 < max
      → Fits max c
      → Fits max (prefetch_selected address read s ms layer es c).0
  unfolding prefetch_selected
  prefetch_selected-Fits max ms layer [] c some_room f = f
  prefetch_selected-Fits max ms layer (e ∷ es) c some_room f =
      prefetch_selected-Fits max ms layer es
        (if not (is_pinned (key_of layer e) c) then give_slot address read s ms layer e c else c)
        some_room
        (if_either (Fits max) (not (is_pinned (key_of layer e) c))
          (give_slot address read s ms layer e c) c (give_slot-Fits max ms layer e c some_room f) f)
