-- ===== src/Herd/Shows.antt =====
-- src/guanaco_herdcache.cpp: what each call does to the list of keys in order of use.
use guanaco.Base.{
  ◌-◌, ◌≤◌, ◌<◌, ◌≡◌, ◌⊎◌, inl, inr, refl, sym, ap, ◌∙◌, true, false, none, some, List, [], ◌∷◌,
  ◌++◌, length, length-append, length-drop, drop, leb, Bool-cases, arith, if◌then◌else◌,
}
use guanaco.Herd.{
  HerdCache, ExpertKey, ExpertTensorBuffer, find_active, erase_lru, evict_if_needed, update_lru,
  allocate_slot, pin_expert, unpin_expert, key_eq, fresh_buffer,
}
use guanaco.Herd.Keys.{
  keys, occurrences, occurrences-erase_lru, occurrences-erase_active, length-erase_lru,
  length-erase_active, find_active-cases,
}
use guanaco.Herd.Lru.{
  Lru, pins, unpins, contains, without, newest, touch, allocate, use_key, spec_step,
}
use guanaco.Herd.Tidy.{
  IsTidy, release-keeps, evict_loop-IsTidy, update_lru-IsTidy, place-IsTidy, newest-all,
}

abbrev pub view : HerdCache → Lru
view c = record { max = c.max_active_experts; order = c.lru_list }

without-absent :
    (key : ExpertKey) (ks : List ExpertKey) → occurrences key ks ≡ 0 → without key ks ≡ ks
unfolding without
without-absent key [] h = refl
without-absent key (k ∷ ks) h = elim (Bool-cases (key_eq k key)) [
  | inl here ↦ absurd (ground (arith, here))
  | inr other ↦ rw other (ap (λ r. k ∷ r) (without-absent key ks (ground (arith, other))))
]

erase_lru-eq-without :
    (key : ExpertKey) (ks : List ExpertKey)
    → occurrences key ks ≤ 1
    → erase_lru key ks ≡ without key ks
unfolding erase_lru without
erase_lru-eq-without key [] h = refl
erase_lru-eq-without key (k ∷ ks) h = elim (Bool-cases (key_eq k key)) [
  | inl here ↦ rw here (sym (without-absent key ks (ground (arith, here))))
  | inr other ↦ rw other (ap (λ r. k ∷ r) (erase_lru-eq-without key ks (ground (arith, other))))
]

contains-cases :
    (key : ExpertKey) (ks : List ExpertKey)
    → ((contains key ks ≡ true) × (0 < occurrences key ks))
      ⊎ ((contains key ks ≡ false) × (occurrences key ks ≡ 0))
unfolding contains
contains-cases key [] = inr (refl, refl)
contains-cases key (k ∷ ks) = elim (Bool-cases (key_eq k key)) [
  | inl here ↦ inl (ground (arith, here), ground (arith, here))
  | inr other ↦ elim (contains-cases key ks) [
    | inl (a, z) ↦ inl (ground (arith, other), ground (arith, other))
    | inr (a, z) ↦ inr (ground (arith, other), ground (arith, other))
  ]
]

-- Whether the map finds a key is whether the list has it.
pub find_active-contains :
    (key : ExpertKey) (c : HerdCache)
    → IsTidy c
    → ((find_active key c.active_experts ≡ none) × (contains key c.lru_list ≡ false))
      ⊎ ((b : ExpertTensorBuffer) × (find_active key c.active_experts ≡ some b)
          × (contains key c.lru_list ≡ true)
          × (0 < occurrences key c.lru_list))
find_active-contains key c t = elim (find_active-cases key c.active_experts) [
  | inl (none_, z) ↦ elim (contains-cases key c.lru_list) [
    | inl (yes_, has) ↦ absurd (omega (arith, t.same key))
    | inr (no_, has) ↦ inl (none_, no_)
  ]
  | inr (b, found, z) ↦ elim (contains-cases key c.lru_list) [
    | inl (yes_, has) ↦ inr (b, found, yes_, has)
    | inr (no_, has) ↦ absurd (omega (arith, t.same key))
  ]
]

update_lru-touch :
    (key : ExpertKey) (c : HerdCache)
    → IsTidy c
    → (update_lru key c).lru_list ≡ touch key c.lru_list
unfolding update_lru touch
update_lru-touch key c t =
    ap (λ ks. ks ++ key ∷ []) (erase_lru-eq-without key c.lru_list (t.once key))

view_path : (a b : Lru) → a.max ≡ b.max → a.order ≡ b.order → a ≡ b
view_path a b h k = cc

-- The cache is tidy, and its view is the list's state.
abbrev pub Shows : Lru → HerdCache → Type 0
Shows l c = IsTidy c × (view c ≡ l)

pub update_lru-Shows :
    (key : ExpertKey) (c : HerdCache)
    → 0 < occurrences key c.lru_list
    → IsTidy c
    → Shows (use_key key (view c)) (update_lru key c)
unfolding use_key update_lru
update_lru-Shows key c has t =
    (update_lru-IsTidy key c has t, view_path _ _ refl (update_lru-touch key c t))

-- The cache once there is room in it.
roomy : HerdCache → HerdCache
roomy c = if leb c.max_active_experts (length c.active_experts) then evict_if_needed c else c

roomy-Shows :
    (c : HerdCache)
    → IsTidy c
    → Shows
        (record {
          max = c.max_active_experts;
          order = newest (c.max_active_experts - 1) c.lru_list;
        })
        (roomy c)
unfolding roomy evict_if_needed
roomy-Shows c t = elim (Bool-cases (leb c.max_active_experts (length c.active_experts))) [
  | inl full ↦
      let (u, order, max) =
        evict_loop-IsTidy (length c.lru_list) c.lru_list c refl (omega arith) t in
      rw (full, roomy) (u, view_path _ _ max order)
  | inr room ↦
      let cut = newest-all (c.max_active_experts - 1) c.lru_list (ground (arith, t.size)) in
      rw (room, roomy) (t, view_path _ _ refl (sym cut))
]

pub allocate_slot-Shows :
    (key : ExpertKey) (c : HerdCache)
    → IsTidy c
    → Shows (allocate key (view c)) (allocate_slot key c)
unfolding allocate_slot allocate roomy update_lru
allocate_slot-Shows key c t =
    let (u, same) = roomy-Shows c t in
    let placed = place-IsTidy key (fresh_buffer key) (roomy c) u in
    let order = update_lru-touch key (roomy c) u in
    (placed, view_path _ _ (ap (λ l. l.max) same) (order ∙ ap (λ l. touch key l.order) same))

pub pin_expert-Shows :
    (key : ExpertKey) (c : HerdCache)
    → IsTidy c
    → Shows (spec_step (view c) (pins key)).0 (pin_expert key c)
unfolding pin_expert spec_step
pin_expert-Shows key c t = elim (find_active-contains key c t) [
  | inl (none_, no_) ↦ rw (none_, no_, pin_expert) (allocate_slot-Shows key c t)
  | inr (b, found, yes_, has) ↦ rw (found, yes_, pin_expert) (update_lru-Shows key c has t)
]

pub unpin_expert-Shows :
    (key : ExpertKey) (c : HerdCache)
    → IsTidy c
    → Shows (spec_step (view c) (unpins key)).0 (unpin_expert key c)
unfolding unpin_expert spec_step
unpin_expert-Shows key c t = elim (find_active-contains key c t) [
  | inl (none_, no_) ↦ elim (contains-cases key c.lru_list) [
    | inl (yes_, has) ↦ absurd (cc)
    | inr (_, z) ↦
        rw (none_, unpin_expert) (t, view_path _ _ refl (sym (without-absent key c.lru_list z)))
  ]
  | inr (b, found, yes_, has) ↦
      let (lru, max) = release-keeps b c in
      let shorter = (length-erase_lru key c.lru_list).1 has in
      let has' : 0 < occurrences key (keys c.active_experts) = omega (arith, t.same key) in
      rw (found, unpin_expert)
        (
          record {
            same = λ j. omega (
              arith,
              occurrences-erase_active key j c.active_experts,
              occurrences-erase_lru key j c.lru_list,
              t.same j,
            );
            once = λ j. omega (arith, occurrences-erase_lru key j c.lru_list, t.once j);
            size = omega (arith, shorter, length-erase_active key c.active_experts has', t.size);
          },
          view_path _ _ max (erase_lru-eq-without key c.lru_list (t.once key)),
        )
]

length-without : (key : ExpertKey) (ks : List ExpertKey) → length (without key ks) ≤ length ks
unfolding without
length-without key [] = omega arith
length-without key (k ∷ ks) = ground (arith, length-without key ks)

-- On a cache whose list and map hold the same keys once, with a limit that is not 0, allocate_slot
-- leaves no more entries than the limit, even where the cache was over it.
pub length-allocate_slot :
    (key : ExpertKey) (c : HerdCache)
    → IsTidy c
    → 0 < c.max_active_experts
    → length (allocate_slot key c).active_experts ≤ c.max_active_experts
unfolding allocate touch newest
length-allocate_slot key c t some_room =
    let (u, same) = allocate_slot-Shows key c t in
    let n = length c.lru_list - (c.max_active_experts - 1) in
    let cut = length-drop n c.lru_list in
    let short = length-without key (drop n c.lru_list) in
    let grown = length-append (without key (drop n c.lru_list)) (key ∷ []) in
    omega (arith, u.size, ap (λ l. length l.order) same, cut, short, grown)

-- On a cache whose list and map hold the same keys once, with a limit that is not 0,
-- evict_if_needed keeps the newest keys, one fewer than the limit at most, in their order, in the
-- list and the map alike, and leaves the limit alone.
pub evict_if_needed-Shows :
    (c : HerdCache)
    → IsTidy c
    → 0 < c.max_active_experts
    → Shows
        (record {
          max = c.max_active_experts;
          order = newest (c.max_active_experts - 1) c.lru_list;
        })
        (evict_if_needed c)
      × (length (evict_if_needed c).active_experts < c.max_active_experts)
unfolding evict_if_needed newest
evict_if_needed-Shows c t some_room =
    let (u, order, max) = evict_loop-IsTidy (length c.lru_list) c.lru_list c refl (omega arith) t in
    let kept = length-drop (length c.lru_list - (c.max_active_experts - 1)) c.lru_list in
    let same : length (evict_if_needed c).lru_list
        ≡ length (drop (length c.lru_list - (c.max_active_experts - 1)) c.lru_list) =
      ap (λ l. length l) order in
    ((u, view_path _ _ max order), omega (arith, u.size, kept, same, some_room))
