-- ===== src/Herd/Room.antt =====
-- src/guanaco_herdcache.cpp: giving out a slot.
use guanaco.Base.{
  ◌≡◌, inl, inr, refl, true, some, List, [], ◌∷◌, leb, length, Bool-cases, arith, ==ℤ_iff,
  if◌then◌else◌,
}
use guanaco.Herd.{
  HerdCache, ExpertKey, ExpertTensorBuffer, find_active, put_active, evict_if_needed, key_eq,
  allocate_slot, is_pinned, get_buffer, fresh_buffer, update_lru,
}

key_eq_refl : (key : ExpertKey) → key_eq key key ≡ true
unfolding key_eq
key_eq_refl key =
    let a = (==ℤ_iff key.layer_idx key.layer_idx).1 refl in
    let b = (==ℤ_iff key.expert_idx key.expert_idx).1 refl in ground (arith, a, b)

find_active-put_active :
    (key : ExpertKey) (buf : ExpertTensorBuffer) (es : List (ExpertKey × ExpertTensorBuffer))
    → find_active key (put_active key buf es) ≡ some buf
unfolding find_active put_active
find_active-put_active key buf [] = ground (arith, key_eq_refl key)
find_active-put_active key buf ((k, b) ∷ es) = elim (Bool-cases (key_eq k key)) [
  | inl here ↦ rw (here, put_active, find_active) (ground (arith, here))
  | inr other ↦
      let rest = find_active-put_active key buf es in
      rw (other, put_active) (rw (other, find_active) rest)
]

-- The slot that allocate_slot gives an expert is the one that get_buffer then finds, not ready and
-- under the expert's own ids, and is_pinned holds of the expert.
pub get_buffer-allocate_slot :
    (key : ExpertKey) (c : HerdCache)
    → ((get_buffer key (allocate_slot key c)).1 ≡ some (fresh_buffer key))
      × (is_pinned key (allocate_slot key c) ≡ true)
unfolding get_buffer is_pinned allocate_slot update_lru
get_buffer-allocate_slot key c =
    let room =
      if leb c.max_active_experts (length c.active_experts) then evict_if_needed c else c in
    let found = find_active-put_active key (fresh_buffer key) room.active_experts in
    (rw (found, get_buffer) refl, rw (found, is_pinned) refl)
