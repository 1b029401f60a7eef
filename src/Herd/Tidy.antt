-- ===== src/Herd/Tidy.antt =====
-- src/guanaco_herdcache.cpp: the map and the LRU list hold the same keys, each once.
use guanaco.Base.{
  ℕ, zero, suc, ◌+◌, ◌-◌, ◌≤◌, ◌<◌, ◌≡◌, inl, inr, refl, sym, ap, ◌∙◌, false, ◌&&◌, not, List, [],
  ◌∷◌, ◌++◌, length, length-append, drop, leb, ◌==◌, Bool-cases, arith,
}
use mathlib.Core.Path.{subst}
use guanaco.Herd.{
  HerdCache, ExpertKey, ExpertTensorBuffer, put_active, erase_active, erase_lru, drop_active,
  release, evict_lru, evict_loop, update_lru, key_eq,
}
use guanaco.Herd.Keys.{
  keys, occurrences, one_if, key_eq_iff, one_if-true, one_if-false, one_if_self, occurrences-append,
  occurrences-erase_lru, occurrences-erase_active, length-erase_lru, length-erase_active,
  find_active-cases, put_active-new, put_active-old,
}
use guanaco.Herd.Lru.{newest}

pub record IsTidy (c : HerdCache) : Type 0 where
  pub same : (j : ExpertKey) → occurrences j (keys c.active_experts) ≡ occurrences j c.lru_list
  pub once : (j : ExpertKey) → occurrences j c.lru_list ≤ 1
  pub size : length c.active_experts ≡ length c.lru_list

pub release-keeps :
    (b : ExpertTensorBuffer) (c : HerdCache)
    → ((release b c).lru_list ≡ c.lru_list)
      × ((release b c).max_active_experts ≡ c.max_active_experts)
unfolding release
release-keeps b c = elim (Bool-cases (c.use_madvise && not (b.data_size == 0))) [
  | inl told ↦ rw (told, release) (refl, refl)
  | inr quiet ↦ rw (quiet, release) (refl, refl)
]

-- Dropping a key that the map has.
drop_active-found :
    (key : ExpertKey) (c : HerdCache)
    → 0 < occurrences key (keys c.active_experts)
    → ((drop_active key c).active_experts ≡ erase_active key c.active_experts)
      × ((drop_active key c).lru_list ≡ c.lru_list)
      × ((drop_active key c).max_active_experts ≡ c.max_active_experts)
unfolding drop_active
drop_active-found key c has = elim (find_active-cases key c.active_experts) [
  | inl (none_, z) ↦ absurd (omega arith)
  | inr (b, found, z) ↦
      let (lru, max) = release-keeps b c in rw (found, drop_active) (refl, lru, max)
]

pub evict_lru-IsTidy :
    (k : ExpertKey) (ks : List ExpertKey) (c : HerdCache)
    → c.lru_list ≡ k ∷ ks
    → IsTidy c
    → IsTidy (evict_lru c)
      × ((evict_lru c).lru_list ≡ ks)
      × ((evict_lru c).max_active_experts ≡ c.max_active_experts)
unfolding evict_lru
evict_lru-IsTidy k ks c head t =
    let c1 = record c { lru_list = ks } in
    let occ : (j : ExpertKey)
        → occurrences j (keys c.active_experts) ≡ one_if k j + occurrences j ks =
      λ j. t.same j ∙ ap (λ l. occurrences j l) head in
    let has : 0 < occurrences k (keys c.active_experts) = omega (arith, occ k, one_if_self k) in
    let (active, lru, max) = drop_active-found k c1 has in
    let size : suc (length (erase_active k c.active_experts)) ≡ suc (length ks) =
      length-erase_active k c.active_experts has ∙ t.size ∙ ap (λ l. length l) head in
    rw (head, evict_lru)
      (
        record {
          same = λ j.
              ap (λ es. occurrences j (keys es)) active
              ∙ occurrences-erase_active k j c.active_experts
              ∙ omega (arith, occ j)
              ∙ ap (λ l. occurrences j l) (sym lru);
          once = λ j.
              omega
                (arith, t.once j, ap (λ l. occurrences j l) head, ap (λ l. occurrences j l) lru);
          size = ap (λ es. length es) active ∙ omega (arith, size) ∙ ap (λ l. length l) (sym lru);
        },
        lru,
        max,
      )

newest-full :
    (n : ℕ) (k : ExpertKey) (ks : List ExpertKey) → n ≤ length ks → newest n (k ∷ ks) ≡ newest n ks
unfolding newest
newest-full n k ks h =
    let one_more : suc (length ks) - n ≡ suc (length ks - n) = omega arith in
    ap (λ m. drop m (k ∷ ks)) one_more

pub newest-all : (n : ℕ) (ks : List ExpertKey) → length ks ≤ n → newest n ks ≡ ks
unfolding newest
newest-all n ks h = let nothing : length ks - n ≡ 0 = omega arith in ap (λ m. drop m ks) nothing

pub evict_loop-IsTidy :
    (fuel : ℕ) (ks : List ExpertKey) (c : HerdCache)
    → c.lru_list ≡ ks
    → length ks ≤ fuel
    → IsTidy c
    → IsTidy (evict_loop fuel c)
      × ((evict_loop fuel c).lru_list ≡ newest (c.max_active_experts - 1) ks)
      × ((evict_loop fuel c).max_active_experts ≡ c.max_active_experts)
unfolding evict_loop
evict_loop-IsTidy zero [] c lru h t = (t, lru ∙ sym (newest-all _ [] (omega arith)), refl)
evict_loop-IsTidy zero (k ∷ ks) c lru h t = absurd (omega arith)
evict_loop-IsTidy (suc fuel) [] c lru h t =
    let stop : (leb c.max_active_experts (length c.active_experts) && not (length c.lru_list == 0))
        ≡ false =
      rw lru (ground arith) in
    rw (stop, evict_loop) (t, lru ∙ sym (newest-all _ [] (omega arith)), refl)
evict_loop-IsTidy (suc fuel) (k ∷ ks) c lru h t =
    let len : length c.active_experts ≡ suc (length ks) = t.size ∙ ap (λ l. length l) lru in
    let some_ : (length c.lru_list == 0) ≡ false = rw lru (ground arith) in
    elim (Bool-cases
      (leb c.max_active_experts (length c.active_experts) && not (length c.lru_list == 0))) [
        | inl full ↦
            let (t', tail, max) = evict_lru-IsTidy k ks c lru t in
            let (u, order, max') = evict_loop-IsTidy fuel ks (evict_lru c) tail (omega arith) t' in
            let cut = newest-full (c.max_active_experts - 1) k ks (ground arith) in
            rw (full, evict_loop) (u, order ∙ ap (λ m. newest (m - 1) ks) max ∙ sym cut, max' ∙ max)
        | inr room ↦
            let cut = newest-all (c.max_active_experts - 1) (k ∷ ks) (ground arith) in
            rw (room, evict_loop) (t, lru ∙ sym cut, refl)
      ]

-- Moving a key of the map to the end of the list.
pub update_lru-IsTidy :
    (key : ExpertKey) (c : HerdCache)
    → 0 < occurrences key c.lru_list
    → IsTidy c
    → IsTidy (update_lru key c)
unfolding update_lru
update_lru-IsTidy key c has t =
    let shorter = (length-erase_lru key c.lru_list).1 has in
    let moved : (j : ExpertKey)
        → occurrences j (erase_lru key c.lru_list ++ key ∷ []) ≡ occurrences j c.lru_list =
      λ j. elim (Bool-cases (key_eq key j)) [
        | inl same ↦
            let e : key ≡ j = (key_eq_iff key j).0 same in
            let has_j : 0 < occurrences j c.lru_list =
              subst (λ k. 0 < occurrences k c.lru_list) e has in
            omega (
              arith,
              occurrences-append j (erase_lru key c.lru_list) (key ∷ []),
              occurrences-erase_lru key j c.lru_list,
              has_j,
              one_if-true key j same,
            )
        | inr other ↦ omega (
          arith,
          occurrences-append j (erase_lru key c.lru_list) (key ∷ []),
          occurrences-erase_lru key j c.lru_list,
          one_if-false key j other,
        )
      ] in
    record {
      same = λ j. t.same j ∙ sym (moved j);
      once = λ j. omega (arith, t.once j, moved j);
      size = omega (arith, t.size, shorter, length-append (erase_lru key c.lru_list) (key ∷ []));
    }

-- A key that is new to both.
place_new :
    (key : ExpertKey) (es : List (ExpertKey × ExpertTensorBuffer)) (c : HerdCache)
    → IsTidy c
    → ((j : ExpertKey)
        → occurrences j (keys es) ≡ occurrences j (keys c.active_experts) + one_if key j)
    → length es ≡ suc (length c.active_experts)
    → occurrences key c.lru_list ≡ 0
    → IsTidy (update_lru key (record c { active_experts = es }))
unfolding update_lru
place_new key es c t occ len gone =
    let idle : erase_lru key c.lru_list ≡ c.lru_list = (length-erase_lru key c.lru_list).0 gone in
    let moved : (j : ExpertKey)
        → occurrences j (erase_lru key c.lru_list ++ key ∷ [])
          ≡ occurrences j c.lru_list + one_if key j =
      λ j.
        ap (λ l. occurrences j (l ++ key ∷ [])) idle
        ∙ omega (arith, occurrences-append j c.lru_list (key ∷ [])) in
    let size : length (erase_lru key c.lru_list ++ key ∷ []) ≡ suc (length c.lru_list) =
      ap (λ l. length (l ++ key ∷ [])) idle ∙ omega (arith, length-append c.lru_list (key ∷ [])) in
    record {
      same = λ j. omega (arith, occ j, moved j, t.same j);
      once = λ j. elim (Bool-cases (key_eq key j)) [
        | inl same ↦
            let e : key ≡ j = (key_eq_iff key j).0 same in
            omega
              (arith, moved j, one_if-true key j same, ap (λ k. occurrences k c.lru_list) e, gone)
        | inr other ↦ omega (arith, moved j, one_if-false key j other, t.once j)
      ];
      size = omega (arith, len, size, t.size);
    }

-- Writing an entry and moving its key to the end of the list.
pub place-IsTidy :
    (key : ExpertKey) (buf : ExpertTensorBuffer) (c : HerdCache)
    → IsTidy c
    → IsTidy (update_lru key (record c { active_experts = put_active key buf c.active_experts }))
place-IsTidy key buf c t = elim (find_active-cases key c.active_experts) [
  | inr (b, found, has) ↦
      let (occ, len) = put_active-old key buf c.active_experts has in
      update_lru-IsTidy key (record c { active_experts = put_active key buf c.active_experts })
        (omega (arith, t.same key))
        (record { same = λ j. occ j ∙ t.same j; once = t.once; size = len ∙ t.size })
  | inl (none_, z) ↦
      let (occ, len) = put_active-new key buf c.active_experts z in
      let gone : occurrences key c.lru_list ≡ 0 = omega (arith, t.same key) in
      place_new key (put_active key buf c.active_experts) c t occ len gone
]
