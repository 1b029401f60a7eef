-- ===== src/Expert/Ceiling/Steps.antt =====
-- The rounds of the ceiling's loop.
use guanaco.Base.{
  ℕ, ◌≤◌, ◌≡◌, refl, inl, inr, true, false, some, List, [], ◌∷◌, arith, get_elem?, set, Bool-cases,
  Option-cases, leb, leb→le,
}
use guanaco.Madvise.{Kernel}
use guanaco.Expert.{ExpertTensor, Ledger, is_loaded, unload}
use guanaco.Expert.Ceiling.{Slice, drop_slice, drop_slices}

module _ {F : Type 0} (k : Kernel) where
  pub drop_slices-nil :
      (budget : ℕ) (ts : List (ExpertTensor F)) (s : Ledger)
      → drop_slices k budget [] ts s ≡ (ts, s)
  unfolding drop_slices
  drop_slices-nil budget ts s = refl

-- The slice at a place of the list is not loaded.
abbrev pub Gone : {F : Type 0} → List (ExpertTensor F) → Slice → Type 0
Gone {F} ts c = (t : ExpertTensor F) → get_elem? ts c.tensor ≡ some t → is_loaded t c.id ≡ false

module _ {F : Type 0} (k : Kernel) where
  -- A round stops under the budget, passes over a slice that is gone, or drops a slice.
  pub drop_slices-cases {ℓ} :
      (P : List (ExpertTensor F) × Ledger → Type ℓ) (budget : ℕ) (c : Slice) (cs : List Slice)
      (ts : List (ExpertTensor F)) (s : Ledger)
      → (s.expert_resident_bytes ≤ budget → P (ts, s))
      → (Gone ts c → P (drop_slices k budget cs ts s))
      → ((t : ExpertTensor F)
          → get_elem? ts c.tensor ≡ some t
          → is_loaded t c.id ≡ true
          → P (drop_slices k budget cs (set ts c.tensor (unload t c.id)) (drop_slice k t c.id s)))
      → P (drop_slices k budget (c ∷ cs) ts s)
  unfolding drop_slices
  drop_slices-cases P budget c cs ts s stop pass drop =
      elim (Bool-cases (leb s.expert_resident_bytes budget)) [
        | inl done ↦ rw (done, drop_slices) (stop (leb→le _ _ done))
        | inr over ↦ elim (Option-cases (get_elem? ts c.tensor)) [
          | inl missing ↦ rw (over, missing, drop_slices) (pass (λ t e. absurd (cc)))
          | inr (t, here) ↦ elim (Bool-cases (is_loaded t c.id)) [
            | inl held ↦ rw (over, here, held, drop_slices) (drop t here held)
            | inr gone ↦ rw (over, here, gone, drop_slices) (pass (λ u e. ground arith))
          ]
        ]
      ]
