-- ===== src/Expert/Imatrix/Account.antt =====
-- src/guanaco_steppeloader.cpp, load_imatrix_prior: sizes and residency while counts are seeded.
use Prim.Native.String.{String}
use text.Mathlib.Text.{◌==◌ as str_eq}
use guanaco.Base.{
  ℕ, zero, suc, ◌≡◌, refl, sym, ◌∙◌, inl, inr, List, [], ◌∷◌, arith, length, All, ℤ, pos, negsuc,
  Bool-cases, ◌==◌, length-set,
}
use guanaco.Base.Words.{inc64}
use guanaco.Expert.{ExpertTensor, Ledger}
use guanaco.Expert.Books.{IsSized, IsBooked, held, total}
use guanaco.Expert.Imatrix.{seed_counts, seed_entry, seed_entries}

length-seed_counts :
    (ex left : ℕ) (counts : List ℤ) (totals : List ℕ) (seeded : ℕ)
    → length (seed_counts ex left counts (totals, seeded)).0 ≡ length totals
unfolding seed_counts
length-seed_counts ex zero counts totals seeded = refl
length-seed_counts ex (suc left) [] totals seeded = refl
length-seed_counts ex (suc left) (negsuc c ∷ counts) totals seeded =
    length-seed_counts (suc ex) left counts totals seeded
length-seed_counts ex (suc left) (pos c ∷ counts) totals seeded = elim (Bool-cases (c == 0)) [
  | inl none_ ↦ rw (none_, seed_counts) (length-seed_counts (suc ex) left counts totals seeded)
  | inr some_ ↦
      rw (some_, seed_counts)
        (length-seed_counts (suc ex) left counts _ (inc64 seeded) ∙ length-set totals ex _)
]

module _ {F : Type 0} where
  seed_entry-keeps :
      (name : String) (counts : List ℤ) (ts : List (ExpertTensor F)) (seeded : ℕ)
      → (total held (seed_entry name counts ts seeded).0 ≡ total held ts)
        × (total (λ t. t.byte_size) (seed_entry name counts ts seeded).0
            ≡ total (λ t. t.byte_size) ts)
        × (All IsSized ts → All IsSized (seed_entry name counts ts seeded).0)
  unfolding seed_entry total
  seed_entry-keeps name counts [] seeded = (refl, refl, λ z. z)
  seed_entry-keeps name counts (t ∷ ts) seeded = elim (Bool-cases (str_eq t.name name)) [
    | inl here ↦
        rw (here, seed_entry)
          (
            refl,
            refl,
            λ z. (
              record {
                loaded = z.0.loaded;
                total_hits =
                    length-seed_counts 0 t.num_experts counts t.total_hits seeded ∙ z.0.total_hits;
                window_hits = z.0.window_hits;
                pinned = z.0.pinned;
                last_used = z.0.last_used;
                trans = z.0.trans;
                slices = z.0.slices;
              },
              z.1,
            ),
          )
    | inr other ↦
        let (a, b, c) = seed_entry-keeps name counts ts seeded in
        rw (other, seed_entry) (omega (arith, a), omega (arith, b), λ z. (z.0, c z.1))
  ]

  pub seed_entries-IsBooked :
      {slack : ℕ} (es : List (String × List ℤ)) (ts : List (ExpertTensor F)) (seeded : ℕ)
      (s : Ledger)
      → IsBooked slack ts s
      → IsBooked slack (seed_entries es ts seeded).0 s
  unfolding seed_entries
  seed_entries-IsBooked [] ts seeded s b = b
  seed_entries-IsBooked ((name, counts) ∷ es) ts seeded s b =
      let (same, bytes, sized) = seed_entry-keeps name counts ts seeded in
      seed_entries-IsBooked es (seed_entry name counts ts seeded).0
        (seed_entry name counts ts seeded).1 s
        (record {
          sized = sized b.sized;
          books = b.books ∙ sym same;
          fits = omega (arith, b.fits, bytes);
        })
