-- ===== src/Expert/Routing/Quiet.antt =====
-- Counting a routing decision leaves sizes and residency alone.
use guanaco.Base.{
  ℕ, ◌+◌, ◌*◌, ◌≡◌, refl, ◌∙◌, inl, inr, List, [], ◌∷◌, length, ℤ, index_of, Bool-cases,
  Option-cases, length-set,
}
use guanaco.Expert.{Floats, ExpertTensor}
use guanaco.Expert.Books.{Quiet}
use guanaco.Expert.Slices.{bump}
use guanaco.Expert.Routing.{learn, learn_to, hit, hit_all, learn_tensor, hit_tensor, routed}

-- Learning and counting keep the sizes of the vectors.
length-bump : (v : List ℕ) (i : ℕ) → length (bump v i) ≡ length v
unfolding bump
length-bump v i = length-set v i _

length-learn_to :
    (e to : ℕ) (zs : List ℤ) (trans : List ℕ) → length (learn_to e to zs trans) ≡ length trans
unfolding learn_to
length-learn_to e to [] trans = refl
length-learn_to e to (z ∷ zs) trans = elim (Option-cases (index_of z e)) [
  | inl out ↦ rw (out, learn_to) (length-learn_to e to zs trans)
  | inr (from, here) ↦
      rw (here, learn_to)
        (length-learn_to e to zs (bump trans (from * e + to)) ∙ length-bump trans (from * e + to))
]

length-learn :
    (e : ℕ) (froms zs : List ℤ) (trans : List ℕ) → length (learn e froms zs trans) ≡ length trans
unfolding learn
length-learn e froms [] trans = refl
length-learn e froms (z ∷ zs) trans = elim (Option-cases (index_of z e)) [
  | inl out ↦ rw (out, learn) (length-learn e froms zs trans)
  | inr (to, here) ↦
      rw (here, learn)
        (length-learn e froms zs (learn_to e to froms trans) ∙ length-learn_to e to froms trans)
]

module _ {F : Type 0} (fl : Floats F) where
  Quiet-refl : (t : ExpertTensor F) → Quiet t t
  Quiet-refl t = record { sized = λ z. z; held_same = refl; bytes_same = refl }

  Quiet-trans : (a b c : ExpertTensor F) → Quiet a b → Quiet b c → Quiet a c
  Quiet-trans a b c h g = record {
    sized = λ z. g.sized (h.sized z);
    held_same = g.held_same ∙ h.held_same;
    bytes_same = g.bytes_same ∙ h.bytes_same;
  }

  hit-Quiet : (t : ExpertTensor F) (id : ℕ) → Quiet t (hit fl t id)
  unfolding hit
  hit-Quiet t id = record {
    sized = λ z. record {
      loaded = z.loaded;
      total_hits = length-bump t.total_hits id ∙ z.total_hits;
      window_hits = length-set t.window_hits id _ ∙ z.window_hits;
      pinned = z.pinned;
      last_used = z.last_used;
      trans = z.trans;
      slices = z.slices;
    };
    held_same = refl;
    bytes_same = refl;
  }

  hit_all-Quiet : (zs : List ℤ) (t : ExpertTensor F) → Quiet t (hit_all fl zs t)
  unfolding hit_all
  hit_all-Quiet [] t = Quiet-refl t
  hit_all-Quiet (z ∷ zs) t = elim (Option-cases (index_of z t.num_experts)) [
    | inl out ↦ rw (out, hit_all) (hit_all-Quiet zs t)
    | inr (id, here) ↦
        rw (here, hit_all)
          (Quiet-trans t (hit fl t id) (hit_all fl zs (hit fl t id)) (hit-Quiet t id)
            (hit_all-Quiet zs (hit fl t id)))
  ]

  pub hit_tensor-Quiet :
      (layer : ℤ) (ids : List ℤ) (t : ExpertTensor F) → Quiet t (hit_tensor fl layer ids t)
  unfolding hit_tensor
  hit_tensor-Quiet layer ids t = elim (Bool-cases (routed fl layer t)) [
    | inl here ↦ rw (here, hit_tensor) (hit_all-Quiet ids t)
    | inr other ↦ rw (other, hit_tensor) (Quiet-refl t)
  ]

  pub learn_tensor-Quiet :
      (layer : ℤ) (froms ids : List ℤ) (t : ExpertTensor F)
      → Quiet t (learn_tensor fl layer froms ids t)
  unfolding learn_tensor
  learn_tensor-Quiet layer froms ids t = elim (Bool-cases (routed fl layer t)) [
    | inl here ↦
        rw (here, learn_tensor)
          (record {
            sized = λ z. record {
              loaded = z.loaded;
              total_hits = z.total_hits;
              window_hits = z.window_hits;
              pinned = z.pinned;
              last_used = z.last_used;
              trans = length-learn t.num_experts froms ids t.trans ∙ z.trans;
              slices = z.slices;
            };
            held_same = refl;
            bytes_same = refl;
          })
    | inr other ↦ rw (other, learn_tensor) (Quiet-refl t)
  ]
