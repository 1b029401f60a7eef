-- ===== src/Expert/Routing.antt =====
-- src/guanaco_steppeloader.cpp, record_routing: hit counts and the transitions from the layer that
-- fired before, and the cadence of pinning. A null pointer or n <= 0 is the empty list. The log lines
-- are left out.
pub mod Quiet
use guanaco.Base.{
  ℕ, zero, suc, ◌+◌, ◌*◌, ◌%◌, Bool, true, false, ◌&&◌, ◌||◌, not, Option, none, some, List, [],
  ◌∷◌, if◌then◌else◌, ltb, leb, ◌==◌, ℤ, pos, negsuc, ◌==ℤ◌, ltb_ℤ, index_of, get_or, set, map,
}
use guanaco.Base.Words.{inc64}
use guanaco.Madvise.{Kernel}
use guanaco.Expert.{Floats, ExpertTensor, Config, Ledger, Experts}
use guanaco.Expert.Slices.{bump}
use guanaco.Expert.Pin.{maybe_pin_hot_experts}

-- kWarmupLayers_, kLogEveryLayers_
abbrev pub warmup_layers : ℕ
warmup_layers = 200

abbrev pub log_every_layers : ℕ
log_every_layers = 400

-- for (from : pilot_from_ids_) ++trans[from * E + to]
unfoldable pub learn_to : ℕ → ℕ → List ℤ → List ℕ → List ℕ
unfolding bump
learn_to e to [] trans = trans
learn_to e to (z ∷ zs) trans = elim (index_of z e) [
  | none ↦ learn_to e to zs trans
  | some from ↦ learn_to e to zs (bump trans (from * e + to))
]

-- for (to : expert_ids) …
unfoldable pub learn : ℕ → List ℤ → List ℤ → List ℕ → List ℕ
unfolding learn_to
learn e froms [] trans = trans
learn e froms (z ∷ zs) trans = elim (index_of z e) [
  | none ↦ learn e froms zs trans
  | some to ↦ learn e froms zs (learn_to e to froms trans)
]

module _ {F : Type 0} (fl : Floats F) where
  -- ++total_hits[id]; window_hits[id] = window_hits[id] * kHitDecay_ + 1.0f
  unfoldable pub hit : ExpertTensor F → ℕ → ExpertTensor F
  unfolding bump
  hit t id = record t {
    total_hits = bump t.total_hits id;
    window_hits =
        set t.window_hits id
          (fl.add_f (fl.mul_f (get_or t.window_hits id fl.zero_f) fl.hit_decay) fl.one);
  }

  unfoldable pub hit_all : List ℤ → ExpertTensor F → ExpertTensor F
  unfolding hit
  hit_all [] t = t
  hit_all (z ∷ zs) t = elim (index_of z t.num_experts) [
    | none ↦ hit_all zs t
    | some id ↦ hit_all zs (hit t id)
  ]

  -- t.layer != layer || t.num_experts <= 0: skipped
  abbrev pub routed : ℤ → ExpertTensor F → Bool
  routed layer t = t.layer ==ℤ layer && not (t.num_experts == 0)

  unfoldable pub learn_tensor : ℤ → List ℤ → List ℤ → ExpertTensor F → ExpertTensor F
  unfolding learn
  learn_tensor layer froms ids t =
      if routed layer t then (record t { trans = learn t.num_experts froms ids t.trans }) else t

  unfoldable pub hit_tensor : ℤ → List ℤ → ExpertTensor F → ExpertTensor F
  unfolding hit_all
  hit_tensor layer ids t = if routed layer t then hit_all ids t else t

  -- pilot_from_layer_ >= 0 && layer > pilot_from_layer_ && !pilot_from_ids_.empty()
  abbrev pub follows : Experts F → ℤ → Bool
  follows st layer =
      not (ltb_ℤ st.pilot_from_layer (pos 0))
      && ltb_ℤ st.pilot_from_layer layer
      && elim st.pilot_from_ids [ [] ↦ false | _ ∷ _ ↦ true ]

  unfoldable pub count_routing : Experts F → ℤ → List ℤ → Experts F
  unfolding learn_tensor hit_tensor
  count_routing st layer ids = record st {
    tensors = map (hit_tensor layer ids) (
        if follows st layer
        then map (learn_tensor layer st.pilot_from_ids ids) st.tensors
        else st.tensors);
    pilot_from_layer = layer;
    pilot_from_ids = ids;
    routing_records = inc64 st.routing_records;
  }

  -- The pass of pinning that the cadence asks for.
  unfoldable pub pin_due : ℕ → Bool
  pin_due n = n == warmup_layers || (ltb warmup_layers n && n % log_every_layers == 0)

  unfoldable pub record_routing : Kernel → Experts F → ℤ → List ℤ → Experts F
  unfolding count_routing pin_due
  record_routing k st layer [] = st
  record_routing k st layer (z ∷ zs) =
      if not st.enabled
      then st
      else let counted = count_routing st layer (z ∷ zs) in
        if pin_due counted.routing_records then maybe_pin_hot_experts k fl counted else counted
