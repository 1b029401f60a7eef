-- ===== src/Dense/Resident.antt =====
-- src/guanaco_steppeloader.cpp, resolve_dense_budget_auto and fill_resident_layers: the prefix of the
-- layers that stays resident.
pub mod Greedy
use guanaco.Base.{
  ℕ, zero, suc, ◌+◌, ◌/◌, ◌-◌, Bool, true, false, ◌&&◌, ◌||◌, not, Option, none, some, List, [],
  ◌∷◌, if◌then◌else◌, ltb, leb, ◌==◌, min, length,
}
use guanaco.Base.Words.{add64}
use guanaco.Uring.{Liburing}
use guanaco.Expert.{Experts}
use guanaco.Dense.{StreamTensor, Os, Pager, Loader, layer_bytes}
use guanaco.Dense.Slabs.{allocate_stream_slabs}
use guanaco.Dense.Layer.{prefetch_layer}

-- The layers taken: `w` so far, with `used` bytes; `left` layers are to come.
unfoldable pub walk : ℕ → List (ℕ × List StreamTensor) → ℕ → ℕ → ℕ → ℕ
walk budget layers zero w used = w
walk budget layers (suc left) w used =
    elim (ltb 0 budget && ltb 0 w && ltb budget (add64 used (layer_bytes layers w))) [
      | true ↦ w
      | false ↦ walk budget layers left (suc w) (add64 used (layer_bytes layers w))
    ]

-- Between 1 and the number of layers.
unfoldable pub resident_prefix : ℕ → List (ℕ × List StreamTensor) → ℕ → ℕ
unfolding walk
resident_prefix budget layers n =
    min (let w = walk budget layers n 0 0 in if ltb w 1 then 1 else w) n

-- The bytes of `n` layers from `l` on.
unfoldable pub bytes_from : List (ℕ × List StreamTensor) → ℕ → ℕ → ℕ
bytes_from layers l zero = 0
bytes_from layers l (suc n) = add64 (layer_bytes layers l) (bytes_from layers (l + 1) n)

-- A model over the budget is paged through the file mapping.
unfoldable pub choose_backing : {R : Type 0} → Pager R → Pager R
choose_backing p =
    if p.use_slab && ltb 0 p.config_budget && ltb p.config_budget p.stream_total_bytes
    then record p { use_slab = false }
    else p

-- enabled_ && !expert_tensors_.empty()
unfoldable pub is_hybrid : {F : Type 0} → Experts F → Bool
is_hybrid st = st.enabled && not (length st.tensors == 0)

-- The experts' share and the pager's, of the budget; none where the experts' share is left alone.
unfoldable pub split_budget : {F : Type 0} → Experts F → ℕ → Option ℕ × ℕ
unfolding is_hybrid
split_budget st budget =
    if is_hybrid st && ltb 0 budget
    then (some (budget / 2), budget - budget / 2)
    else (none, budget)

module _ {R : Type 0} (os : Os) where
  unfoldable pub prefetch_from : Liburing R → ℕ → ℕ → Pager R → Pager R
  prefetch_from lib l zero p = p
  prefetch_from lib l (suc n) p = prefetch_from lib (l + 1) n (prefetch_layer os lib l p)

module _ {F R : Type 0} (os : Os) where
  unfoldable pub resolve_dense_budget_auto : Loader F R → Loader F R
  resolve_dense_budget_auto ld =
      let p = ld.pager in
      let budget = os.ram_fraction os.available_ram in
      if not p.budget_auto
        || not (p.config_budget == 0)
        || not (length ld.experts.tensors == 0)
        || os.available_ram == 0
        || leb p.stream_total_bytes budget
      then ld
      else record ld { pager = record p { config_budget = budget; dense_budget_bytes = budget } }

  unfoldable pub fill : Liburing R → Loader F R → Loader F R
  unfolding choose_backing split_budget resident_prefix bytes_from prefetch_from
  fill lib ld =
      let p = allocate_stream_slabs os (choose_backing ld.pager) in
      let (expert_share, pager_budget) = split_budget ld.experts p.dense_budget_bytes in
      let w = resident_prefix pager_budget p.stream_layers p.stream_n_layers in
      let chosen = record p {
        stream_resident_layers = w;
        stream_resident_bytes = bytes_from p.stream_layers 0 w;
      } in
      record ld {
        experts = record ld.experts {
          expert_budget_bytes = elim expert_share [
            | none ↦ ld.experts.expert_budget_bytes
            | some share ↦ share
          ];
        };
        pager = prefetch_from os lib 0 w chosen;
      }

  unfoldable pub fill_resident_layers : Liburing R → Loader F R → Loader F R
  unfolding resolve_dense_budget_auto fill
  fill_resident_layers lib ld =
      let resolved = resolve_dense_budget_auto ld in
      if not resolved.pager.dense_enabled || length resolved.pager.stream_layers == 0
      then resolved
      else fill lib resolved
