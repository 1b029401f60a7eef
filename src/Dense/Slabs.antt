-- ===== src/Dense/Slabs.antt =====
-- src/guanaco_steppeloader.cpp: registering the dense pager's tensors and giving them slabs.
use Prim.Native.String.{String}
use text.Mathlib.Text.{◌==◌ as str_eq}
use guanaco.Base.{
  ℕ, ◌+◌, Bool, false, ◌||◌, not, Option, none, some, List, [], ◌∷◌, if◌then◌else◌, ltb, ◌==◌, ℤ,
  pos, negsuc,
}
use guanaco.Base.Words.{add64}
use guanaco.Madvise.{round_up}
use guanaco.Expert.{Experts}
use guanaco.Expert.Slices.{find_tensor}
use guanaco.Dense.{StreamTensor, Os, Pager, Loader, find_layer, has_tensor, add_tensor, grow}

-- The layer has a tensor of this name.
abbrev pub is_known : String → Option (List StreamTensor) → Bool
is_known name none = false
is_known name (some ts) = has_tensor name ts

-- enabled_ && expert_tensors_.count(name)
unfoldable pub owned_by_experts : {F : Type 0} → String → Experts F → Bool
unfolding find_tensor
owned_by_experts name st = elim (find_tensor name st.tensors) [ none ↦ false | some _ ↦ st.enabled ]

-- The name's slab, in the order of the iteration.
unfoldable pub slab_in : String → List StreamTensor → Option (Option ℕ)
slab_in name [] = none
slab_in name (t ∷ ts) = if str_eq t.name name then some t.slab else slab_in name ts

unfoldable pub slab_among : String → List (ℕ × List StreamTensor) → Option ℕ
unfolding slab_in
slab_among name [] = none
slab_among name ((l, ts) ∷ rest) = elim (slab_in name ts) [
  | none ↦ slab_among name rest
  | some s ↦ s
]

module _ {R : Type 0} where
  -- The tensor joins its layer.
  unfoldable pub push_tensor : Pager R → StreamTensor → Pager R
  push_tensor p t =
      let pushed = record p {
        stream_layers = add_tensor t p.stream_layers;
        stream_total_bytes = add64 p.stream_total_bytes t.byte_size;
      } in
      if ltb p.stream_n_layers (t.layer + 1)
      then record pushed {
        stream_n_layers = t.layer + 1;
        layer_resident = grow (t.layer + 1) p.layer_resident;
      }
      else pushed

  -- `already`: the expert path owns the tensor.
  unfoldable pub register_stream : Pager R → Bool → String → ℤ → ℕ → ℕ → Option ℕ → Pager R
  unfolding push_tensor
  register_stream p already name (negsuc n) file_offset byte_size mmap_base = p
  register_stream p already name (pos layer) file_offset byte_size mmap_base =
      if not p.dense_enabled
        || not p.fd_open
        || byte_size == 0
        || already
        || is_known name (find_layer layer p.stream_layers)
      then p
      else push_tensor p (record {
        name = name;
        layer = layer;
        file_offset = file_offset;
        byte_size = byte_size;
        mmap_base = mmap_base;
        slab = none;
        slab_len = 0;
      })

  unfoldable pub register_stream_tensor :
      {F : Type 0} → Loader F R → String → ℤ → ℕ → ℕ → Option ℕ → Loader F R
  unfolding register_stream find_tensor
  register_stream_tensor ld name layer file_offset byte_size mmap_base = record ld {
    pager =
        register_stream ld.pager (owned_by_experts name ld.experts) name layer file_offset byte_size
          mmap_base;
  }

  unfoldable pub get_stream_tensor_data : Pager R → String → Option ℕ
  unfolding slab_among
  get_stream_tensor_data p name = slab_among name p.stream_layers

  module _ (os : Os) where
    unfoldable pub alloc_slab : ℕ → Pager R → Pager R × Option ℕ
    alloc_slab byte_size p =
        let len = round_up os.kernel (if byte_size == 0 then 1 else byte_size) in
        let mapped = record p { mmaps = p.mmaps + 1 } in
        elim (os.anon p.mmaps len) [
          | none ↦ (record mapped { lock_fails = p.lock_fails + 1 }, none)
          | some addr ↦ (mapped, some addr)
        ]

    unfoldable pub give_slab : StreamTensor → Pager R → StreamTensor × Pager R
    unfolding alloc_slab
    give_slab t p = elim t.slab [
      | some s ↦ (t, p)
      | none ↦
          if t.byte_size == 0
          then (t, p)
          else (let (p', got) = alloc_slab t.byte_size p in
              (
                record t {
                  slab = got;
                  slab_len = elim got [ none ↦ 0 | some a ↦ round_up os.kernel t.byte_size ];
                },
                p',
              ))
    ]

    unfoldable pub give_slabs : List StreamTensor → Pager R → List StreamTensor × Pager R
    unfolding give_slab
    give_slabs [] p = ([], p)
    give_slabs (t ∷ ts) p =
        let (t', p') = give_slab t p in let (ts', p'') = give_slabs ts p' in (t' ∷ ts', p'')

    unfoldable pub give_layers :
        List (ℕ × List StreamTensor) → Pager R → List (ℕ × List StreamTensor) × Pager R
    unfolding give_slabs
    give_layers [] p = ([], p)
    give_layers ((l, ts) ∷ rest) p =
        let (ts', p') = give_slabs ts p in
        let (rest', p'') = give_layers rest p' in ((l, ts') ∷ rest', p'')

    unfoldable pub allocate_stream_slabs : Pager R → Pager R
    unfolding give_layers
    allocate_stream_slabs p =
        if p.use_slab
        then (let (layers, p') = give_layers p.stream_layers p in
            record p' { stream_layers = layers })
        else p
