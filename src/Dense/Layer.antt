-- ===== src/Dense/Layer.antt =====
-- src/guanaco_steppeloader.cpp: making a layer of the dense pager resident, and evicting it.
pub mod Core
pub mod Gone
use Prim.Native.String.{String}
use text.Mathlib.Text.{◌==◌ as str_eq}
use guanaco.Base.{
  ℕ, zero, suc, ◌+◌, ◌-◌, ◌*◌, ◌^◌, Bool, true, false, ◌&&◌, ◌||◌, not, Option, none, some, List,
  [], ◌∷◌, if◌then◌else◌, ltb, leb, ◌==◌, ℤ, pos, negsuc, get_or, set, replicate, length, ◌++◌,
}
use guanaco.Base.Words.{add64, mul64}
use guanaco.Madvise.{Kernel, AdviceLog, Advice, free, dontneed, willneed, round_up, madvise_range}
use guanaco.Uring.{IoUringSlab, IoUringSlice, Liburing, io_uring_slab_read}
use guanaco.Expert.{Experts}
use guanaco.Expert.Slices.{find_tensor}
use guanaco.Dense.{
  StreamTensor, DenseEvictMode, auto_mode, free_mode, dontneed_mode, Os, Pager, Loader, find_layer,
  sum_bytes, layer_bytes, has_tensor, add_tensor, grow,
}

-- layer < layer_resident_.size() && layer_resident_[layer]
abbrev pub is_resident : {R : Type 0} → Pager R → ℕ → Bool
is_resident p layer = get_or p.layer_resident layer false

-- if (layer < layer_resident_.size()) layer_resident_[layer] = b
abbrev pub mark : {R : Type 0} → Bool → ℕ → Pager R → Pager R
mark b layer p = record p { layer_resident = set p.layer_resident layer b }

-- The ranges that fadvise_drop gives back, before those of `before`.
abbrev pub drops : List StreamTensor → List (ℕ × ℕ) → List (ℕ × ℕ)
drops [] before = before
drops (t ∷ ts) before =
    drops ts (if t.byte_size == 0 then before else (t.file_offset, t.byte_size) ∷ before)

-- want_bytes
abbrev pub want_bytes : List StreamTensor → ℕ
want_bytes [] = 0
want_bytes (t ∷ ts) = elim t.slab [
  | none ↦ want_bytes ts
  | some a ↦ if t.byte_size == 0 then want_bytes ts else add64 t.byte_size (want_bytes ts)
]

-- The slices of a layer that io_uring can read: no length over UINT32_MAX.
unfoldable pub slices_of : List StreamTensor → List IoUringSlice
slices_of [] = []
slices_of (t ∷ ts) = elim t.slab [
  | none ↦ slices_of ts
  | some a ↦
      if t.byte_size == 0 || ltb (2 ^ 32 - 1) t.byte_size
      then slices_of ts
      else record { dst = a; len = t.byte_size; offset = t.file_offset } ∷ slices_of ts
]

-- while (done < byte_size): the bytes read. Every pread() that goes on reads one byte at least, so
-- the bytes left are fuel enough.
unfoldable pub pread_loop : Os → ℕ → ℕ → ℕ → ℕ → ℕ
pread_loop os zero offset size done = done
pread_loop os (suc fuel) offset size done =
    if ltb done size
    then elim (os.pread (offset + done) (size - done)) [
      | none ↦ done
      | some zero ↦ done
      | some (suc r) ↦ pread_loop os fuel offset size (done + suc r)
    ]
    else done

-- cur * 10 >= max * 9, where the cgroup has a limit
unfoldable pub cgroup_near_limit : Os → Bool
cgroup_near_limit os = elim os.cgroup [
  | none ↦ false
  | some (cur, max) ↦ not (max == 0) && leb (mul64 max 9) (mul64 cur 10)
]

unfoldable pub dense_evict_advice : Os → Advice
unfolding cgroup_near_limit
dense_evict_advice os = elim os.evict_mode [
  | free_mode ↦ free
  | dontneed_mode ↦ dontneed
  | auto_mode ↦ if cgroup_near_limit os then dontneed else free
]

module _ {R : Type 0} where
  unfoldable pub fadvise_drop : List StreamTensor → Bool → Pager R → Pager R
  fadvise_drop ts slab_backed p =
      if slab_backed then record p { dropped = drops ts p.dropped } else p

  module _ (os : Os) where
    -- madvise_range(t.mmap_base, t.byte_size, advice), where there is a mapping
    abbrev pub advise_mapping : Advice → StreamTensor → Pager R → Pager R
    advise_mapping advice t p = elim t.mmap_base [
      | none ↦ p
      | some base ↦ record p {
        advice = (madvise_range os.kernel (some base) t.byte_size advice p.advice).0;
      }
    ]

    unfoldable pub pread_tensor : StreamTensor → Pager R → Pager R
    unfolding pread_loop
    pread_tensor t p = elim t.slab [
      | none ↦ advise_mapping willneed t p
      | some a ↦ if t.byte_size == 0 then advise_mapping willneed t p else record p {
        preads = (t.file_offset, pread_loop os t.byte_size t.file_offset t.byte_size 0) ∷ p.preads;
      }
    ]

    unfoldable pub pread_tensors : List StreamTensor → Pager R → Pager R
    unfolding pread_tensor
    pread_tensors [] p = p
    pread_tensors (t ∷ ts) p = pread_tensors ts (pread_tensor t p)

    -- The layer has been read.
    unfoldable pub settle : ℕ → List StreamTensor → Pager R → Pager R
    unfolding fadvise_drop
    settle layer ts p =
        let dropped = fadvise_drop ts p.use_slab (mark true layer p) in
        record dropped { io_bytes = add64 p.io_bytes (want_bytes ts) }

    unfoldable pub pread_layer : ℕ → List StreamTensor → Pager R → Pager R
    unfolding pread_tensors settle
    pread_layer layer ts p =
        settle layer ts (pread_tensors ts (record p { pread_ops = p.pread_ops + 1 }))

    module _ (lib : Liburing R) where
      unfoldable pub uring_layer : ℕ → List StreamTensor → IoUringSlab R → Pager R → Pager R
      unfolding settle pread_layer slices_of io_uring_slab_read
      uring_layer layer ts u p =
          let (u', ok) = io_uring_slab_read lib (slices_of ts) u in
          let tried = record p { uring = some u' } in
          if ok
          then settle layer ts (record tried { uring_ops = p.uring_ops + 1 })
          else pread_layer layer ts tried

      unfoldable pub read_layer : ℕ → List StreamTensor → Pager R → Pager R
      unfolding uring_layer pread_layer
      read_layer layer ts p = elim p.uring [
        | none ↦ pread_layer layer ts p
        | some u ↦ if p.use_slab then uring_layer layer ts u p else pread_layer layer ts p
      ]

      unfoldable pub prefetch_layer : ℕ → Pager R → Pager R
      unfolding read_layer
      prefetch_layer layer p = elim (find_layer layer p.stream_layers) [
        | none ↦ p
        | some ts ↦
            if is_resident p layer
            then p
            else read_layer layer ts (record p { prefetch_ops = p.prefetch_ops + 1 })
      ]

    unfoldable pub evict_tensor : StreamTensor → Pager R → Pager R
    unfolding dense_evict_advice
    evict_tensor t p = elim t.slab [
      | none ↦ advise_mapping dontneed t p
      | some a ↦ if t.slab_len == 0 then advise_mapping dontneed t p else record p {
        advice = (madvise_range os.kernel (some a) t.slab_len (dense_evict_advice os) p.advice).0;
      }
    ]

    unfoldable pub evict_tensors : List StreamTensor → Pager R → Pager R
    unfolding evict_tensor
    evict_tensors [] p = p
    evict_tensors (t ∷ ts) p = evict_tensors ts (evict_tensor t p)

    unfoldable pub evict_layer : ℕ → Pager R → Pager R
    unfolding evict_tensors
    evict_layer layer p = elim (find_layer layer p.stream_layers) [
      | none ↦ p
      | some ts ↦
          if ltb layer (length p.layer_resident) && not (is_resident p layer)
          then p
          else mark false layer (evict_tensors ts (record p { evict_ops = p.evict_ops + 1 }))
    ]
