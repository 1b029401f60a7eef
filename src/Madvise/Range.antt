-- ===== src/Madvise/Range.antt =====
-- The range that madvise_range hands to the kernel.
use native.Mathlib.Nat.{div-add-mod', mod-lt, one-le-pow, mul-mod_left}
use guanaco.Base.{ℕ, ◌+◌, ◌-◌, ◌/◌, ◌%◌, ◌≤◌, ◌<◌, ◌≡◌, refl, ap, some, arith, ◌∷◌, true}
use guanaco.Base.Words.{sub64, add64_small, sub64_small, u64_mod}
use guanaco.Madvise.{
  Kernel, Advice, AdviceLog, page, round_down, round_up, range_call, madvise_range,
}

module _ (k : Kernel) where
  page_pos : 0 < page k
  page_pos = one-le-pow k.page_bits 2 (omega arith)

  round_down_bounds :
      (n : ℕ) → (round_down k n ≤ n) × (n < round_down k n + page k) × (round_down k n % page k ≡ 0)
  unfolding round_down
  round_down_bounds n =
      let split = div-add-mod' n (page k) in
      let small = mod-lt n page_pos in
      (omega arith, omega arith, mul-mod_left (n / page k) (page k))

  round_up_bounds :
      (n : ℕ) → n + page k < u64_mod → (n ≤ round_up k n) × (round_up k n < n + page k)
  unfolding round_up
  round_up_bounds n h =
      let step = add64_small n (page k - 1) (omega arith) in
      let low = round_down_bounds (n + (page k - 1)) in rw step (omega (arith, page_pos))

  -- Where nothing wraps and the kernel accepts the call, madvise_range makes exactly one call,
  -- whose address is page aligned, and whose range holds all the bytes asked for and less than a
  -- page more on either side.
  pub madvise_range_covers :
      (addr size : ℕ) (advice : Advice) (log : AdviceLog)
      → 0 < size
      → addr + size + page k < u64_mod
      → k.accepts (range_call k addr size advice) ≡ true
      → let c = range_call k addr size advice in
        ((madvise_range k (some addr) size advice log).0.calls ≡ c ∷ log.calls)
        × (c.advice ≡ advice)
        × (c.start % page k ≡ 0)
        × (c.start ≤ addr)
        × (addr < c.start + page k)
        × (addr + size ≤ c.start + c.len)
        × (c.start + c.len < addr + size + page k)
  unfolding madvise_range range_call
  madvise_range_covers addr size advice log some_bytes fits accepted =
      let low = round_down_bounds addr in
      let sum = add64_small addr size (omega (arith, page_pos)) in
      let high = round_up_bounds (addr + size) fits in
      let len =
        sub64_small (round_up k (addr + size)) (round_down k addr) (omega arith) (omega arith) in
      (
        ground arith,
        refl,
        low.2,
        low.0,
        low.1,
        omega (arith, ap (λ n. sub64 (round_up k n) (round_down k addr)) sum),
        omega (arith, ap (λ n. sub64 (round_up k n) (round_down k addr)) sum),
      )
