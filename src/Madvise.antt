-- ===== src/Madvise.antt =====
-- src/guanaco_steppeloader.cpp, madvise_range and page_align: every residency change of the loader
-- goes through madvise(), whose address has to be page aligned. The page size is 2 ^ page_bits (that
-- of sysconf is a power of two), so that `& ~(page - 1)` is a division. The kernel's answer is a
-- parameter; the calls are kept in a list, for what the kernel was told.
pub mod Range
use guanaco.Base.{
  ℕ, ◌+◌, ◌-◌, ◌*◌, ◌/◌, ◌^◌, Bool, Option, none, some, List, ◌∷◌, if◌then◌else◌, ◌==◌,
}
use guanaco.Base.{ℤ, pos, negsuc}
use guanaco.Base.Words.{add64, sub64, inc64}

pub data Advice : Type 0 where
  willneed dontneed free random normal : Advice

-- One madvise() call.
pub record Call : Type 0 where
  pub start : ℕ
  pub len : ℕ
  pub advice : Advice

-- The system calls that the loader makes: sysconf(_SC_PAGESIZE), and whether madvise() returns 0.
pub record Kernel : Type 0 where
  pub page_bits : ℕ
  pub accepts : Call → Bool

-- madvise_ops_, madvise_failures_, and the accepted calls, the newest first.
pub record AdviceLog : Type 0 where
  pub ops : ℕ
  pub failures : ℕ
  pub calls : List Call

module _ (k : Kernel) where
  abbrev pub page : ℕ
  page = 2 ^ k.page_bits

  -- n & ~(page - 1)
  unfoldable pub round_down : ℕ → ℕ
  round_down n = n / page * page

  -- (n + page - 1) & ~(page - 1)
  unfoldable pub round_up : ℕ → ℕ
  unfolding round_down
  round_up n = round_down (add64 n (page - 1))

  pub record_call : Call → AdviceLog → AdviceLog × ℤ
  record_call c log =
      if k.accepts c
      then (record log { ops = inc64 log.ops; calls = c ∷ log.calls }, pos 0)
      else (record log { failures = inc64 log.failures }, negsuc 0)

  -- The page-aligned call for the bytes [addr, addr + size).
  unfoldable pub range_call : ℕ → ℕ → Advice → Call
  range_call addr size advice = record {
    start = round_down addr;
    len = sub64 (round_up (add64 addr size)) (round_down addr);
    advice = advice;
  }

  unfoldable pub madvise_range : Option ℕ → ℕ → Advice → AdviceLog → AdviceLog × ℤ
  unfolding record_call
  madvise_range none size advice log = (log, pos 0)
  madvise_range (some addr) size advice log =
      if size == 0 then (log, pos 0) else record_call (range_call addr size advice) log
