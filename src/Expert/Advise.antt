-- ===== src/Expert/Advise.antt =====
-- src/guanaco_steppeloader.cpp, advise_experts_random: readahead advice for the mapped tensors. The
-- environment's GUANACO_EXPERT_ADVICE and the kernel's answer to posix_fadvise() are parameters; the
-- line on stderr is left out.
use Prim.Native.String.{String}
use text.Mathlib.Text.{◌==◌ as str_eq}
use guanaco.Base.{
  ℕ, suc, ◌||◌, not, Bool, false, Option, none, some, List, [], ◌∷◌, if◌then◌else◌, ◌==◌, length,
}
use guanaco.Madvise.{Kernel, Advice, AdviceLog, random, normal, madvise_range}
use guanaco.Expert.{ExpertTensor, Experts}

-- One posix_fadvise() call.
pub record Fadvise : Type 0 where
  pub offset : ℕ
  pub len : ℕ
  pub advice : Advice

-- env != nullptr && strcmp(env, "random") == 0
abbrev pub wants_random : Option String → Bool
wants_random none = false
wants_random (some env) = str_eq env "random"

abbrev pub expert_advice : Option String → Advice
expert_advice env = if wants_random env then random else normal

module _ {F : Type 0} where
  -- t.mmap_base == nullptr || t.byte_size == 0: skipped
  abbrev pub is_advisable : ExpertTensor F → Bool
  is_advisable t = elim t.mmap_base [ none ↦ false | some _ ↦ not (t.byte_size == 0) ]

  module _ (k : Kernel) (accepts : Fadvise → Bool) where
    abbrev pub fadvise_of : Advice → ExpertTensor F → Fadvise
    fadvise_of a t = record { offset = t.file_offset; len = t.byte_size; advice = a }

    -- The loop: the log of madvise() calls, and `advised`.
    unfoldable pub advise_all : Advice → List (ExpertTensor F) → AdviceLog → ℕ → AdviceLog × ℕ
    advise_all a [] log advised = (log, advised)
    advise_all a (t ∷ ts) log advised =
        if is_advisable t
        then advise_all a ts (madvise_range k t.mmap_base t.byte_size a log).0
            (if accepts (fadvise_of a t) then suc advised else advised)
        else advise_all a ts log advised

    unfoldable pub advise_experts_random : Option String → Experts F → Experts F × ℕ
    unfolding advise_all
    advise_experts_random env st =
        if not st.fd_open || length st.tensors == 0
        then (st, 0)
        else (let (log, advised) = advise_all (expert_advice env) st.tensors st.ledger.advice 0 in
            (record st { ledger = record st.ledger { advice = log } }, advised))
