-- ===== src/Storage/Shards/Growth.antt =====
-- src/guanaco_steppeloader.cpp, read_gguf_metadata_ctx: the rounds of its loop, and its result.
use guanaco.Base.{
  ℕ, suc, ◌*◌, ◌^◌, ◌≤◌, ◌≡◌, ◌⊎◌, inl, inr, true, not, Option, none, some, leb, arith, Bool-cases,
  Option-cases, if◌then◌else◌,
}
use guanaco.Storage.Shards.{ShardFile, grow_and_parse, max_cap, first_cap, read_gguf_metadata_ctx}

-- The context is that of a buffer that the file fills, no larger than max_cap, and the buffer holds the
-- whole metadata.
pub record IsWhole {G : Type 0} (data_offset : G → ℕ) (f : ShardFile G) (g : G) : Type 0 where
  pub cap : ℕ
  pub filled : f.fills cap ≡ true
  pub parsed : f.context cap ≡ some g
  pub covered : data_offset g ≤ cap
  pub small : cap ≤ max_cap
  pub large : first_cap ≤ cap

module _ {G : Type 0} (data_offset : G → ℕ) (f : ShardFile G) where
  abbrev from : ℕ → ℕ → Option G
  from fuel cap = grow_and_parse data_offset f fuel cap

  -- A round, by what the larger buffer gives.
  abbrev outcome : ℕ → Option G → Option G
  outcome cap larger = if not (f.fills cap) then none else elim (f.context cap) [
    | none ↦ larger
    | some g ↦ if leb (data_offset g) cap then some g else larger
  ]

  abbrev pub NoneOrWhole : Option G → Type 0
  NoneOrWhole none = Unit {0}
  NoneOrWhole (some g) = IsWhole data_offset f g

  round-NoneOrWhole :
      (a cap : ℕ)
      → first_cap ≤ cap
      → cap ≤ max_cap
      → NoneOrWhole (from a (cap * 2)) ⊎ (max_cap ≤ cap)
      → NoneOrWhole (from (suc a) cap)
  unfolding grow_and_parse
  round-NoneOrWhole a cap lo hi rest =
      let larger : NoneOrWhole (if leb max_cap cap then none else from a (cap * 2)) =
        elim (Bool-cases (leb max_cap cap)) [
          | inl stop ↦ rw stop tt
          | inr more ↦ rw more (elim rest [ inl r ↦ r | inr big ↦ absurd (ground arith) ])
        ] in
      elim (Bool-cases (f.fills cap)) [
        | inr short ↦ rw (short, grow_and_parse) tt
        | inl filled ↦ elim (Option-cases (f.context cap)) [
          | inl none_ ↦ rw (filled, none_, grow_and_parse) larger
          | inr (g, parsed) ↦ elim (Bool-cases (leb (data_offset g) cap)) [
            | inl covered ↦
                rw (filled, parsed, covered, grow_and_parse)
                  (record {
                    cap = cap;
                    filled = filled;
                    parsed = parsed;
                    covered = ground arith;
                    small = hi;
                    large = lo;
                  })
            | inr beyond ↦ rw (filled, parsed, beyond, grow_and_parse) larger
          ]
        ]
      ]

  -- What read_gguf_metadata_ctx gives of a shard is the context of a buffer between 1 MiB and 64
  -- MiB that the file fills and that holds all its metadata, or nothing.
  pub read_gguf_metadata_ctx-IsWhole : NoneOrWhole (read_gguf_metadata_ctx data_offset (some f))
  unfolding read_gguf_metadata_ctx
  read_gguf_metadata_ctx-IsWhole = round-NoneOrWhole 6 (2 ^ 20) (omega arith) (omega arith) (
      inl (
        round-NoneOrWhole 5 (2 ^ 21) (omega arith) (omega arith) (
          inl (
            round-NoneOrWhole 4 (2 ^ 22) (omega arith) (omega arith) (
              inl (
                round-NoneOrWhole 3 (2 ^ 23) (omega arith) (omega arith) (
                  inl (
                    round-NoneOrWhole 2 (2 ^ 24) (omega arith) (omega arith) (
                      inl (
                        round-NoneOrWhole 1 (2 ^ 25) (omega arith) (omega arith) (
                          inl (
                            round-NoneOrWhole 0 (2 ^ 26) (omega arith) (omega arith)
                              (inr (omega arith))))))))))))))
