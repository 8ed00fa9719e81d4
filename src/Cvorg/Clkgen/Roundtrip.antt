-- ===== src/Cvorg/Clkgen/Roundtrip.antt =====
-- What is written to a clock generator that answers is what is read back from it.
use ht_drivers.Base.{ℕ, ◌/◌, ◌%◌, ◌≡◌, pos, arith}
use ht_drivers.Cvorg.Clkgen.Int.{low_bits}
use ht_drivers.Cvorg.Clkgen.Reg
use ht_drivers.Cvorg.Clkgen.Spi.{Board, Clkgen, clkgen_rd, clkgen_wr}
use ht_drivers.Cvorg.Clkgen.Chip.{
  clkgen_read_a, clkgen_read_b, clkgen_read_r, clkgen_write_a, clkgen_write_b, clkgen_write_r,
}
use ht_drivers.Cvorg.Clkgen.Registers.{IsMemory, view-clkgen_wr, rd-value, rd-view}

module _ {board : Board} {initial : ℕ → ℕ} (mem : IsMemory board initial) where
  -- From a board that answers as a memory, an A counter that is not negative is read back with its
  -- lowest six bits.
  pub read_a-write_a :
      (a : ℕ) (c : Clkgen) → (clkgen_read_a board (clkgen_write_a board (pos a) c)).1 ≡ a % 64
  unfolding clkgen_read_a clkgen_write_a
  read_a-write_a a c =
      rw
        (
          rd-value mem Reg.acount (clkgen_wr board Reg.acount (low_bits 6 (pos a)) c) (omega arith),
          view-clkgen_wr initial board Reg.acount (low_bits 6 (pos a)) c Reg.acount,
        )
        (ground arith)

  -- From a board that answers as a memory, a B counter that is not negative is read back with its
  -- lowest 13 bits.
  read_b-write_b :
      (b : ℕ) (c : Clkgen) → (clkgen_read_b board (clkgen_write_b board (pos b) c)).1 ≡ b % 8192
  unfolding clkgen_read_b clkgen_write_b
  read_b-write_b b c =
      let lsb = low_bits 8 (pos b) in
      let msb = low_bits 14 (pos b) / 256 in
      let c1 = clkgen_wr board Reg.bcount_lsb lsb c in
      let c2 = clkgen_wr board Reg.bcount_msb msb c1 in
      let wl = view-clkgen_wr initial board Reg.bcount_lsb lsb c Reg.bcount_lsb in
      let wm = view-clkgen_wr initial board Reg.bcount_msb msb c1 in
      rw
        (
          rd-value mem Reg.bcount_lsb c2 (omega arith),
          rd-value mem Reg.bcount_msb (clkgen_rd board Reg.bcount_lsb c2).0 (omega arith),
          rd-view mem Reg.bcount_lsb c2 Reg.bcount_msb (omega arith) (omega arith),
          wm Reg.bcount_lsb,
          wm Reg.bcount_msb,
          wl,
        )
        (ground arith)

  -- From a board that answers as a memory, an R counter that is not negative is read back with its
  -- lowest 14 bits.
  pub read_r-write_r :
      (b : ℕ) (c : Clkgen) → (clkgen_read_r board (clkgen_write_r board (pos b) c)).1 ≡ b % 16384
  unfolding clkgen_read_r clkgen_write_r
  read_r-write_r b c =
      let lsb = low_bits 8 (pos b) in
      let msb = low_bits 14 (pos b) / 256 in
      let c1 = clkgen_wr board Reg.rcount_lsb lsb c in
      let c2 = clkgen_wr board Reg.rcount_msb msb c1 in
      let wl = view-clkgen_wr initial board Reg.rcount_lsb lsb c Reg.rcount_lsb in
      let wm = view-clkgen_wr initial board Reg.rcount_msb msb c1 in
      rw
        (
          rd-value mem Reg.rcount_lsb c2 (omega arith),
          rd-value mem Reg.rcount_msb (clkgen_rd board Reg.rcount_lsb c2).0 (omega arith),
          rd-view mem Reg.rcount_lsb c2 Reg.rcount_msb (omega arith) (omega arith),
          wm Reg.rcount_lsb,
          wm Reg.rcount_msb,
          wl,
        )
        (ground arith)
