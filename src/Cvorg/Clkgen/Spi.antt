-- ===== src/Cvorg/Clkgen/Spi.antt =====
-- cvorg/driver/clkgen.c: access to the clock generator's registers by commands to CLKCTL.
-- The board is a parameter: what CLKCTL reads as, by the commands written so far, latest first, and
-- the number of reads before. Delays have no effect on the state.
use ht_drivers.Base.{
  ℕ, zero, suc, ◌+◌, ◌*◌, ◌/◌, ◌%◌, Bool, true, false, ◌&&◌, not, List, ◌∷◌, ◌==◌, if◌then◌else◌, ℤ,
  bit_and, bit_or,
}

pub record Board : Type 0 where
  pub clkctl : (commands : List ℕ) (reads : ℕ) → ℕ

-- `slept` are the arguments of `tswait`, latest first.
pub record Clkgen : Type 0 where
  pub commands : List ℕ
  pub reads : ℕ
  pub slept : List ℤ

-- CVORG_AD9516_OP_READ and CVORG_AD9516_OP_WRITE, with an address of 10 bits and a data byte. The
-- fields do not overlap, and so the sum is the `|` of the source.
abbrev pub read_command : ℕ → ℕ
read_command addr = 0x700c0000 + addr * 256

abbrev pub write_command : ℕ → ℕ → ℕ
write_command addr byte = 0x70080000 + addr * 256 + byte

-- The bits of CLKCTL are taken out by division: bit 20, and bits 8 to 17.
abbrev pub up2date : ℕ → Bool
up2date val = not (val / 0x100000 % 2 == 0)

unfoldable pub clkgen_ok : (rval addr : ℕ) → Bool
clkgen_ok rval addr = up2date rval && (rval / 256 % 1024 == addr)

abbrev pub writew : ℕ → Clkgen → Clkgen
writew cmd c = record c { commands = cmd ∷ c.commands }

abbrev pub readw : Board → Clkgen → Clkgen × ℕ
readw board c = (record c { reads = suc c.reads }, board.clkctl c.commands c.reads)

-- The loop of `clkgen_rval`, with the value of the last attempt.
unfoldable pub read_tries : Board → ℕ → (tries val : ℕ) → Clkgen → Clkgen × ℕ
unfolding clkgen_ok
read_tries board addr zero val c = (c, val)
read_tries board addr (suc n) val c =
    let (c1, val1) = readw board c in
    let rest = read_tries board addr n val1 c1 in if clkgen_ok val1 addr then (c1, val1) else rest

unfoldable pub clkgen_rval : Board → ℕ → Clkgen → Clkgen × ℕ
unfolding read_tries
clkgen_rval board addr c = read_tries board addr 3 0 (writew (read_command addr) c)

unfoldable pub clkgen_rd : Board → ℕ → Clkgen → Clkgen × ℕ
unfolding clkgen_rval
clkgen_rd board addr c = let (c1, rval) = clkgen_rval board addr c in (c1, rval % 256)

-- The loop of `clkgen_check_write`.
unfoldable pub write_tries : Board → ℕ → Clkgen → Clkgen × Bool
write_tries board zero c = (c, false)
write_tries board (suc n) c =
    let (c1, val) = readw board c in
    let rest = write_tries board n c1 in if up2date val then (c1, true) else rest

unfoldable pub clkgen_check_write : Board → Clkgen → Clkgen × Bool
unfolding write_tries
clkgen_check_write board c = write_tries board 10 c

-- A write that is not seen to finish is reported in the log only.
unfoldable pub clkgen_wr : Board → (addr byte : ℕ) → Clkgen → Clkgen
unfolding clkgen_check_write
clkgen_wr board addr byte c =
    (clkgen_check_write board (writew (write_command addr (byte % 256)) c)).0

unfoldable pub clkgen_or : Board → (addr byte : ℕ) → Clkgen → Clkgen
unfolding clkgen_rd clkgen_wr
clkgen_or board addr byte c =
    let (c1, old) = clkgen_rd board addr c in clkgen_wr board addr (bit_or old byte) c1

unfoldable pub clkgen_and : Board → (addr byte : ℕ) → Clkgen → Clkgen
unfolding clkgen_rd clkgen_wr
clkgen_and board addr byte c =
    let (c1, old) = clkgen_rd board addr c in clkgen_wr board addr (bit_and old byte) c1
