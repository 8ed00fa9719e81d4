-- ===== src/Cvorg/Clkgen/Dividers.antt =====
-- The prescaler and the channel dividers, written to a clock generator that answers and read back.
use ht_drivers.Base.{
  ℕ, ◌+◌, ◌-◌, ◌/◌, ◌%◌, ◌≤◌, ◌<◌, ◌≡◌, ◌≢◌, ◌⊎◌, inl, inr, refl, Bool, true, ◌&&◌, ◌==◌,
  if◌then◌else◌, pos, arith, bit_and, bit_or, passes_under, passes_under-lt,
}
use ht_drivers.Cvorg.Clkgen.Reg
use ht_drivers.Cvorg.Clkgen.Spi.{Board, Clkgen, clkgen_rd, clkgen_wr, clkgen_or, clkgen_and}
use ht_drivers.Cvorg.Clkgen.Chip.{clkgen_read_p, clkgen_read_d, clkgen_write_p}
use ht_drivers.Cvorg.Clkgen.Setup.{clkgen_write_d, divider_byte, divider_addr, bypass_mask}
use ht_drivers.Cvorg.Clkgen.Registers.{
  IsMemory, view, stored-lt, view-clkgen_wr, view-clkgen_or, view-clkgen_and, rd-value, rd-view,
}

-- What setting and clearing the bits does to each byte.
byte_ok : ℕ → Bool
byte_ok x =
    (bit_or (bit_and x 0xf8 % 256) 5 % 256 % 8 == 5)
    && (bit_or (bit_and x 0xf8 % 256) 6 % 256 % 8 == 6)
    && (bit_and (bit_and x 239 % 256) 16 == 0)
    && (bit_and (bit_and x 223 % 256) 32 == 0)
    && (bit_and (bit_or x 16 % 256) 16 == 16)
    && (bit_and (bit_or x 32 % 256) 32 == 32)

all_bytes_ok : passes_under byte_ok 256 ≡ true
unfolding byte_ok passes_under
all_bytes_ok = refl

byte-ok : (x : ℕ) → x < 256 → byte_ok x ≡ true
byte-ok x h = passes_under-lt byte_ok 256 h all_bytes_ok

module _ {board : Board} {initial : ℕ → ℕ} (mem : IsMemory board initial) where
  view-lt : (c : Clkgen) (a : ℕ) → view initial c a < 256
  view-lt c a = stored-lt initial c.commands a mem.bytes

  -- From a board that answers as a memory, a prescaler of 16 or 32 is read back as written.
  read_p-write_p :
      (p : ℕ) (c : Clkgen)
      → (p ≡ 16) ⊎ (p ≡ 32)
      → (clkgen_read_p board (clkgen_write_p board (pos p) c)).1 ≡ p
  unfolding clkgen_read_p clkgen_write_p byte_ok
  read_p-write_p p c h =
      let lt : Reg.pll1 < 1024 = omega arith in
      let bits : ℕ = if p == 16 then 5 else 6 in
      let c1 : Clkgen = clkgen_and board Reg.pll1 0xf8 c in
      let ok = byte-ok (view initial c Reg.pll1) (view-lt c Reg.pll1) in
      rw
        (
          rd-value mem Reg.pll1 (clkgen_or board Reg.pll1 bits c1) lt,
          view-clkgen_or mem Reg.pll1 bits c1 Reg.pll1 lt lt,
          view-clkgen_and mem Reg.pll1 0xf8 c Reg.pll1 lt lt,
        )
        (ground arith)

  -- What `clkgen_read_d` makes of the two registers that it reads.
  read_d1-value :
      (c : Clkgen)
      → (clkgen_read_d board Reg.cmosdiv3_1 1 c).1 ≡ (
          if bit_and (view initial c 0x19c) 16 == 0
          then view initial c 0x199 / 16 % 16 + view initial c 0x199 % 16 + 2
          else 1)
  unfolding clkgen_read_d
  read_d1-value c =
      let ha : 0x19c < 1024 = omega arith in
      let hb : 0x199 < 1024 = omega arith in
      rw
        (
          rd-value mem 0x19c c ha,
          rd-value mem 0x199 (clkgen_rd board 0x19c c).0 hb,
          rd-view mem 0x19c c 0x199 ha hb,
        )
        refl

  read_d2-value :
      (c : Clkgen)
      → (clkgen_read_d board Reg.cmosdiv3_1 2 c).1 ≡ (
          if bit_and (view initial c 0x19c) 32 == 0
          then view initial c 0x19a / 16 % 16 + view initial c 0x19a % 16 + 2
          else 1)
  unfolding clkgen_read_d
  read_d2-value c =
      let ha : 0x19c < 1024 = omega arith in
      let hb : 0x19a < 1024 = omega arith in
      rw
        (
          rd-value mem 0x19c c ha,
          rd-value mem 0x19a (clkgen_rd board 0x19c c).0 hb,
          rd-view mem 0x19c c 0x19a ha hb,
        )
        refl

  -- The registers of divider pair 3 after a divider that is not bypassed is written.
  write_d-view :
      (nr d : ℕ) (c : Clkgen) (a : ℕ)
      → (nr ≡ 1) ⊎ (nr ≡ 2)
      → d ≢ 0
      → a < 1024
      → view initial (clkgen_write_d board 3 nr (pos d) c) a ≡ (
          if a == 0x19c
          then bit_and (view initial c 0x19c) (255 - bypass_mask nr) % 256
          else if a == divider_addr 3 nr
          then divider_byte (pos d) % 256
          else view initial c a)
  unfolding clkgen_write_d
  write_d-view nr d c a which h k =
      let ha : 0x19c < 1024 = omega arith in
      let c1 : Clkgen = clkgen_wr board (divider_addr 3 nr) (divider_byte (pos d)) c in
      let v = view-clkgen_and mem 0x19c (255 - bypass_mask nr) c1 a ha k in
      let w = view-clkgen_wr initial board (divider_addr 3 nr) (divider_byte (pos d)) c a in
      let w' = view-clkgen_wr initial board (divider_addr 3 nr) (divider_byte (pos d)) c 0x19c in
      ground (arith, v, w, w')

  divider_byte-sum :
      (d : ℕ)
      → 2 ≤ d
      → d ≤ 32
      → let x = divider_byte (pos d) in (x < 256) × (x / 16 % 16 + x % 16 + 2 ≡ d)
  divider_byte-sum d lo hi = ground arith

  -- From a board that answers as a memory, the first divider of output pair 3 is read back as written,
  -- if it is 2 to 32.
  pub read_d-write_d :
      (d : ℕ) (c : Clkgen)
      → 2 ≤ d
      → d ≤ 32
      → (clkgen_read_d board Reg.cmosdiv3_1 1 (clkgen_write_d board 3 1 (pos d) c)).1 ≡ d
  unfolding byte_ok
  read_d-write_d d c lo hi =
      let ok = byte-ok (view initial c 0x19c) (view-lt c 0x19c) in
      let c1 : Clkgen = clkgen_write_d board 3 1 (pos d) c in
      let v = write_d-view 1 d c 0x19c (inl refl) (omega arith) (omega arith) in
      let w = write_d-view 1 d c 0x199 (inl refl) (omega arith) (omega arith) in
      let sum = divider_byte-sum d lo hi in rw (read_d1-value c1, v, w) (ground arith)

  -- From a board that answers as a memory, the second divider of output pair 3, written as 2 or more,
  -- is read as what the register after the first divider's gives, which holds the phase offset.
  read_d2-write_d :
      (d : ℕ) (c : Clkgen)
      → 2 ≤ d
      → let phase = view initial c 0x19a in
        (clkgen_read_d board Reg.cmosdiv3_1 2 (clkgen_write_d board 3 2 (pos d) c)).1
        ≡ phase / 16 % 16 + phase % 16 + 2
  unfolding byte_ok
  read_d2-write_d d c lo =
      let ok = byte-ok (view initial c 0x19c) (view-lt c 0x19c) in
      let c1 : Clkgen = clkgen_write_d board 3 2 (pos d) c in
      let v = write_d-view 2 d c 0x19c (inr refl) (omega arith) (omega arith) in
      let w = write_d-view 2 d c 0x19a (inr refl) (omega arith) (omega arith) in
      rw (read_d2-value c1, v, w) (ground arith)
