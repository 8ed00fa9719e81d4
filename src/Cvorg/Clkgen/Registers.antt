-- ===== src/Cvorg/Clkgen/Registers.antt =====
-- The registers of a clock generator that answers, as the commands sent to it leave them.
use ht_drivers.Base.{
  ℕ, zero, suc, ◌+◌, ◌*◌, ◌/◌, ◌%◌, ◌<◌, ◌≡◌, refl, ◌∙◌, true, List, [], ◌∷◌, ◌==◌, if◌then◌else◌,
  arith, bit_and, bit_or,
}
use ht_drivers.Cvorg.Clkgen.Spi.{
  Board, Clkgen, clkgen_ok, read_tries, clkgen_rval, clkgen_rd, write_tries, clkgen_check_write,
  clkgen_wr, clkgen_or, clkgen_and, read_command, write_command,
}

-- The byte that the commands leave in a register: that of the latest write to it.
abbrev pub stored : (ℕ → ℕ) → List ℕ → ℕ → ℕ
stored initial [] addr = initial addr
stored initial (cmd ∷ cmds) addr =
    if cmd / 256 == 0x700800 + addr then cmd % 256 else stored initial cmds addr

-- A board whose chip holds bytes and, once a read command was sent, answers with the register's byte,
-- its address and the UP2DATE bit; the bits that the driver does not look at are zero.
pub record IsMemory (board : Board) (initial : ℕ → ℕ) : Type 0 where
  pub bytes : (addr : ℕ) → initial addr < 256
  pub answers :
      (cmds : List ℕ) (addr reads : ℕ)
      → addr < 1024
      → board.clkctl (read_command addr ∷ cmds) reads
        ≡ 0x100000 + addr * 256 + stored initial cmds addr

pub stored-lt :
    (initial : ℕ → ℕ) (cmds : List ℕ) (addr : ℕ)
    → ((a : ℕ) → initial a < 256)
    → stored initial cmds addr < 256
stored-lt initial [] addr h = h addr
stored-lt initial (c ∷ cs) addr h = ground (arith, stored-lt initial cs addr h)

-- The register `addr` of a chip.
abbrev pub view : (ℕ → ℕ) → Clkgen → ℕ → ℕ
view initial c addr = stored initial c.commands addr

answer-ok :
    (addr byte : ℕ)
    → addr < 1024
    → byte < 256
    → clkgen_ok (0x100000 + addr * 256 + byte) addr ≡ true
unfolding clkgen_ok
answer-ok addr byte h k = ground arith

write_tries-commands :
    (board : Board) (n : ℕ) (c : Clkgen) → (write_tries board n c).0.commands ≡ c.commands
unfolding write_tries
write_tries-commands board zero c = refl
write_tries-commands board (suc n) c =
    ground (arith, write_tries-commands board n (record c { reads = suc c.reads }))

clkgen_wr-commands :
    (board : Board) (addr byte : ℕ) (c : Clkgen)
    → (clkgen_wr board addr byte c).commands ≡ write_command addr (byte % 256) ∷ c.commands
unfolding clkgen_wr clkgen_check_write
clkgen_wr-commands board addr byte c = write_tries-commands board 10 _

-- A write changes the one register, whatever the board answers.
pub view-clkgen_wr :
    (initial : ℕ → ℕ) (board : Board) (addr byte : ℕ) (c : Clkgen) (a : ℕ)
    → view initial (clkgen_wr board addr byte c) a
      ≡ (if a == addr then byte % 256 else view initial c a)
view-clkgen_wr initial board addr byte c a =
    rw (clkgen_wr-commands board addr byte c) (ground arith)

module _ {board : Board} {initial : ℕ → ℕ} (mem : IsMemory board initial) where
  -- A read gives the register's byte and changes no register.
  pub view-clkgen_rd :
      (addr : ℕ) (c : Clkgen)
      → addr < 1024
      → let (c1, val) = clkgen_rd board addr c in
        (val ≡ view initial c addr) × ((a : ℕ) → a < 1024 → view initial c1 a ≡ view initial c a)
  unfolding clkgen_rd clkgen_rval read_tries
  view-clkgen_rd addr c h =
      let b = stored-lt initial c.commands addr mem.bytes in
      rw (mem.answers c.commands addr c.reads h, answer-ok addr _ h b)
        (ground arith, λ a k. ground arith)

  pub rd-value :
      (addr : ℕ) (c : Clkgen) → addr < 1024 → (clkgen_rd board addr c).1 ≡ view initial c addr
  rd-value addr c h = (view-clkgen_rd addr c h).0

  pub rd-view :
      (addr : ℕ) (c : Clkgen) (a : ℕ)
      → addr < 1024
      → a < 1024
      → view initial (clkgen_rd board addr c).0 a ≡ view initial c a
  rd-view addr c a h k = (view-clkgen_rd addr c h).1 a k

  -- Setting and clearing bits changes the one register, to the bits of its byte with the others.
  pub view-clkgen_or :
      (addr byte : ℕ) (c : Clkgen) (a : ℕ)
      → addr < 1024
      → a < 1024
      → view initial (clkgen_or board addr byte c) a
        ≡ (if a == addr then bit_or (view initial c addr) byte % 256 else view initial c a)
  unfolding clkgen_or
  view-clkgen_or addr byte c a h k =
      view-clkgen_wr initial board addr _ _ a ∙ rw (rd-value addr c h, rd-view addr c a h k) refl

  pub view-clkgen_and :
      (addr byte : ℕ) (c : Clkgen) (a : ℕ)
      → addr < 1024
      → a < 1024
      → view initial (clkgen_and board addr byte c) a
        ≡ (if a == addr then bit_and (view initial c addr) byte % 256 else view initial c a)
  unfolding clkgen_and
  view-clkgen_and addr byte c a h k =
      view-clkgen_wr initial board addr _ _ a ∙ rw (rd-value addr c h, rd-view addr c a h k) refl
