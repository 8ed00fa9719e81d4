-- ===== src/Cvorg/Tests.antt =====
-- Tests of the clock generator's model with a board that answers.
use ht_drivers.Base.{
  ℕ, ◌+◌, ◌*◌, ◌/◌, ◌%◌, ◌≤◌, ◌<◌, ◌≡◌, ◌≢◌, ◌↔◌, ◌⊎◌, refl, true, false, List, [], ◌∷◌, pos,
  success, arith,
}
use ht_drivers.Cvorg.Clkgen.Int.{equals}
use ht_drivers.Cvorg.Clkgen.Reg
use ht_drivers.Cvorg.Clkgen.Spi.{Board, Clkgen, read_command}
use ht_drivers.Cvorg.Clkgen.Pll.{Pll, check_pll_dividers, clkgen_check_pll}
use ht_drivers.Cvorg.Clkgen.PllLaws.{
  ratio, clkgen_check_pll_iff, check_pll_dividers-ratio, check_pll_dividers-order,
}
use ht_drivers.Cvorg.Clkgen.Chip.{clkgen_read_d}
use ht_drivers.Cvorg.Clkgen.Setup.{clkgen_write_d}
use ht_drivers.Cvorg.Clkgen.Registers.{stored, IsMemory}
use ht_drivers.Cvorg.Clkgen.Dividers.{read_d-write_d}

-- Every register holds 0x21 at first.
abbrev initial : ℕ → ℕ
initial addr = 0x21

-- The answer to the latest command, with the address that it names.
abbrev answer : List ℕ → ℕ
answer [] = 0
answer (cmd ∷ cmds) = 0x100000 + cmd / 256 % 1024 * 256 + stored initial cmds (cmd / 256 % 1024)

abbrev board : Board
board = record { clkctl = λ commands reads. answer commands }

named_address : (addr : ℕ) → addr < 1024 → read_command addr / 256 % 1024 ≡ addr
named_address addr h = ground arith

memory : IsMemory board initial
memory = record {
  bytes = λ addr. omega arith;
  answers = λ cmds addr reads h. rw (named_address addr h) refl;
}

abbrev fresh : Clkgen
fresh = record { commands = []; reads = 0; slept = [] }

-- The parameters of a sampling frequency, with an odd first divider and the second one bypassed.
abbrev pll : Pll
pll = record {
  a = pos 10;
  b = pos 80;
  p = pos 32;
  r = pos 1;
  dvco = pos 3;
  d1 = pos 7;
  d2 = pos 1;
  external = pos 0;
}

abbrev prescaler : ℕ
prescaler = 32

abbrev first_divider : ℕ
first_divider = 7

clkgen_check_pll_iff_example : (clkgen_check_pll pll ≡ success) ↔ (
    (10 ≤ 80)
    × (10 ≤ 63)
    × ((prescaler ≡ 16) ⊎ (prescaler ≡ 32))
    × (0 < 80)
    × (80 ≤ 8191)
    × (0 < 1)
    × (1 ≤ 16383))
clkgen_check_pll_iff_example = clkgen_check_pll_iff pll refl refl refl refl

check_pll_dividers-ratio_example :
    ratio (check_pll_dividers pll).d1 * ratio (check_pll_dividers pll).d2 ≡ 7
check_pll_dividers-ratio_example = check_pll_dividers-ratio pll

check_pll_dividers-order_example :
    ((equals (check_pll_dividers pll).d1 0 ≡ true) × (equals (check_pll_dividers pll).d2 0 ≡ false))
    ↔ ((first_divider % 2 ≡ 1) × (first_divider ≢ 1) × (1 < 2))
check_pll_dividers-order_example = check_pll_dividers-order pll refl refl

read_d-write_d_example :
    (clkgen_read_d board Reg.cmosdiv3_1 1 (clkgen_write_d board 3 1 (pos 7) fresh)).1 ≡ 7
read_d-write_d_example = read_d-write_d memory 7 fresh (omega arith) (omega arith)
