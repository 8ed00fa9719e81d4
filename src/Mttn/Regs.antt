-- ===== src/Mttn/Regs.antt =====
-- mttn/lib/opcodes.c, tools/asm.c and emu.c: the names of the registers.
use ht_drivers.Base.{
  ℕ, zero, suc, ◌+◌, ◌-◌, ◌<◌, ◌≡◌, refl, Bool, true, false, ◌&&◌, Option, none, some, List, [],
  ◌∷◌, ◌++◌, map, length, ◌==◌, ltb, leb, if◌then◌else◌, passes_under, passes_under-lt, ==_iff,
  arith,
}
use ht_drivers.Mttn.Text.{print_dec, digits, strtoul}

-- `RegisterDsc`, with `Start` and `End` as first and last.
pub record RegisterDsc : Type 0 where
  pub name : List ℕ
  pub first : ℕ
  pub last : ℕ
  pub offset : ℕ

-- `Regs`: GR, OUTPUTS, EVIN, EVINCNT, EVOUTCNT, EVOUTFB, EVOUTL, MSMR, TSYNC, VMEP2, EVOUTH, MSFR, SYNCFR, INDEX, LR.
abbrev pub register_set : List RegisterDsc
register_set =
    record { name = 71 ∷ 82 ∷ []; first = 0; last = 211; offset = 1 }
    ∷ record { name = 79 ∷ 85 ∷ 84 ∷ 80 ∷ 85 ∷ 84 ∷ 83 ∷ []; first = 212; last = 212; offset = 0 }
    ∷ record { name = 69 ∷ 86 ∷ 73 ∷ 78 ∷ []; first = 213; last = 213; offset = 0 }
    ∷ record { name = 69 ∷ 86 ∷ 73 ∷ 78 ∷ 67 ∷ 78 ∷ 84 ∷ []; first = 214; last = 214; offset = 0 }
    ∷ record {
      name = 69 ∷ 86 ∷ 79 ∷ 85 ∷ 84 ∷ 67 ∷ 78 ∷ 84 ∷ [];
      first = 215;
      last = 215;
      offset = 0;
    }
    ∷ record { name = 69 ∷ 86 ∷ 79 ∷ 85 ∷ 84 ∷ 70 ∷ 66 ∷ []; first = 216; last = 216; offset = 0 }
    ∷ record { name = 69 ∷ 86 ∷ 79 ∷ 85 ∷ 84 ∷ 76 ∷ []; first = 217; last = 217; offset = 0 }
    ∷ record { name = 77 ∷ 83 ∷ 77 ∷ 82 ∷ []; first = 218; last = 218; offset = 0 }
    ∷ record { name = 84 ∷ 83 ∷ 89 ∷ 78 ∷ 67 ∷ []; first = 219; last = 219; offset = 0 }
    ∷ record { name = 86 ∷ 77 ∷ 69 ∷ 80 ∷ 50 ∷ []; first = 220; last = 220; offset = 0 }
    ∷ record { name = 69 ∷ 86 ∷ 79 ∷ 85 ∷ 84 ∷ 72 ∷ []; first = 221; last = 221; offset = 0 }
    ∷ record { name = 77 ∷ 83 ∷ 70 ∷ 82 ∷ []; first = 222; last = 222; offset = 0 }
    ∷ record { name = 83 ∷ 89 ∷ 78 ∷ 67 ∷ 70 ∷ 82 ∷ []; first = 223; last = 223; offset = 0 }
    ∷ record { name = 73 ∷ 78 ∷ 68 ∷ 69 ∷ 88 ∷ []; first = 224; last = 224; offset = 0 }
    ∷ record { name = 76 ∷ 82 ∷ []; first = 225; last = 255; offset = 1 }
    ∷ []

-- Small letters to capitals; of the characters from 'a' on, the letters alone are Alpha.
abbrev pub str_to_upper : List ℕ → List ℕ
str_to_upper = map (λ c. if leb 97 c && leb c 122 then c - 32 else c)

-- strcmp and strncmp: equal texts, and a text that starts with another, with what follows it.
unfoldable pub same_text : List ℕ → List ℕ → Bool
same_text [] [] = true
same_text (a ∷ text) (b ∷ other) = if a == b then same_text text other else false
same_text text other = false

unfoldable pub starts_with : (text name : List ℕ) → Bool
starts_with text [] = true
starts_with [] (b ∷ bs) = false
starts_with (a ∷ text) (b ∷ other) = if a == b then starts_with text other else false

abbrev drop : ℕ → List ℕ → List ℕ
drop zero cs = cs
drop (suc n) [] = []
drop (suc n) (c ∷ cs) = drop n cs

-- "???" for a register of no range.
unfoldable pub name_in : List RegisterDsc → ℕ → List ℕ
name_in [] r = 63 ∷ 63 ∷ 63 ∷ []
name_in (d ∷ ds) r =
    let others = name_in ds r in
    if leb d.first r && leb r d.last
    then (if ltb d.first d.last then d.name ++ print_dec (r - d.first + d.offset) [] else d.name)
    else others

unfoldable pub get_register_name : ℕ → List ℕ
unfolding name_in
get_register_name r = name_in register_set r

-- The register that a text names in one range: its name with a number of the range, or with anything
-- behind it where the range is a single register.
unfoldable pub in_range : RegisterDsc → (text upr : List ℕ) → Option ℕ
unfolding starts_with strtoul
in_range d text upr =
    let cp = drop (length d.name) text in
    let (rn, ep) = strtoul cp in
    if starts_with upr d.name
    then (if ltb d.first d.last
        then (if ltb (length ep) (length cp)
              && (leb d.offset rn && leb rn (d.last - d.first + d.offset))
            then some (d.first + rn - d.offset)
            else none)
        else some d.first)
    else none

unfoldable pub first_match : (RegisterDsc → Option ℕ) → List RegisterDsc → Option ℕ
first_match test [] = none
first_match test (d ∷ ds) = elim (test d) [ none ↦ first_match test ds | some r ↦ some r ]

-- The search for a perfect match.
abbrev exactly : (upr : List ℕ) → RegisterDsc → Option ℕ
exactly upr d = if same_text upr d.name then some d.first else none

abbrev or_else : Option ℕ → Option ℕ → Option ℕ
or_else none r = r
or_else (some r) other = some r

-- `LookUpRegister`: a text of at most 8 characters; `none` where it returns 0.
unfoldable pub look_up_register : List ℕ → Option ℕ
unfolding same_text first_match in_range
look_up_register text =
    let upr = str_to_upper text in
    if leb (length text) 8
    then or_else (first_match (exactly upr) register_set)
        (first_match (λ d. in_range d text upr) register_set)
    else none

-- `StringToReg`: register 0 where no range matches.
unfoldable pub string_to_reg : List ℕ → ℕ
unfolding first_match in_range
string_to_reg text =
    let upr = str_to_upper text in
    if leb (length text) 8
    then elim (first_match (λ d. in_range d text upr) register_set) [ none ↦ 0 | some r ↦ r ]
    else 0

-- The test of one register.
abbrev is_some_of : Option ℕ → ℕ → Bool
is_some_of none r = false
is_some_of (some x) r = x == r

reads_back : ℕ → Bool
unfolding look_up_register get_register_name
reads_back r = is_some_of (look_up_register (get_register_name r)) r

emulator_reads : ℕ → Bool
unfolding string_to_reg get_register_name
emulator_reads r = string_to_reg (get_register_name r) == (if r == 214 then 213 else r)

is_some_of-eq : (o : Option ℕ) (r : ℕ) → is_some_of o r ≡ true → o ≡ some r
is_some_of-eq o r h = ground arith

all_read : passes_under reads_back 256 ≡ true
unfolding passes_under reads_back digits
all_read = refl

emulator_all : passes_under emulator_reads 256 ≡ true
unfolding passes_under emulator_reads digits
emulator_all = refl

-- The name of each of the 256 registers, as the disassembler and the emulator print it, is read back as
-- that register by the assembler's search for a perfect match and then for a range. The emulator's
-- search, which has no first part, reads it back too, but for EVINCNT, in which it finds EVIN.
pub look_up_register-name :
    (r : ℕ)
    → r < 256
    → look_up_register (get_register_name r) ≡ some r
      × string_to_reg (get_register_name r) ≡ (if r == 214 then 213 else r)
unfolding reads_back emulator_reads
look_up_register-name r h = (
  is_some_of-eq _ r (passes_under-lt reads_back 256 h all_read),
  (==_iff _ _).0 (passes_under-lt emulator_reads 256 h emulator_all),
)
