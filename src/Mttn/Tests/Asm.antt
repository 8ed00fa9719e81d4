-- ===== src/Mttn/Tests/Asm.antt =====
-- A source with a label before and one after its uses.
use ht_drivers.Base.{ℕ, ◌≡◌, refl, true, none, some, List, [], ◌∷◌, arith}
use ht_drivers.Mttn.Types.{op_number, src1_type, src2_type, dest_type, movv, subv, bne, beq, halt}
use ht_drivers.Mttn.Regs.{same_text}
use ht_drivers.Mttn.Asm.Assemble.{Asm, going, assemble, written}
use ht_drivers.Mttn.Asm.Source.{
  Line, no_arg, number, label, are_lines, text_atoms, address, two_pass,
}
use ht_drivers.Mttn.Asm.TwoPass.{assemble-two_pass}
use ht_drivers.Mttn.Tests.{instruction}

-- "LOOP" and "END".
abbrev loop : List ℕ
loop = 76 ∷ 79 ∷ 79 ∷ 80 ∷ []

abbrev end : List ℕ
end = 69 ∷ 78 ∷ 68 ∷ []

-- 0x100: MOVV 5 GR1; LOOP: SUBV 1 GR1 GR1; BEQ END; BNE LOOP; END: HALT.
abbrev source : List Line
source =
    record { name = none; op = movv; src1 = number 5; src2 = none; dest = some 0 }
    ∷ record { name = some loop; op = subv; src1 = number 1; src2 = some 0; dest = some 0 }
    ∷ record { name = none; op = beq; src1 = label end; src2 = none; dest = none }
    ∷ record { name = none; op = bne; src1 = label loop; src2 = none; dest = none }
    ∷ record { name = some end; op = halt; src1 = no_arg; src2 = none; dest = none }
    ∷ []

are_source : are_lines source ≡ true
unfolding are_lines src1_type src2_type dest_type same_text
are_source = refl

assemble-two_pass_example :
    (s : Asm) × assemble 7 (text_atoms 0x100 source) ≡ going s
    × s.stacks.errors ≡ 0
    × written s ≡ two_pass 0x100 source
assemble-two_pass_example =
    assemble-two_pass 0x100 7 source are_source (omega arith) (omega arith) (omega arith)
      (omega arith) (omega arith)

-- What they make: the branches are to 0x104 and 0x101.
source_bytes : two_pass 0x100 source ≡ record {
  load_address = 0x100;
  program =
      instruction 0xe2 5 0 0
      ∷ instruction 0xe7 1 0 0
      ∷ instruction 0x86 0x104 0 0
      ∷ instruction 0x87 0x101 0 0
      ∷ instruction 0 0 0 0
      ∷ [];
}
unfolding address op_number same_text
source_bytes = refl
