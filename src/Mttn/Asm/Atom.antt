-- ===== src/Mttn/Asm/Atom.antt =====
-- mttn/tools/asm.c, asmP.h: the atoms of a source text, and GetConfirm.
use ht_drivers.Base.{ℕ, Bool, true, false, List, [], ◌∷◌}
use ht_drivers.Mttn.Types.{
  ArgType, at_literal, at_address, at_register, Op, src1_type, src2_type, dest_type,
}
use ht_drivers.Mttn.Asm.Expression.{Opr}

-- `Atom`, with the value or the text that its type has; brackets are Open and Close too, and `other`
-- is an atom that the assembler passes over. A text is the codes of its characters.
pub data Atom : Type 0 where
  numeric : ℕ → Atom
  alpha : List ℕ → Atom
  operator : Opr → Atom
  op_code : Op → Atom
  register : ℕ → Atom
  open_mark close_mark separator comment other : Atom

-- The position of an atom is the list from it on; `CompareAtomTypes` with Seperator. The next atom that separates nothing, or the last.
abbrev pub skip : List Atom → List Atom
skip [] = []
skip (a ∷ []) = a ∷ []
skip (separator ∷ b ∷ more) = skip (b ∷ more)
skip (comment ∷ b ∷ more) = skip (b ∷ more)
skip (a ∷ b ∷ more) = a ∷ b ∷ more

-- `do ... while`: on from an argument.
abbrev pub skip_next : List Atom → List Atom
skip_next [] = []
skip_next (a ∷ []) = a ∷ []
skip_next (a ∷ more) = skip more

-- `expect_lit`, `expect_sr1`, `expect_sr2`, `expect_dst`.
abbrev pub is_literal_type : ArgType → Bool
is_literal_type at_literal = true
is_literal_type at_address = true
is_literal_type t = false

abbrev pub is_register_type : ArgType → Bool
is_register_type at_register = true
is_register_type t = false

-- The arguments that are expected, each by `CompareAtomTypes` with Expression or Register; `false` where an error is reported.
abbrev pub confirm_register : Bool → (List Atom → Bool) → List Atom → Bool
confirm_register false go more = go more
confirm_register true go [] = false
confirm_register true go (register r ∷ more) = go (skip_next (register r ∷ more))
confirm_register true go (a ∷ more) = false

abbrev pub confirm_literal : Bool → (List Atom → Bool) → List Atom → Bool
confirm_literal false go more = go more
confirm_literal true go [] = false
confirm_literal true go (numeric v ∷ more) = go (skip_next (numeric v ∷ more))
confirm_literal true go (alpha n ∷ more) = go (skip_next (alpha n ∷ more))
confirm_literal true go (a ∷ more) = false

abbrev pub confirm : (src1 src2 dest : ArgType) → List Atom → Bool
confirm src1 src2 dest more =
    confirm_literal (is_literal_type src1)
      (confirm_register (is_register_type src1) (
        confirm_register (is_register_type src2)
          (confirm_register (is_register_type dest) (λ more. true))))
      (skip more)

-- The atoms after the op code, the last of which is blank.
unfoldable pub get_confirm : Op → List Atom → Bool
get_confirm o more = confirm (src1_type o) (src2_type o) (dest_type o) more
