-- ===== src/Mttn/Asm/Lines.antt =====
-- The register arguments and the end of a line in mttn/tools/asm.c.
use ht_drivers.Base.{
  ℕ, suc, ◌%◌, ◌<◌, ◌≡◌, refl, sym, ap, subst, ◌∙◌, Bool, true, false, Option, none, some, List, [],
  ◌∷◌, ◌++◌, length, length-append, arith, update_self, update-ne,
}
use ht_drivers.Mttn.Types.{Instruction}
use ht_drivers.Mttn.Asm.Expression.{Symbol}
use ht_drivers.Mttn.Asm.Atom.{Atom, register, separator}
use ht_drivers.Mttn.Asm.Assemble.{
  Asm, Expects, at_register, reset_stacks, assemble_atom, assemble_from, set_inst, second_pass,
  first_of,
}
use ht_drivers.Mttn.Asm.Labels.{assemble_from-step}
use ht_drivers.Mttn.Asm.Source.{Arg, reg_atoms, reg_value, arg_value}
use ht_drivers.Mttn.Asm.Fixups.{Below, Below-suc, second_pass-above, first_of-ext}
use ht_drivers.Mttn.Asm.Invariant.{IsAt, IsOpen, Agrees, Means, with_reference, no_expects}
use ht_drivers.Mttn.Asm.Writes.{write-IsOpen}

abbrev pub is_given : Option ℕ → Bool
is_given none = false
is_given (some r) = true

-- A register that is given is one of the 256.
abbrev pub IsByte : Option ℕ → Type 0
IsByte none = Unit
IsByte (some r) = r < 256

module _ (at : List ℕ → ℕ) (start left : ℕ) (pending : List ℕ → Bool) (labels uses : ℕ)
    (out : List Instruction) (old : List (ℕ × ℕ)) (reference : Option ℕ) (a : Arg) where
  recast :
      (cur cur' : Instruction) (flags flags' : Expects) (s : Asm)
      → cur ≡ cur'
      → flags ≡ flags'
      → IsOpen at start left pending labels uses uses out old reference a cur flags s
      → IsOpen at start left pending labels uses uses out old reference a cur' flags' s
  recast cur cur' flags flags' s c f r =
      subst (λ g. IsOpen at start left pending labels uses uses out old reference a cur' g s) f
        (subst (λ x. IsOpen at start left pending labels uses uses out old reference a x flags s) c
          r)

  pub src2-runs :
      (given : Option ℕ) (p : Option Atom) (tail : List Atom) (cur : Instruction) (flags : Expects)
      (s : Asm)
      → IsOpen at start left pending labels uses uses out old reference a cur flags s
      → IsByte given
      → cur.src2 ≡ 0
      → flags.sr1 ≡ false
      → flags.sr2 ≡ is_given given
      → (p' : Option Atom) × (s' : Asm) × assemble_from p (reg_atoms given tail) s
          ≡ assemble_from p' tail s'
        × IsOpen at start left pending labels uses uses out old reference a
            (record cur { src2 = reg_value given })
            (record flags { sr2 = false })
            s'
  unfolding assemble_atom at_register
  src2-runs none p tail cur flags s r b z l q = (
    p,
    s,
    refl,
    recast cur _ flags _ s (ap (λ v. record cur { src2 = v }) z)
        (ap (λ g. record flags { sr2 = g }) q) r,
  )
  src2-runs (some v) p tail cur flags s r b z l q =
      let sr1 : s.expects.sr1 ≡ false = ap (λ (e : Expects). e.sr1) r.expects ∙ l in
      let sr2 : s.expects.sr2 ≡ true = ap (λ (e : Expects). e.sr2) r.expects ∙ q in
      let e = record (s.expects) { sr2 = false } in
      let byte : v % 256 ≡ v = omega arith in
      let s' = set_inst (λ i. record i { src2 = v }) (record s { expects = e }) in
      (
        some (register v),
        s',
        assemble_from-step p (register v) tail s s' (rw (sr1, sr2, byte) refl),
        write-IsOpen at start left pending labels out uses uses uses old reference a a cur flags
            (record flags { sr2 = false }) e (λ i. record i { src2 = v }) s r (omega arith) r.meant
            (ap (λ (e : Expects). record e { sr2 = false }) r.expects),
      )

  pub dest-runs :
      (given : Option ℕ) (p : Option Atom) (tail : List Atom) (cur : Instruction) (flags : Expects)
      (s : Asm)
      → IsOpen at start left pending labels uses uses out old reference a cur flags s
      → IsByte given
      → cur.dest ≡ 0
      → flags.sr1 ≡ false
      → flags.sr2 ≡ false
      → flags.dst ≡ is_given given
      → (p' : Option Atom) × (s' : Asm) × assemble_from p (reg_atoms given tail) s
          ≡ assemble_from p' tail s'
        × IsOpen at start left pending labels uses uses out old reference a
            (record cur { dest = reg_value given })
            (record flags { dst = false })
            s'
  unfolding assemble_atom at_register
  dest-runs none p tail cur flags s r b z l k q = (
    p,
    s,
    refl,
    recast cur _ flags _ s (ap (λ v. record cur { dest = v }) z)
        (ap (λ g. record flags { dst = g }) q) r,
  )
  dest-runs (some v) p tail cur flags s r b z l k q =
      let sr1 : s.expects.sr1 ≡ false = ap (λ (e : Expects). e.sr1) r.expects ∙ l in
      let sr2 : s.expects.sr2 ≡ false = ap (λ (e : Expects). e.sr2) r.expects ∙ k in
      let dst : s.expects.dst ≡ true = ap (λ (e : Expects). e.dst) r.expects ∙ q in
      let e = record (s.expects) { dst = false } in
      let byte : v % 256 ≡ v = omega arith in
      let s' = set_inst (λ i. record i { dest = v }) (record s { expects = e }) in
      (
        some (register v),
        s',
        assemble_from-step p (register v) tail s s' (rw (sr1, sr2, dst, byte) refl),
        write-IsOpen at start left pending labels out uses uses uses old reference a a cur flags
            (record flags { dst = false }) e (λ i. record i { dest = v }) s r (omega arith) r.meant
            (ap (λ (e : Expects). record e { dst = false }) r.expects),
      )

-- The references and the instruction at the end of a line.
closed-Below :
    (old : List (ℕ × ℕ)) (reference : Option ℕ) (n : ℕ)
    → Below n old
    → Below (suc n) (with_reference n reference old)
closed-Below old none n b = Below-suc n old b
closed-Below old (some i) n b = (omega arith, Below-suc n old b)

closed-current :
    (at : List ℕ → ℕ) (n : ℕ) (old : List (ℕ × ℕ)) (reference : Option ℕ) (a : Arg)
    (cur : Instruction) (program : ℕ → Instruction) (names : List (List ℕ)) (symbols : ℕ → Symbol)
    → Below n old
    → program n ≡ cur
    → Means at names a cur.src1 reference
    → Agrees at names symbols
    → second_pass (with_reference n reference old) symbols program n
      ≡ record cur { src1 = arg_value at a }
unfolding second_pass
closed-current at n old none a cur program names symbols b c m g =
    second_pass-above old symbols program n n b (omega arith)
    ∙ c
    ∙ ap (λ v. record cur { src1 = v }) m
closed-current at n old (some i) a cur program names symbols b c (name, e, here) g =
    let before = second_pass old symbols program in
    update_self before n _
    ∙ ap (λ (x : Instruction). record x { src1 = (symbols i).value })
        (second_pass-above old symbols program n n b (omega arith) ∙ c)
    ∙ ap (λ v. record cur { src1 = v }) (g name i here ∙ sym (ap (arg_value at) e))

closed-before :
    (n : ℕ) (old : List (ℕ × ℕ)) (reference : Option ℕ) (program : ℕ → Instruction)
    (symbols : ℕ → Symbol)
    → first_of n (second_pass (with_reference n reference old) symbols program)
      ≡ first_of n (second_pass old symbols program)
unfolding second_pass
closed-before n old none program symbols = refl
closed-before n old (some i) program symbols =
    first_of-ext n _ _
      (λ j h. update-ne (second_pass old symbols program) n _ j (λ q. absurd (omega arith)))

module _ (at : List ℕ → ℕ) (start left : ℕ) (pending : List ℕ → Bool) (labels uses : ℕ)
    (out : List Instruction) where
  pub end-runs :
      (old : List (ℕ × ℕ)) (reference : Option ℕ) (a : Arg) (cur : Instruction) (p : Option Atom)
      (tail : List Atom) (s : Asm)
      → IsOpen at start left pending labels uses uses out old reference a cur no_expects s
      → assemble_from p (separator ∷ tail) s ≡ assemble_from (some separator) tail (reset_stacks s)
        × IsAt at start left pending labels uses 0
            (out ++ record cur { src1 = arg_value at a } ∷ [])
            (reset_stacks s)
  unfolding assemble_atom
  end-runs old reference a cur p tail s r =
      let x = record cur { src1 = arg_value at a } in
      let n = length out in
      let len : length (out ++ x ∷ []) ≡ suc n = omega (arith, length-append out (x ∷ [])) in
      let lit : s.expects.lit ≡ false = ap (λ (e : Expects). e.lit) r.expects in
      (
        assemble_from-step p separator tail s (reset_stacks s) (rw lit refl),
        record {
          errors = r.errors;
          operands = omega arith;
          operators = refl;
          expects = r.expects;
          index = r.index ∙ sym len;
          pc = omega (arith, r.pc, len);
          load = r.load;
          room = omega (arith, r.room, len);
          bound = omega (arith, r.bound, len);
          values = r.values;
          table = r.table;
          references = r.references;
          below =
              subst (λ k. Below k s.forward) (sym len)
                (subst (Below (suc n)) (sym r.forward) (closed-Below old reference n r.below));
          laid = λ symbols g.
              ap (λ k. first_of k (second_pass s.forward symbols s.program)) len
              ∙ ap (λ fs. first_of (suc n) (second_pass fs symbols s.program)) r.forward
              ∙ ap
                  (λ is.
                    is ++ second_pass (with_reference n reference old) symbols s.program n ∷ [])
                  (closed-before n old reference s.program symbols ∙ r.laid symbols g)
              ∙ ap (λ i. out ++ i ∷ [])
                  (closed-current at n old reference a cur s.program s.names symbols r.below
                    r.current r.meant g);
        },
      )
