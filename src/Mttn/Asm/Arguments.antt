-- ===== src/Mttn/Asm/Arguments.antt =====
-- The first argument of a line in mttn/tools/asm.c.
use ht_drivers.Base.{
  ℕ, suc, ◌<◌, ◌≡◌, refl, sym, ap, subst, ◌∙◌, Bool, true, false, Option, none, some, List, ◌∷◌,
  if◌then◌else◌, ◌==◌, length, arith, inl, inr, Bool-cases, ==_iff,
}
use ht_drivers.Mttn.Types.{Instruction}
use ht_drivers.Mttn.Asm.Expression.{Symbol}
use ht_drivers.Mttn.Asm.Atom.{Atom, numeric, alpha, register}
use ht_drivers.Mttn.Asm.Assemble.{
  Asm, Expects, Progress, going, index_from, at_alpha, at_numeric, at_register, assemble_atom,
  assemble_from, name_used, set_src1, drop_lit,
}
use ht_drivers.Mttn.Asm.Names.{IsFound, with_table, get_symbol-goes, value_at}
use ht_drivers.Mttn.Asm.Labels.{assemble_from-step}
use ht_drivers.Mttn.Asm.Source.{Arg, no_arg, number, label, reg, arg_atoms, uses_with}
use ht_drivers.Mttn.Asm.Invariant.{IsOpen}
use ht_drivers.Mttn.Asm.Writes.{write-IsOpen}

abbrev pub given_src1 : ℕ → Instruction → Instruction
given_src1 v i = record i { src1 = v }

abbrev pub after_src1 : Expects → Expects
after_src1 e = record e { lit = false; sr1 = false }

abbrev pub is_literal : Arg → Bool
is_literal (number v) = true
is_literal (label n) = true
is_literal a = false

abbrev pub is_reg : Arg → Bool
is_reg (reg r) = true
is_reg a = false

after_none :
    (e flags : Expects) → e ≡ flags → flags.lit ≡ false → flags.sr1 ≡ false → e ≡ after_src1 flags
after_none e flags q l r = ground arith

after_lit :
    (e flags : Expects)
    → e ≡ flags
    → flags.sr1 ≡ false
    → record e { lit = false } ≡ after_src1 flags
after_lit e flags q r = ground arith

after_reg :
    (e flags : Expects)
    → e ≡ flags
    → flags.lit ≡ false
    → record e { sr1 = false } ≡ after_src1 flags
after_reg e flags q l = ground arith

module _ (at : List ℕ → ℕ) (start left : ℕ) (pending : List ℕ → Bool) (labels : ℕ)
    (out : List Instruction) where
  -- A name is found, or added.
  found-IsOpen :
      (uses refs : ℕ) (old : List (ℕ × ℕ)) (cur : Instruction) (flags : Expects) (name : List ℕ)
      (s : Asm) (i : ℕ) (names : List (List ℕ)) (symbols : ℕ → Symbol)
      → IsOpen at start left pending labels (suc uses) refs out old none no_arg cur flags s
      → IsFound s.names s.stacks.symbols name names symbols i
      → IsOpen at start left pending labels uses refs out old none no_arg cur flags
          (with_table names symbols s)
  found-IsOpen uses refs old cur flags name s i names symbols r f = record {
    errors = r.errors;
    operators = r.operators;
    expects = r.expects;
    inst = r.inst;
    index = r.index;
    pc = r.pc;
    load = r.load;
    room = r.room;
    bound = r.bound;
    values = λ n. f.same n ∙ r.values n;
    table = omega (arith, r.table, f.longer);
    forward = r.forward;
    references = r.references;
    below = r.below;
    laid = λ symbols' a. r.laid symbols' (λ n k e. a n k (f.kept n k e));
    current = r.current;
    meant = r.meant;
  }

  refer-IsOpen :
      (uses refs : ℕ) (old : List (ℕ × ℕ)) (cur : Instruction) (flags : Expects) (name : List ℕ)
      (s : Asm) (i : ℕ)
      → IsOpen at start left pending labels uses (suc refs) out old none no_arg cur flags s
      → index_from 0 s.names name ≡ some i
      → IsOpen at start left pending labels uses refs out old
          (some i)
          (label name)
          cur
          flags
          (record s { forward = (s.inst, i) ∷ s.forward })
  refer-IsOpen uses refs old cur flags name s i r h = record {
    errors = r.errors;
    operators = r.operators;
    expects = r.expects;
    inst = r.inst;
    index = r.index;
    pc = r.pc;
    load = r.load;
    room = r.room;
    bound = r.bound;
    values = r.values;
    table = r.table;
    forward = rw (r.inst, r.forward) refl;
    references = omega (arith, r.references);
    below = r.below;
    laid = r.laid;
    current = r.current;
    meant = (name, refl, h);
  }

  -- What the first argument leads to.
  abbrev pub Led :
      (uses : ℕ) (old : List (ℕ × ℕ)) (a : Arg) (cur : Instruction) (flags : Expects)
      (tail : List Atom)
      → Progress
      → Type 0
  Led uses old a cur flags tail run =
      (p' : Option Atom) × (s' : Asm) × (v : ℕ) × (reference : Option ℕ) × run
        ≡ assemble_from p' tail s'
      × IsOpen at start left pending labels uses uses out old reference a (given_src1 v cur)
          (after_src1 flags) s'

  forward_used :
      (i : ℕ) (s : Asm)
      → s.expects.lit ≡ true
      → (s.stacks.symbols i).value ≡ 0
      → suc (length s.forward) < 100
      → let s1 = drop_lit (set_src1 (s.stacks.symbols i).value s) in
        name_used i s ≡ going (record s1 { forward = (s.inst, i) ∷ s.forward })
  forward_used i s l z b = ground arith

  backward_used :
      (i : ℕ) (s : Asm)
      → s.expects.lit ≡ true
      → ((s.stacks.symbols i).value == 0) ≡ false
      → name_used i s ≡ going (drop_lit (set_src1 (s.stacks.symbols i).value s))
  backward_used i s l z = ground arith

  name_used-Led :
      (uses : ℕ) (old : List (ℕ × ℕ)) (cur : Instruction) (flags : Expects) (n : List ℕ)
      (tail : List Atom) (s : Asm) (i : ℕ)
      → IsOpen at start left pending labels uses (suc uses) out old none no_arg cur flags s
      → index_from 0 s.names n ≡ some i
      → flags.lit ≡ true
      → flags.sr1 ≡ false
      → (s' : Asm) × (v : ℕ) × (reference : Option ℕ) × name_used i s ≡ going s'
        × IsOpen at start left pending labels uses uses out old reference
            (label n)
            (given_src1 v cur)
            (after_src1 flags)
            s'
  name_used-Led uses old cur flags n tail s i r here l q =
      let v = (s.stacks.symbols i).value in
      let lit : s.expects.lit ≡ true = ap (λ (e : Expects). e.lit) r.expects ∙ l in
      let e = record (s.expects) { lit = false } in
      let next = after_lit s.expects flags r.expects q in
      elim (Bool-cases (v == 0)) [
        | inl z ↦
            let zero_value : v ≡ 0 = (==_iff v 0).0 z in
            let w =
              write-IsOpen at start left pending labels out uses (suc uses) (suc uses) old none
                no_arg no_arg cur flags (after_src1 flags) e (given_src1 v) s r (omega arith)
                zero_value next in
            (
              record (drop_lit (set_src1 v s)) { forward = (s.inst, i) ∷ s.forward },
              v,
              some i,
              forward_used i s lit zero_value (omega (arith, r.references)),
              refer-IsOpen uses uses old (given_src1 v cur) (after_src1 flags) n
                  (drop_lit (set_src1 v s)) i w here,
            )
        | inr z ↦
            let value : v ≡ (if pending n then 0 else at n) =
              ap (value_at s.stacks.symbols) (sym here) ∙ r.values n in
            let meant : v ≡ at n = ground arith in
            (
              drop_lit (set_src1 v s),
              v,
              none,
              backward_used i s lit z,
              write-IsOpen at start left pending labels out uses (suc uses) uses old none no_arg
                  (label n) cur flags (after_src1 flags) e (given_src1 v) s r (omega arith) meant
                  next,
            )
      ]

  pub arg-Led :
      (a : Arg) (uses : ℕ) (p : Option Atom) (tail : List Atom) (old : List (ℕ × ℕ))
      (cur : Instruction) (flags : Expects) (s : Asm)
      → IsOpen at start left pending labels
          (uses_with a uses)
          (uses_with a uses)
          out
          old
          none
          no_arg
          cur
          flags
          s
      → flags.lit ≡ is_literal a
      → flags.sr1 ≡ is_reg a
      → Led uses old a cur flags tail (assemble_from p (arg_atoms a tail) s)
  unfolding assemble_atom at_numeric at_register at_alpha
  arg-Led no_arg uses p tail old cur flags s r l q = (
    p,
    s,
    cur.src1,
    none,
    refl,
    subst (λ g. IsOpen at start left pending labels uses uses out old none no_arg cur g s)
        (after_none flags flags refl l q) r,
  )
  arg-Led (number v) uses p tail old cur flags s r l q =
      let lit : s.expects.lit ≡ true = ap (λ (e : Expects). e.lit) r.expects ∙ l in
      (
        some (numeric v),
        drop_lit (set_src1 v s),
        v,
        none,
        assemble_from-step p (numeric v) tail s (drop_lit (set_src1 v s)) (rw lit refl),
        write-IsOpen at start left pending labels out uses uses uses old none no_arg (number v) cur
            flags (after_src1 flags) (record (s.expects) { lit = false }) (given_src1 v) s r
            (omega arith) refl (after_lit s.expects flags r.expects q),
      )
  arg-Led (reg v) uses p tail old cur flags s r l q =
      let sr1 : s.expects.sr1 ≡ true = ap (λ (e : Expects). e.sr1) r.expects ∙ q in
      let s' = set_src1 v (record s { expects = record (s.expects) { sr1 = false } }) in
      (
        some (register v),
        s',
        v,
        none,
        assemble_from-step p (register v) tail s s' (rw sr1 refl),
        write-IsOpen at start left pending labels out uses uses uses old none no_arg (reg v) cur
            flags (after_src1 flags) (record (s.expects) { sr1 = false }) (given_src1 v) s r
            (omega arith) refl (after_reg s.expects flags r.expects l),
      )
  arg-Led (label n) uses p tail old cur flags s r l q =
      let (i, names, symbols, f, g) = get_symbol-goes n name_used s (omega (arith, r.table)) in
      let t = with_table names symbols s in
      let (s', v, reference, runs, opened) =
        name_used-Led uses old cur flags n tail t i
          (found-IsOpen uses (suc uses) old cur flags n s i names symbols r f) f.here l q in
      (
        some (alpha n),
        s',
        v,
        reference,
        assemble_from-step p (alpha n) tail s s' (g ∙ runs),
        opened,
      )
