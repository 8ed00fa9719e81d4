-- ===== src/Mttn/Asm/Writes.antt =====
-- What an op code and an argument write, in mttn/tools/asm.c.
use ht_drivers.Base.{
  ℕ, suc, ◌≤◌, ◌<◌, ◌≡◌, refl, sym, ap, ◌∙◌, Bool, true, Option, none, some, List, ◌∷◌, ltb, length,
  arith, update, update_self, update-ne, lt→ltb,
}
use ht_drivers.Mttn.Types.{Instruction, Op}
use ht_drivers.Mttn.Asm.Atom.{Atom, op_code, get_confirm}
use ht_drivers.Mttn.Asm.Assemble.{
  Asm, Expects, index_from, at_op_code, assemble_atom, assemble_from, new_inst, blank_of,
  expects_of, set_inst,
}
use ht_drivers.Mttn.Asm.Labels.{assemble_from-step}
use ht_drivers.Mttn.Asm.Source.{Arg, no_arg}
use ht_drivers.Mttn.Asm.Fixups.{Below, second_pass-ext, first_of-ext}
use ht_drivers.Mttn.Asm.Invariant.{IsAt, IsOpen, IsLaid, Means}

-- What is written from an instruction on, and names that are added, leave those before as they are.
write-IsLaid :
    (at : List ℕ → ℕ) (out : List Instruction) (old : List (ℕ × ℕ)) (s s' : Asm)
    → IsLaid at out old s
    → Below (length out) old
    → ((n : List ℕ) (k : ℕ) → index_from 0 s.names n ≡ some k → index_from 0 s'.names n ≡ some k)
    → ((j : ℕ) → j < length out → s'.program j ≡ s.program j)
    → IsLaid at out old s'
write-IsLaid at out old s s' laid b kept same symbols agrees =
    first_of-ext (length out) _ _
      (second_pass-ext old symbols s'.program s.program (length out) b same)
    ∙ laid symbols (λ n k e. agrees n k (kept n k e))

module _ (at : List ℕ → ℕ) (start left : ℕ) (pending : List ℕ → Bool) (labels : ℕ)
    (out : List Instruction) where
  pub op-IsOpen :
      (o : Op) (uses : ℕ) (s : Asm)
      → IsAt at start (suc left) pending labels uses 1 out s
      → IsOpen at start left pending labels uses uses out s.forward none no_arg
          (blank_of o)
          (expects_of o)
          (new_inst o s)
  op-IsOpen o uses s r = record {
    errors = r.errors;
    operators = r.operators;
    expects = refl;
    inst = r.index;
    index = ap suc r.index;
    pc = omega (arith, r.pc, r.bound);
    load = r.load;
    room = omega (arith, r.room);
    bound = omega (arith, r.bound);
    values = r.values;
    table = r.table;
    forward = refl;
    references = r.references;
    below = r.below;
    laid =
        write-IsLaid at out s.forward s (new_inst o s) r.laid r.below (λ n k e. e)
          (λ j h.
            update-ne s.program s.index (blank_of o) j (λ q. absurd (omega (arith, r.index))));
    current =
        ap (update s.program s.index (blank_of o)) (sym r.index)
        ∙ update_self s.program s.index (blank_of o);
    meant = refl;
  }

  pub op-runs :
      (o : Op) (uses : ℕ) (p : Option Atom) (tail : List Atom) (s : Asm)
      → IsAt at start (suc left) pending labels uses 1 out s
      → get_confirm o tail ≡ true
      → assemble_from p (op_code o ∷ tail) s ≡ assemble_from (some (op_code o)) tail (new_inst o s)
  unfolding assemble_atom at_op_code
  op-runs o uses p tail s r c =
      let room : ltb s.index s.room ≡ true = lt→ltb _ _ (omega (arith, r.room, r.index)) in
      assemble_from-step p (op_code o) tail s (new_inst o s) (rw (room, c) refl)

  -- A field of the instruction is written, and a flag goes down.
  pub write-IsOpen :
      (uses refs refs' : ℕ) (old : List (ℕ × ℕ)) (reference : Option ℕ) (a a' : Arg)
      (cur : Instruction) (flags flags' e : Expects) (f : Instruction → Instruction) (s : Asm)
      → IsOpen at start left pending labels uses refs out old reference a cur flags s
      → refs' ≤ refs
      → Means at s.names a' (f cur).src1 reference
      → e ≡ flags'
      → IsOpen at start left pending labels uses refs' out old reference a'
          (f cur)
          flags'
          (set_inst f (record s { expects = e }))
  write-IsOpen uses refs refs' old reference a a' cur flags flags' e f s r le m q = record {
    errors = r.errors;
    operators = r.operators;
    expects = q;
    inst = r.inst;
    index = r.index;
    pc = r.pc;
    load = r.load;
    room = r.room;
    bound = r.bound;
    values = r.values;
    table = r.table;
    forward = r.forward;
    references = omega (arith, r.references);
    below = r.below;
    laid =
        write-IsLaid at out old s (set_inst f (record s { expects = e })) r.laid r.below
          (λ n k e. e)
          (λ j h. update-ne s.program s.inst _ j (λ q. absurd (omega (arith, r.inst))));
    current =
        ap (update s.program s.inst (f (s.program s.inst))) (sym r.inst)
        ∙ update_self s.program s.inst (f (s.program s.inst))
        ∙ ap f (ap s.program r.inst ∙ r.current);
    meant = m;
  }
