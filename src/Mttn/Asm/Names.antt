-- ===== src/Mttn/Asm/Names.antt =====
-- The symbol table of mttn/tools/asm.c: GetSymbol finds a name or adds it, and no value changes.
use ht_drivers.Base.{
  ℕ, suc, ◌+◌, ◌≤◌, ◌<◌, ◌≡◌, ◌≢◌, refl, sym, ap, ◌∙◌, inl, inr, true, Option, none, some, List, [],
  ◌∷◌, ◌++◌, if◌then◌else◌, arith, update, length, length-append, Option-cases, Bool-cases,
}
use mathlib.Core.Bool.{false≢true}
use ht_drivers.Mttn.Regs.{same_text}
use ht_drivers.Mttn.Asm.Expression.{Symbol}
use ht_drivers.Mttn.Asm.Assemble.{Asm, Progress, index_from, get_symbol, blank_symbol, symbols_max}

pub same_text_refl : (a : List ℕ) → same_text a a ≡ true
unfolding same_text
same_text_refl [] = refl
same_text_refl (x ∷ a) = ground (arith, same_text_refl a)

pub same_text-eq : (a b : List ℕ) → same_text a b ≡ true → a ≡ b
unfolding same_text
same_text-eq [] [] h = refl
same_text-eq [] (y ∷ b) h = ground arith
same_text-eq (x ∷ a) [] h = ground arith
same_text-eq (x ∷ a) (y ∷ b) h = ground (arith, same_text-eq a b)

-- Where a name is, it stays, and a new one comes after all others.
pub index_from-append :
    (i : ℕ) (ns : List (List ℕ)) (m name : List ℕ) (k : ℕ)
    → index_from i ns name ≡ some k
    → index_from i (ns ++ m ∷ []) name ≡ some k
unfolding index_from
index_from-append i [] m name k h = ground arith
index_from-append i (n ∷ ns) m name k h = ground (arith, index_from-append (suc i) ns m name k)

pub index_from-new :
    (i : ℕ) (ns : List (List ℕ)) (m name : List ℕ)
    → index_from i ns name ≡ none
    → index_from i (ns ++ m ∷ []) name ≡ (if same_text name m then some (i + length ns) else none)
unfolding index_from
index_from-new i [] m name h = ground arith
index_from-new i (n ∷ ns) m name h = ground (arith, index_from-new (suc i) ns m name)

pub index_from-lt :
    (i : ℕ) (ns : List (List ℕ)) (name : List ℕ) (k : ℕ)
    → index_from i ns name ≡ some k
    → i ≤ k × k < i + length ns
unfolding index_from
index_from-lt i [] name k h = ground arith
index_from-lt i (n ∷ ns) name k h = ground (arith, index_from-lt (suc i) ns name k)

pub index_from-injective :
    (i : ℕ) (ns : List (List ℕ)) (a b : List ℕ) (k : ℕ)
    → index_from i ns a ≡ some k
    → index_from i ns b ≡ some k
    → a ≡ b
unfolding index_from
index_from-injective i [] a b k h g = ground arith
index_from-injective i (n ∷ ns) a b k h g = ground (
  arith,
  same_text-eq a n,
  same_text-eq b n,
  index_from-lt (suc i) ns a k,
  index_from-lt (suc i) ns b k,
  index_from-injective (suc i) ns a b k,
)

-- The value of a name, 0 without an entry.
abbrev pub value_at : (ℕ → Symbol) → Option ℕ → ℕ
value_at symbols none = 0
value_at symbols (some i) = (symbols i).value

abbrev pub value_in : List (List ℕ) → (ℕ → Symbol) → (name : List ℕ) → ℕ
value_in names symbols name = value_at symbols (index_from 0 names name)

-- What a look-up of a name leaves.
pub record IsFound (names : List (List ℕ)) (symbols : ℕ → Symbol) (name : List ℕ)
    (names' : List (List ℕ)) (symbols' : ℕ → Symbol) (i : ℕ) : Type 0 where
  pub here : index_from 0 names' name ≡ some i
  pub kept : (m : List ℕ) (k : ℕ) → index_from 0 names m ≡ some k → index_from 0 names' m ≡ some k
  pub same : (m : List ℕ) → value_in names' symbols' m ≡ value_in names symbols m
  pub longer : length names' ≤ suc (length names)

old-IsFound :
    (names : List (List ℕ)) (symbols : ℕ → Symbol) (name : List ℕ) (i : ℕ)
    → index_from 0 names name ≡ some i
    → IsFound names symbols name names symbols i
old-IsFound names symbols name i h = record {
  here = h;
  kept = λ m k e. e;
  same = λ m. refl;
  longer = omega arith;
}

new-same :
    (names : List (List ℕ)) (symbols : ℕ → Symbol) (name m : List ℕ)
    → index_from 0 names name ≡ none
    → value_in (names ++ name ∷ []) (update symbols (length names) blank_symbol) m
      ≡ value_in names symbols m
new-same names symbols name m h = elim (Option-cases (index_from 0 names m)) [
  | inl e ↦ ground (arith, index_from-new 0 names name m e)
  | inr (k, e) ↦ ground (arith, index_from-append 0 names name m k e, index_from-lt 0 names m k e)
]

new-IsFound :
    (names : List (List ℕ)) (symbols : ℕ → Symbol) (name : List ℕ)
    → index_from 0 names name ≡ none
    → IsFound names symbols name
        (names ++ name ∷ [])
        (update symbols (length names) blank_symbol)
        (length names)
new-IsFound names symbols name h = record {
  here = index_from-new 0 names name name h ∙ rw (same_text_refl name) (ground arith);
  kept = λ m k e. index_from-append 0 names name m k e;
  same = λ m. new-same names symbols name m h;
  longer = omega (arith, length-append names (name ∷ []));
}

abbrev pub with_table : List (List ℕ) → (ℕ → Symbol) → Asm → Asm
with_table names symbols s = record s {
  names = names;
  stacks = record (s.stacks) { symbols = symbols };
}

-- With room in the table, GetSymbol goes on with an index of the name.
pub get_symbol-goes :
    (name : List ℕ) (go : ℕ → Asm → Progress) (s : Asm)
    → length s.names < symbols_max
    → (i : ℕ) × (names' : List (List ℕ)) × (symbols' : ℕ → Symbol) × IsFound s.names
        s.stacks.symbols name names' symbols' i
      × get_symbol name go s ≡ go i (with_table names' symbols' s)
unfolding get_symbol
get_symbol-goes name go s b = elim (Option-cases (index_from 0 s.names name)) [
  | inl e ↦ (
    length s.names,
    s.names ++ name ∷ [],
    update s.stacks.symbols (length s.names) blank_symbol,
    new-IsFound s.names s.stacks.symbols name e,
    rw e (ground arith),
  )
  | inr (i, e) ↦
      (i, s.names, s.stacks.symbols, old-IsFound s.names s.stacks.symbols name i e, rw e refl)
]

-- A name that is in the table is found there.
pub get_symbol_here :
    (name : List ℕ) (go : ℕ → Asm → Progress) (s : Asm) (i : ℕ)
    → index_from 0 s.names name ≡ some i
    → get_symbol name go s ≡ go i s
unfolding get_symbol
get_symbol_here name go s i e = rw e refl

-- A new value of one name is that of no other.
pub value_in-update :
    (names : List (List ℕ)) (symbols : ℕ → Symbol) (name : List ℕ) (i : ℕ) (v : Symbol) (m : List ℕ)
    → index_from 0 names name ≡ some i
    → value_in names (update symbols i v) m
      ≡ (if same_text m name then v.value else value_in names symbols m)
value_in-update names symbols name i v m h = elim (Bool-cases (same_text m name)) [
  | inl e ↦
      let found : index_from 0 names m ≡ some i =
        ap (index_from 0 names) (same_text-eq m name e) ∙ h in
      rw (found, e) (ground arith)
  | inr e ↦ elim (Option-cases (index_from 0 names m)) [
    | inl g ↦ rw (g, e) refl
    | inr (k, g) ↦
        let other : k ≢ i = λ q.
          (false≢true (
            sym e
            ∙ ap (λ t. same_text t name) (index_from-injective 0 names m name i (g ∙ ap some q) h)
            ∙ same_text_refl name)) in
        rw (g, e) (ground arith)
  ]
]
