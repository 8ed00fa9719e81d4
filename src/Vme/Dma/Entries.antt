-- ===== src/Vme/Dma/Entries.antt =====
-- The linked list for all the entries of a scatter-gather list.
use ht_drivers.Base.{
  ℕ, suc, ◌+◌, ◌-◌, ◌^◌, ◌<◌, ◌≡◌, refl, sym, ap, Bool, true, false, List, [], ◌∷◌, ◌++◌, ◌==◌, ltb,
  if◌then◌else◌, arith, Option, some, length, length-append, add32,
}
use ht_drivers.Vme.Dma.Types.{VmeDma, HwDescEntry, DmaChannel, Pool, Scatter}
use ht_drivers.Vme.Dma.Chain.{linked, link_to}
use ht_drivers.Vme.Dma.Setup.{Words, link_args, first_cursor, dma_link_add, then_sg, sg_loop}
use ht_drivers.Vme.Dma.Pieces.{Piece, pieces, all_pieces}
use ht_drivers.Vme.Dma.Build.{
  IsDir, piece_entry, holding, blank, chain_of, chain_of-cons, links, links-cons,
}
use ht_drivers.Vme.Dma.Loop.{block_of, fixed_of, IsShift, Appends, loop-Appends, pieces-pos}

module _ {ℓ} {A : Type ℓ} where
  append_nil : (xs : List A) → xs ++ [] ≡ xs
  append_nil [] = refl
  append_nil (x ∷ xs) = ap (λ l. x ∷ l) (append_nil xs)

  append_assoc : (xs ys zs : List A) → (xs ++ ys) ++ zs ≡ xs ++ (ys ++ zs)
  append_assoc [] ys zs = refl
  append_assoc (x ∷ xs) ys zs = ap (λ l. x ∷ l) (append_assoc xs ys zs)

links_more : (ps : List Piece) → links true ps ≡ length ps
unfolding links
links_more [] = refl
links_more (p ∷ []) = refl
links_more (p ∷ q ∷ ps) = ap suc (links_more (q ∷ ps))

-- With the first pieces a chain and an empty block are made, and the other pieces go on from there.
record Joins (k : Pool) (phys_at : ℕ → ℕ) (d : VmeDma) (dsat ddat phys n m : ℕ) (ps qs : List Piece)
    : Type 0 where
  done : List HwDescEntry
  first : chain_of k phys_at d dsat ddat phys n true ps ≡ done ++ blank k phys_at m ∷ []
  whole :
      chain_of k phys_at d dsat ddat phys n false (ps ++ qs)
      ≡ done ++ chain_of k phys_at d dsat ddat (phys_at m) (suc m) false qs
  as_many : length done ≡ length ps
  tried : n + links false (ps ++ qs) ≡ suc m + links false qs

chain_of-Joins :
    (k : Pool) (phys_at : ℕ → ℕ) (d : VmeDma) (dsat ddat phys n m : ℕ) (ps qs : List Piece)
    → 0 < length ps
    → 0 < length qs
    → suc m ≡ n + length ps
    → Joins k phys_at d dsat ddat phys n m ps qs
unfolding chain_of links
chain_of-Joins k phys_at d dsat ddat phys n m [] qs some_p some_q e = absurd (omega arith)
chain_of-Joins k phys_at d dsat ddat phys n m (p ∷ []) qs some_p some_q e =
    let same : m ≡ n = omega arith in
    record {
      done = piece_entry d dsat ddat phys p (link_to (phys_at n)) ∷ [];
      first = rw same refl;
      whole = rw same (chain_of-cons k phys_at d dsat ddat phys n false p qs some_q);
      as_many = refl;
      tried = rw (links-cons false p qs some_q, same) (omega arith);
    }
chain_of-Joins k phys_at d dsat ddat phys n m (p ∷ q ∷ ps) qs some_p some_q e =
    let rest =
      chain_of-Joins k phys_at d dsat ddat (phys_at n) (suc n) m (q ∷ ps) qs (omega arith) some_q
        (omega (arith, e)) in
    let entry = piece_entry d dsat ddat phys p (link_to (phys_at n)) in
    record {
      done = entry ∷ rest.done;
      first = ap (λ l. entry ∷ l) rest.first;
      whole = ap (λ l. entry ∷ l) rest.whole;
      as_many = ap suc rest.as_many;
      tried = omega (arith, rest.tried);
    }

-- No entry is empty, and the VME addresses stay within 32 bits.
abbrev pub Fits : (fixed : Bool) → (vme : ℕ) → List Scatter → Type 0
Fits fixed vme [] = Unit
Fits fixed vme (sg ∷ sgl) =
    (0 < sg.dma_len)
    × (vme + sg.dma_len < 2 ^ 32)
    × Fits fixed (if fixed then vme else vme + sg.dma_len) sgl

all_pieces-pos :
    (block : ℕ) (fixed : Bool) (vme : ℕ) (sgl : List Scatter)
    → Fits fixed vme sgl
    → 0 < length sgl
    → 0 < length (all_pieces block fixed vme sgl)
unfolding all_pieces
all_pieces-pos block fixed vme [] h some_sg = absurd (omega arith)
all_pieces-pos block fixed vme (sg ∷ sgl) (pos, fit, h) some_sg = omega (
  arith,
  length-append (pieces (suc sg.dma_len) block fixed vme sg.dma_address sg.dma_len)
      (all_pieces block fixed (if fixed then vme else vme + sg.dma_len) sgl),
  pieces-pos (suc sg.dma_len) block fixed vme sg.dma_address sg.dma_len (omega arith) pos,
)

-- What the loop on the scatter-gather list leaves.
pub record Chains (k : Pool) (phys_at : ℕ → ℕ) (w : Words) (vme index : ℕ) (sgl : List Scatter)
    (c : DmaChannel) (pre : List HwDescEntry) (e : HwDescEntry) (n : ℕ) : Type 0 where
  pub virt : Option ℕ
  pub runs : sg_loop k w vme index sgl (some (length pre)) (holding c (pre ++ e ∷ []) n) ≡ (
    holding c
        (pre
          ++ chain_of k phys_at c.desc w.dsat w.ddat e.phys n false
              (all_pieces (block_of w.bshift) (fixed_of c.desc) vme sgl))
        (n + links false (all_pieces (block_of w.bshift) (fixed_of c.desc) vme sgl)),
    linked virt,
  )

module _ (k : Pool) (phys_at : ℕ → ℕ)
    (granted : (n : ℕ) → (k.pool_alloc n ≡ some (phys_at n)) × (k.entry_alloc n ≡ true)) where
  -- One entry.
  entry-Appends :
      (w : Words) (vme index : ℕ) (sg : Scatter) (c : DmaChannel) (pre : List HwDescEntry)
      (e : HwDescEntry) (n : ℕ)
      → IsDir c.desc
      → IsShift w.bshift
      → 0 < sg.dma_len
      → vme + sg.dma_len < 2 ^ 32
      → Appends k phys_at
          (link_args w vme index sg)
          (suc sg.dma_len)
          (first_cursor vme sg (length pre))
          c
          pre
          e
          n
          (pieces
            (suc sg.dma_len)
            (block_of w.bshift)
            (fixed_of c.desc)
            vme
            sg.dma_address
            sg.dma_len)
  entry-Appends w vme index sg c pre e n dir shift pos fit =
      loop-Appends k phys_at granted (suc sg.dma_len) sg.dma_len (link_args w vme index sg)
        (first_cursor vme sg (length pre)) c pre e n
        (record {
          dir = dir;
          shift = shift;
          some_left = pos;
          dma = refl;
          vme = ground arith;
          vme_end = ground arith;
          whole = λ _. refl;
        })
        (omega arith) refl

  -- An entry that others follow.
  more-Chains :
      (w : Words) (vme index : ℕ) (sg : Scatter) (sgl : List Scatter) (c : DmaChannel)
      (pre : List HwDescEntry) (e : HwDescEntry) (n m : ℕ) (ps : List Piece)
      → ps
        ≡ pieces
            (suc sg.dma_len)
            (block_of w.bshift)
            (fixed_of c.desc)
            vme
            sg.dma_address
            sg.dma_len
      → n + length ps ≡ suc m
      → suc index < w.numpages
      → vme + sg.dma_len < 2 ^ 32
      → Appends k phys_at
          (link_args w vme index sg)
          (suc sg.dma_len)
          (first_cursor vme sg (length pre))
          c
          pre
          e
          n
          ps
      → (joins : Joins k phys_at c.desc w.dsat w.ddat e.phys n m ps (
          all_pieces
            (block_of w.bshift)
            (fixed_of c.desc)
            (if fixed_of c.desc then vme else vme + sg.dma_len)
            sgl))
      → Chains k phys_at w
          (if fixed_of c.desc then vme else vme + sg.dma_len)
          (suc index)
          sgl
          c
          (pre ++ joins.done)
          (blank k phys_at m)
          (suc m)
      → Chains k phys_at w vme index (sg ∷ sgl) c pre e n
  unfolding sg_loop dma_link_add then_sg all_pieces
  more-Chains w vme index sg sgl c pre e n m ps laid made more fit one joins rest =
      let vme2 = if fixed_of c.desc then vme else vme + sg.dma_len in
      let qs = all_pieces (block_of w.bshift) (fixed_of c.desc) vme2 sgl in
      let go : ltb (suc index) w.numpages ≡ true = ground arith in
      let here : length pre + length ps ≡ length (pre ++ joins.done) =
        omega (arith, length-append pre joins.done, joins.as_many) in
      let moved : (if c.desc.novmeinc == 0 then add32 vme sg.dma_len else vme) ≡ vme2 =
        ground arith in
      record {
        virt = rest.virt;
        runs =
            rw
              (
                one.runs,
                go,
                one.next go,
                moved,
                links_more ps,
                made,
                here,
                joins.first,
                sym (append_assoc pre joins.done (blank k phys_at m ∷ [])),
                rest.runs,
                sym laid,
                joins.whole,
                joins.tried,
                append_assoc pre joins.done
                    (chain_of k phys_at c.desc w.dsat w.ddat (phys_at m) (suc m) false qs),
              )
              refl;
      }

  pub sg_loop-Chains :
      (w : Words) (vme index : ℕ) (sgl : List Scatter) (c : DmaChannel) (pre : List HwDescEntry)
      (e : HwDescEntry) (n : ℕ)
      → IsDir c.desc
      → IsShift w.bshift
      → 0 < length sgl
      → index + length sgl ≡ w.numpages
      → Fits (fixed_of c.desc) vme sgl
      → Chains k phys_at w vme index sgl c pre e n
  unfolding sg_loop dma_link_add then_sg all_pieces
  sg_loop-Chains w vme index [] c pre e n dir shift some_sg count fits = absurd (omega arith)
  sg_loop-Chains w vme index (sg ∷ []) c pre e n dir shift some_sg count (pos, fit, fits) =
      let one = entry-Appends w vme index sg c pre e n dir shift pos fit in
      let last : ltb (suc index) w.numpages ≡ false = ground arith in
      record {
        virt = one.virt;
        runs =
            rw
              (
                one.runs,
                last,
                append_nil (
                    pieces (suc sg.dma_len) (block_of w.bshift) (fixed_of c.desc) vme sg.dma_address
                      sg.dma_len),
              )
              refl;
      }
  sg_loop-Chains w vme index (sg ∷ sg2 ∷ sgl) c pre e n dir shift some_sg count (pos, fit, fits) =
      let one = entry-Appends w vme index sg c pre e n dir shift pos fit in
      let ps =
        pieces (suc sg.dma_len) (block_of w.bshift) (fixed_of c.desc) vme sg.dma_address
          sg.dma_len in
      let vme2 = if fixed_of c.desc then vme else vme + sg.dma_len in
      let qs = all_pieces (block_of w.bshift) (fixed_of c.desc) vme2 (sg2 ∷ sgl) in
      let some_p =
        pieces-pos (suc sg.dma_len) (block_of w.bshift) (fixed_of c.desc) vme sg.dma_address
          sg.dma_len (omega arith) pos in
      let m = n + length ps - 1 in
      let made : n + length ps ≡ suc m = omega (arith, some_p) in
      let joins =
        chain_of-Joins k phys_at c.desc w.dsat w.ddat e.phys n m ps qs some_p
          (all_pieces-pos (block_of w.bshift) (fixed_of c.desc) vme2 (sg2 ∷ sgl) fits (omega arith))
          (sym made) in
      let rest =
        sg_loop-Chains w vme2 (suc index) (sg2 ∷ sgl) c (pre ++ joins.done) (blank k phys_at m)
          (suc m) dir shift (omega arith) (omega (arith, count)) fits in
      more-Chains w vme index sg (sg2 ∷ sgl) c pre e n m ps refl made (omega arith) fit one joins
        rest
