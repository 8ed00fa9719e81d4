-- ===== src/Vme/Dma/Loop.antt =====
-- The loop of `tsi148_dma_link_add` appends the chain of the pieces.
use ht_drivers.Base.{
  ℕ, zero, suc, ◌+◌, ◌-◌, ◌^◌, ◌≤◌, ◌<◌, ◌≡◌, ◌≢◌, ◌⊎◌, inl, inr, refl, sym, ap, ◌∙◌, Bool, true,
  false, not, List, [], ◌∷◌, ◌++◌, ◌==◌, ltb, if◌then◌else◌, arith, Bool-cases, Option, some,
  length,
}
use ht_drivers.Vme.Dma.Types.{VmeDma, HwDescEntry, DmaChannel, Pool}
use ht_drivers.Vme.Dma.Chain.{
  Link, Cursor, linked, last_link, link_to, chunk_len, advance, link_round, after_round, at_pointer,
  link_loop,
}
use ht_drivers.Vme.Dma.Pieces.{Piece, piece_len, pieces, pieces-done, piece_len-bounds}
use ht_drivers.Vme.Dma.Build.{
  IsDir, append_snoc, length_snoc, piece_entry, piece_at, holding, blank, chain_of, chain_of-cons,
  links, links-cons, round_more, round_last,
}

-- The block that must not be crossed, 0 if there is none, and whether the VME address stays.
abbrev pub block_of : ℕ → ℕ
block_of bshift = if bshift == 0 then 0 else 2 ^ bshift

abbrev pub fixed_of : VmeDma → Bool
fixed_of d = not (d.novmeinc == 0)

abbrev pub IsShift : ℕ → Type 0
IsShift b = (b ≡ 0) ⊎ (b ≡ 8) ⊎ (b ≡ 11)

-- `left` bytes are to be moved.
pub record HasLeft (a : Link) (d : VmeDma) (s : Cursor) (left : ℕ) : Type 0 where
  pub dir : IsDir d
  pub shift : IsShift a.bshift
  pub some_left : 0 < left
  pub dma : s.dma + left ≡ a.dma_end
  pub vme :
      ((d.novmeinc ≡ 0) × (s.vme + left ≡ a.vme_end)) ⊎ ((d.novmeinc ≢ 0) × (s.vme < a.vme_end))
  pub vme_end : a.vme_end < 2 ^ 32
  pub whole : (a.bshift ≡ 0) → s.len ≡ left

loop_exit :
    (k : Pool) (a : Link) (f : ℕ) (s : Cursor) (c : DmaChannel)
    → 0 < f
    → ltb s.dma a.dma_end ≡ false
    → link_loop k a f s c ≡ (c, linked s.next)
unfolding link_loop
loop_exit k a zero s c h e = absurd (omega arith)
loop_exit k a (suc f) s c h e = ground arith

loop_step :
    (k : Pool) (a : Link) (f : ℕ) (s : Cursor) (c : DmaChannel) (curr : ℕ)
    → s.curr ≡ some curr
    → ltb s.vme a.vme_end ≡ true
    → ltb s.dma a.dma_end ≡ true
    → link_loop k a (suc f) s c ≡ after_round (link_loop k a f) (link_round k a curr s c)
unfolding link_loop at_pointer
loop_step k a f s c curr p q r = rw (q, r, p) refl

advance-dma : (d : VmeDma) (len : ℕ) (s : Cursor) → (advance d len s).dma ≡ s.dma + len
unfolding advance
advance-dma d len s = refl

module _ (a : Link) (d : VmeDma) (s : Cursor) (left : ℕ) (h : HasLeft a d s left) where
  pub chunk_len-piece_len : chunk_len a s ≡ piece_len (block_of a.bshift) s.vme left
  unfolding chunk_len piece_len
  chunk_len-piece_len = elim h.shift [
    | inl e ↦ let w = h.whole e in let q = h.dma in rw e (ground arith)
    | inr (inl e) ↦ let q = h.dma in rw e (ground arith)
    | inr (inr e) ↦ let q = h.dma in rw e (ground arith)
  ]

  -- Without bounds a chunk is all that is left.
  pub not_cut : chunk_len a s < left → a.bshift ≢ 0
  unfolding chunk_len
  not_cut less z =
      let w = h.whole z in
      let q = h.dma in let same : chunk_len a s ≡ left = rw z (ground arith) in omega arith

  pub goes_on : (ltb s.vme a.vme_end ≡ true) × (ltb s.dma a.dma_end ≡ true)
  goes_on = let p = h.dma in let q = h.vme in let r = h.some_left in ground arith

  pub advance-vme :
      (len : ℕ) → len ≤ left → (advance d len s).vme ≡ (if fixed_of d then s.vme else s.vme + len)
  unfolding advance
  advance-vme len le = let p = h.vme in let q = h.vme_end in ground arith

  pub advance-HasLeft :
      (len : ℕ) (virt : Option ℕ)
      → 0 < len
      → len < left
      → a.bshift ≢ 0
      → HasLeft a d (record (advance d len s) { curr = virt; next = virt }) (left - len)
  unfolding advance
  advance-HasLeft len virt pos lt sh = record {
    dir = h.dir;
    shift = h.shift;
    some_left = omega arith;
    dma = let p = h.dma in omega arith;
    vme = let p = h.vme in let q = h.vme_end in ground arith;
    vme_end = h.vme_end;
    whole = λ e. absurd (sh e);
  }

-- What the loop leaves, for these pieces.
pub record Appends (k : Pool) (phys_at : ℕ → ℕ) (a : Link) (f : ℕ) (s : Cursor) (c : DmaChannel)
    (pre : List HwDescEntry) (e : HwDescEntry) (n : ℕ) (ps : List Piece) : Type 0 where
  pub virt : Option ℕ
  pub runs : link_loop k a f s (holding c (pre ++ e ∷ []) n) ≡ (
    holding c
        (pre ++ chain_of k phys_at c.desc a.dsat a.ddat e.phys n (ltb (suc a.index) a.numpages) ps)
        (n + links (ltb (suc a.index) a.numpages) ps),
    linked virt,
  )
  pub next : ltb (suc a.index) a.numpages ≡ true → virt ≡ some (length pre + length ps)

module _ (k : Pool) (phys_at : ℕ → ℕ)
    (granted : (n : ℕ) → (k.pool_alloc n ≡ some (phys_at n)) × (k.entry_alloc n ≡ true)) where
  -- The last piece.
  ends_here :
      (f left : ℕ) (a : Link) (s : Cursor) (c : DmaChannel) (pre : List HwDescEntry)
      (e : HwDescEntry) (n : ℕ)
      → HasLeft a c.desc s left
      → 0 < f
      → s.curr ≡ some (length pre)
      → chunk_len a s ≡ left
      → Appends k phys_at a (suc f) s c pre e n (piece_at a s ∷ [])
  unfolding after_round chain_of links advance
  ends_here f left a s c pre e n h pos at whole =
      let (p, q) = goes_on a c.desc s left h in
      let dma = h.dma in
      let over : ltb (s.dma + chunk_len a s) a.dma_end ≡ false = ground arith in
      let entry = piece_entry c.desc a.dsat a.ddat e.phys (piece_at a s) in
      let moved : Cursor = advance c.desc (chunk_len a s) s in
      elim (Bool-cases (ltb (suc a.index) a.numpages)) [
        | inl more ↦
            let one : n + 1 ≡ suc n = omega arith in
            let word = link_to (phys_at n) in
            record {
              virt = some (suc (length pre));
              runs =
                  loop_step k a f s _ (length pre) at p q
                  ∙ rw
                      (
                        round_more k phys_at granted a s c pre e n h.dir (ground arith),
                        loop_exit k a f
                            (record moved {
                              curr = some (suc (length pre));
                              next = some (suc (length pre));
                            })
                            (holding c ((pre ++ entry word ∷ []) ++ blank k phys_at n ∷ []) (suc n))
                            pos over,
                        append_snoc pre (blank k phys_at n ∷ []) (entry word),
                        more,
                        one,
                      )
                      refl;
              next = λ _. ground arith;
            }
        | inr more ↦
            let none_more : n + 0 ≡ n = omega arith in
            record {
              virt = s.next;
              runs =
                  loop_step k a f s _ (length pre) at p q
                  ∙ rw
                      (
                        round_last k phys_at granted a s c pre e n h.dir (ground arith),
                        loop_exit k a f (record moved { curr = s.next })
                            (holding c (pre ++ entry last_link ∷ []) n) pos over,
                        more,
                        none_more,
                      )
                      refl;
              next = λ e. cc;
            }
      ]

  -- A piece that others follow.
  goes_on_here :
      (f left : ℕ) (a : Link) (s : Cursor) (c : DmaChannel) (pre : List HwDescEntry)
      (e : HwDescEntry) (n : ℕ) (ps : List Piece)
      → HasLeft a c.desc s left
      → s.curr ≡ some (length pre)
      → chunk_len a s < left
      → 0 < length ps
      → Appends k phys_at a f
          (record (advance c.desc (chunk_len a s) s) {
            curr = some (suc (length pre));
            next = some (suc (length pre));
          })
          c
          (pre ++ piece_entry c.desc a.dsat a.ddat e.phys (piece_at a s) (link_to (phys_at n)) ∷ [])
          (blank k phys_at n)
          (suc n)
          ps
      → Appends k phys_at a (suc f) s c pre e n (piece_at a s ∷ ps)
  unfolding after_round advance
  goes_on_here f left a s c pre e n ps h at more some_ps rest =
      let (p, q) = goes_on a c.desc s left h in
      let dma = h.dma in
      let entry = piece_entry c.desc a.dsat a.ddat e.phys (piece_at a s) (link_to (phys_at n)) in
      let all = ltb (suc a.index) a.numpages in
      let count : n + suc (links all ps) ≡ suc n + links all ps = omega arith in
      record {
        virt = rest.virt;
        runs =
            loop_step k a f s _ (length pre) at p q
            ∙ rw
                (
                  round_more k phys_at granted a s c pre e n h.dir (ground arith),
                  rest.runs,
                  append_snoc pre
                      (chain_of k phys_at c.desc a.dsat a.ddat (phys_at n) (suc n) all ps) entry,
                  chain_of-cons k phys_at c.desc a.dsat a.ddat e.phys n all (piece_at a s) ps
                      some_ps,
                  links-cons all (piece_at a s) ps some_ps,
                  count,
                )
                refl;
        next = λ m. ground (arith, rest.next m, length_snoc pre entry);
      }

pub pieces-pos :
    (fuel block : ℕ) (fixed : Bool) (vme dma left : ℕ)
    → 0 < fuel
    → 0 < left
    → 0 < length (pieces fuel block fixed vme dma left)
unfolding pieces
pieces-pos zero block fixed vme dma left h k = absurd (omega arith)
pieces-pos (suc f) block fixed vme dma left h k = ground arith

module _ (k : Pool) (phys_at : ℕ → ℕ)
    (granted : (n : ℕ) → (k.pool_alloc n ≡ some (phys_at n)) × (k.entry_alloc n ≡ true)) where
  -- From the last block of the list on, the loop appends the chain of the pieces that are left.
  pub loop-Appends :
      (f left : ℕ) (a : Link) (s : Cursor) (c : DmaChannel) (pre : List HwDescEntry)
      (e : HwDescEntry) (n : ℕ)
      → HasLeft a c.desc s left
      → left < f
      → s.curr ≡ some (length pre)
      → Appends k phys_at a f s c pre e n
          (pieces f (block_of a.bshift) (fixed_of c.desc) s.vme s.dma left)
  unfolding pieces
  loop-Appends zero left a s c pre e n h lt at = absurd (omega arith)
  loop-Appends (suc f) left a s c pre e n h lt at =
      let len = chunk_len-piece_len a c.desc s left h in
      let (pos, small, bound) = piece_len-bounds (block_of a.bshift) s.vme left h.some_left in
      let nonzero : (left == 0) ≡ false = let q = h.some_left in ground arith in
      elim (Bool-cases (ltb (chunk_len a s) left)) [
        | inl more ↦
            let size = chunk_len a s in
            let less : size < left = ground arith in
            let cut : a.bshift ≢ 0 = λ z. not_cut a c.desc s left h less z in
            let entry =
              piece_entry c.desc a.dsat a.ddat e.phys (piece_at a s) (link_to (phys_at n)) in
            let virt = some (suc (length pre)) in
            let rest =
              loop-Appends f (left - size) a
                (record (advance c.desc size s) { curr = virt; next = virt }) c (pre ++ entry ∷ [])
                (blank k phys_at n) (suc n)
                (advance-HasLeft a c.desc s left h size virt (rw len pos) less cut) (omega arith)
                (ap (λ i. some i) (sym (length_snoc pre entry))) in
            rw (nonzero, sym len)
              (goes_on_here k phys_at granted f left a s c pre e n _ h at less
                (pieces-pos f (block_of a.bshift) (fixed_of c.desc) _ _ (left - size) (omega arith)
                  (omega arith))
                (rw
                  (
                    sym (advance-vme a c.desc s left h size (omega arith)),
                    sym (advance-dma c.desc size s),
                  )
                  rest))
        | inr last ↦
            let all : chunk_len a s ≡ left = rw len (ground arith) in
            let none_left : left - chunk_len a s ≡ 0 = omega arith in
            rw (nonzero, sym len, none_left, pieces-done f (block_of a.bshift) (fixed_of c.desc))
              (ends_here k phys_at granted f left a s c pre e n h (omega arith) at all)
      ]
