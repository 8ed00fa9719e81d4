-- ===== src/Vme/Dma/Build.antt =====
-- The linked list that a transfer is set up with is the chain of its pieces.
use ht_drivers.Base.{
  ℕ, suc, ◌<◌, ◌≡◌, ◌⊎◌, refl, ap, Bool, true, false, ◌||◌, List, [], ◌∷◌, ◌++◌, ltb, arith, some,
  length,
}
use ht_drivers.Vme.Dma.Types.{
  VmeDma, DmaDesc, HwDescEntry, DmaChannel, Pool, to_device, from_device,
}
use ht_drivers.Vme.Dma.Chain.{
  Link, Cursor, set_va, read_va, no_desc, last_link, link_to, filled, chunk_len, advance,
  hwdesc_init, link_next, link_round,
}
use ht_drivers.Vme.Dma.Pieces.{Piece}

-- What the chip is told of a piece, with the word that links to what follows it.
unfoldable pub piece_entry :
    VmeDma → (dsat ddat : ℕ) → (phys : ℕ) → Piece → (word : ℕ) → HwDescEntry
piece_entry d dsat ddat phys p word = record {
  va = record (filled d dsat ddat p.vme p.dma p.len no_desc) { dnlau = 0; dnlal = word };
  phys = phys;
}

module _ {ℓ} {A : Type ℓ} where
  pub append_snoc : (xs ys : List A) (x : A) → (xs ++ x ∷ []) ++ ys ≡ xs ++ x ∷ ys
  append_snoc [] ys x = refl
  append_snoc (z ∷ xs) ys x = ap (λ l. z ∷ l) (append_snoc xs ys x)

  pub length_snoc : (xs : List A) (x : A) → length (xs ++ x ∷ []) ≡ suc (length xs)
  length_snoc [] x = refl
  length_snoc (z ∷ xs) x = omega (arith, length_snoc xs x)

set_va-last :
    (pre : List HwDescEntry) (e : HwDescEntry) (post : List HwDescEntry) (d : DmaDesc)
    → set_va (pre ++ e ∷ post) (length pre) d ≡ pre ++ record e { va = d } ∷ post
set_va-last [] e post d = refl
set_va-last (x ∷ pre) e post d = ap (λ l. x ∷ l) (set_va-last pre e post d)

abbrev pub IsDir : VmeDma → Type 0
IsDir d = (d.dir ≡ to_device) ⊎ (d.dir ≡ from_device)

filled-old :
    (d : VmeDma) (dsat ddat vme dma len : ℕ) (old : DmaDesc)
    → IsDir d
    → filled d dsat ddat vme dma len old ≡ filled d dsat ddat vme dma len no_desc
unfolding filled
filled-old d dsat ddat vme dma len old h = ground arith

filled-last :
    (d : VmeDma) (dsat ddat vme dma len : ℕ)
    → IsDir d
    → record (filled d dsat ddat vme dma len no_desc) { dnlau = 0; dnlal = last_link }
      ≡ filled d dsat ddat vme dma len no_desc
unfolding filled
filled-last d dsat ddat vme dma len h = ground arith

-- The descriptor for the piece that the loop is at.
abbrev pub piece_at : Link → Cursor → Piece
piece_at a s = record { vme = s.vme; dma = s.dma; len = chunk_len a s }

-- A channel with this list, after `n` attempts.
abbrev pub holding : DmaChannel → List HwDescEntry → ℕ → DmaChannel
holding c l n = record c { hw_desc_list = l; calls = n }

module _ (k : Pool) (phys_at : ℕ → ℕ) where
  abbrev pub blank : ℕ → HwDescEntry
  blank n = record { va = k.uninitialised; phys = phys_at n }

  -- The blocks that hold the pieces, the first of them at `phys`, the others as attempts `n`, `n` + 1
  -- and so on give them. The last one is followed by an empty block if `more`.
  unfoldable pub chain_of : VmeDma → (dsat ddat phys n : ℕ) → Bool → List Piece → List HwDescEntry
  chain_of d dsat ddat phys n more [] = []
  chain_of d dsat ddat phys n false (p ∷ []) = piece_entry d dsat ddat phys p last_link ∷ []
  chain_of d dsat ddat phys n true (p ∷ []) =
      piece_entry d dsat ddat phys p (link_to (phys_at n)) ∷ blank n ∷ []
  chain_of d dsat ddat phys n more (p ∷ q ∷ ps) =
      piece_entry d dsat ddat phys p (link_to (phys_at n))
      ∷ chain_of d dsat ddat (phys_at n) (suc n) more (q ∷ ps)

  pub chain_of-cons :
      (d : VmeDma) (dsat ddat phys n : ℕ) (more : Bool) (p : Piece) (ps : List Piece)
      → 0 < length ps
      → chain_of d dsat ddat phys n more (p ∷ ps)
        ≡ piece_entry d dsat ddat phys p (link_to (phys_at n))
          ∷ chain_of d dsat ddat (phys_at n) (suc n) more ps
  unfolding chain_of
  chain_of-cons d dsat ddat phys n more p [] h = absurd (omega arith)
  chain_of-cons d dsat ddat phys n true p (q ∷ ps) h = refl
  chain_of-cons d dsat ddat phys n false p (q ∷ ps) h = refl

-- The attempts that are made for a chain.
unfoldable pub links : Bool → List Piece → ℕ
links more [] = 0
links false (p ∷ []) = 0
links true (p ∷ []) = 1
links more (p ∷ q ∷ ps) = suc (links more (q ∷ ps))

pub links-cons :
    (more : Bool) (p : Piece) (ps : List Piece)
    → 0 < length ps
    → links more (p ∷ ps) ≡ suc (links more ps)
unfolding links
links-cons more p [] h = absurd (omega arith)
links-cons true p (q ∷ ps) h = refl
links-cons false p (q ∷ ps) h = refl

-- A kernel that grants each block, at the bus address `phys_at` of the attempt.
module _ (k : Pool) (phys_at : ℕ → ℕ)
    (granted : (n : ℕ) → (k.pool_alloc n ≡ some (phys_at n)) × (k.entry_alloc n ≡ true)) where
  -- A new block goes to the end of the list.
  pub hwdesc_init-granted :
      (c : DmaChannel) (l : List HwDescEntry) (n : ℕ)
      → hwdesc_init k (holding c l n)
        ≡ (holding c (l ++ blank k phys_at n ∷ []) (suc n), some (length l, phys_at n))
  unfolding hwdesc_init
  hwdesc_init-granted c l n = let (p, q) = granted n in rw (p, q, hwdesc_init) refl

  -- The round that fills the last block of the list and adds another.
  pub round_more :
      (a : Link) (s : Cursor) (c : DmaChannel) (pre : List HwDescEntry) (e : HwDescEntry) (n : ℕ)
      → IsDir c.desc
      → (ltb (suc a.index) a.numpages || ltb (advance c.desc (chunk_len a s) s).dma a.dma_end)
        ≡ true
      → link_round k a (length pre) s (holding c (pre ++ e ∷ []) n) ≡ (
        holding c
            ((pre
                ++ piece_entry c.desc a.dsat a.ddat e.phys (piece_at a s) (link_to (phys_at n))
                  ∷ [])
              ++ blank k phys_at n ∷ [])
            (suc n),
        some (record (advance c.desc (chunk_len a s) s) {
          curr = some (suc (length pre));
          next = some (suc (length pre));
        }),
      )
  unfolding link_round link_next piece_entry
  round_more a s c pre e n dir more =
      let d = filled c.desc a.dsat a.ddat s.vme s.dma (chunk_len a s) no_desc in
      rw
        (
          more,
          filled-old c.desc a.dsat a.ddat s.vme s.dma (chunk_len a s)
              (read_va no_desc (pre ++ e ∷ []) (length pre)) dir,
          set_va-last pre e [] d,
          hwdesc_init-granted c (pre ++ record e { va = d } ∷ []) n,
          append_snoc pre (blank k phys_at n ∷ []) (record e { va = d }),
          append_snoc pre (blank k phys_at n ∷ [])
              (record e { va = record d { dnlau = 0; dnlal = link_to (phys_at n) } }),
          set_va-last pre (record e { va = d }) (blank k phys_at n ∷ [])
              (record d { dnlau = 0; dnlal = link_to (phys_at n) }),
          length_snoc pre (record e { va = d }),
        )
        refl

  -- The round that fills the last block of the list, and adds none.
  pub round_last :
      (a : Link) (s : Cursor) (c : DmaChannel) (pre : List HwDescEntry) (e : HwDescEntry) (n : ℕ)
      → IsDir c.desc
      → (ltb (suc a.index) a.numpages || ltb (advance c.desc (chunk_len a s) s).dma a.dma_end)
        ≡ false
      → link_round k a (length pre) s (holding c (pre ++ e ∷ []) n) ≡ (
        holding c (pre ++ piece_entry c.desc a.dsat a.ddat e.phys (piece_at a s) last_link ∷ []) n,
        some (record (advance c.desc (chunk_len a s) s) { curr = s.next }),
      )
  unfolding link_round piece_entry advance
  round_last a s c pre e n dir more =
      let d = filled c.desc a.dsat a.ddat s.vme s.dma (chunk_len a s) no_desc in
      rw
        (
          more,
          filled-old c.desc a.dsat a.ddat s.vme s.dma (chunk_len a s)
              (read_va no_desc (pre ++ e ∷ []) (length pre)) dir,
          set_va-last pre e [] d,
          filled-last c.desc a.dsat a.ddat s.vme s.dma (chunk_len a s) dir,
        )
        refl
