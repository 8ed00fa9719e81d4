-- ===== src/Vme/Dma/Kept.antt =====
-- What the set-up of a channel in vmebridge/driver/tsi148.c leaves as it is.
use ht_drivers.Base.{
  bit_and, ◌-◌, Result, Errno, ◌⊎◌, ℕ, zero, suc, ◌≡◌, refl, inl, inr, ◌&&◌, ◌||◌, List, [], ◌∷◌,
  Option-cases, ◌==◌, ltb, if◌then◌else◌, Option, none, some, length, add32, ok, err, if_cases,
  arith,
}
use ht_drivers.Vme.Dma.Types.{DmaDesc, DmaChannel, Pool, Scatter}
use ht_drivers.Vme.Dma.Chain.{
  Link, Cursor, Linked, linked, no_memory, null_pointer, no_fuel, write_va, advance, hwdesc_init,
  link_next, link_round, after_round, at_pointer, link_loop, get_vmeaddr, dma_free_chain, chunk_len,
}
use ht_drivers.Vme.Dma.Setup.{
  Words, dma_link_add, then_sg, sg_loop, chain_done, chain_from, dma_setup_chain, tsi148_dma_setup,
  dctl_mod, started,
}
use ht_drivers.Vme.Dma.Attributes.{get_bshift, dma_setup_src, dma_setup_dst, dma_setup_ctl}

Result-cases : (r : Result ℕ) → ((v : ℕ) × (r ≡ ok v)) ⊎ ((x : Errno) × (r ≡ err x))
Result-cases (ok v) = inl (v, refl)
Result-cases (err x) = inr (x, refl)

module _ (pages chained : ℕ) where
  abbrev Kept : DmaChannel → Type 0
  Kept c = (c.sg_pages ≡ pages) × (c.chained ≡ chained)

  hwdesc_init-Kept : (k : Pool) (c : DmaChannel) → Kept c → Kept (hwdesc_init k c).0
  unfolding hwdesc_init
  hwdesc_init-Kept k c h = ground arith

  link_next-Kept :
      (curr : ℕ) (d : DmaDesc) (s : Cursor) (r : DmaChannel × Option (ℕ × ℕ))
      → Kept r.0
      → Kept (link_next curr d s r).0
  unfolding link_next
  link_next-Kept curr d s (c, none) h = h
  link_next-Kept curr d s (c, some (next, phys)) h = h

  link_round-Kept :
      (k : Pool) (a : Link) (curr : ℕ) (s : Cursor) (c : DmaChannel)
      → Kept c
      → Kept (link_round k a curr s c).0
  unfolding link_round
  link_round-Kept k a curr s c h =
      if_cases (λ (r : DmaChannel × Option Cursor). Kept r.0)
        (ltb (suc a.index) a.numpages || ltb (advance c.desc (chunk_len a s) s).dma a.dma_end)
        (λ _.
          link_next-Kept curr _ _ (hwdesc_init k (write_va curr _ c))
            (hwdesc_init-Kept k (write_va curr _ c) h))
        (λ _. h)

  after_round-Kept :
      (go : Cursor → DmaChannel → DmaChannel × Linked) (r : DmaChannel × Option Cursor)
      → ((s : Cursor) (c : DmaChannel) → Kept c → Kept (go s c).0)
      → Kept r.0
      → Kept (after_round go r).0
  unfolding after_round
  after_round-Kept go (c, none) rest h = h
  after_round-Kept go (c, some s) rest h = rest s c h

  link_loop-Kept :
      (k : Pool) (a : Link) (f : ℕ) (s : Cursor) (c : DmaChannel)
      → Kept c
      → Kept (link_loop k a f s c).0
  unfolding link_loop at_pointer
  link_loop-Kept k a zero s c h = h
  link_loop-Kept k a (suc f) s c h =
      if_cases (λ (r : DmaChannel × Linked). Kept r.0) (ltb s.vme a.vme_end && ltb s.dma a.dma_end)
        (λ _. elim s.curr as (λ p. Kept (at_pointer (link_loop k a f) k a s c p).0) [
          | none ↦ h
          | some curr ↦
              after_round-Kept (link_loop k a f) (link_round k a curr s c) (link_loop-Kept k a f)
                (link_round-Kept k a curr s c h)
        ])
        (λ _. h)

  dma_link_add-Kept :
      (k : Pool) (w : Words) (vme index : ℕ) (sg : Scatter) (virt : Option ℕ) (c : DmaChannel)
      → Kept c
      → Kept (dma_link_add k w vme index sg virt c).0
  unfolding dma_link_add
  dma_link_add-Kept k w vme index sg none c h = h
  dma_link_add-Kept k w vme index sg (some curr) c h = link_loop-Kept k _ _ _ c h

  then_sg-Kept :
      (rest : Option ℕ → DmaChannel → DmaChannel × Linked) (r : DmaChannel × Linked)
      → ((virt : Option ℕ) (c : DmaChannel) → Kept c → Kept (rest virt c).0)
      → Kept r.0
      → Kept (then_sg rest r).0
  unfolding then_sg
  then_sg-Kept rest (c, linked virt) go h = go virt c h
  then_sg-Kept rest (c, no_memory) go h = h
  then_sg-Kept rest (c, null_pointer) go h = h
  then_sg-Kept rest (c, no_fuel) go h = h

  sg_loop-Kept :
      (k : Pool) (w : Words) (vme index : ℕ) (sgl : List Scatter) (virt : Option ℕ) (c : DmaChannel)
      → Kept c
      → Kept (sg_loop k w vme index sgl virt c).0
  unfolding sg_loop
  sg_loop-Kept k w vme index [] virt c h = h
  sg_loop-Kept k w vme index (sg ∷ sgl) virt c h =
      let vme2 = if c.desc.novmeinc == 0 then add32 vme sg.dma_len else vme in
      then_sg-Kept (sg_loop k w vme2 (suc index) sgl) (dma_link_add k w vme index sg virt c)
        (λ v c2. sg_loop-Kept k w vme2 (suc index) sgl v c2)
        (dma_link_add-Kept k w vme index sg virt c h)

  chain_done-Kept : (start : ℕ) (r : DmaChannel × Linked) → Kept r.0 → Kept (chain_done start r).0
  unfolding chain_done dma_free_chain
  chain_done-Kept start (c, linked virt) h = h
  chain_done-Kept start (c, no_memory) h = h
  chain_done-Kept start (c, null_pointer) h = h
  chain_done-Kept start (c, no_fuel) h = h

  chain_from-Kept :
      (k : Pool) (sgl : List Scatter) (dsat ddat : ℕ) (c : DmaChannel) (new : Option (ℕ × ℕ))
      → Kept c
      → Kept (chain_from k sgl dsat ddat (c, new)).0
  unfolding chain_from dma_free_chain
  chain_from-Kept k sgl dsat ddat c none h = h
  chain_from-Kept k sgl dsat ddat c (some (curr, start)) h =
      elim (Result-cases (get_vmeaddr c.desc)) [
        | inl (vme, e) ↦
            let w : Words = record {
              numpages = length sgl;
              bshift = get_bshift c.desc;
              dsat = dsat;
              ddat = ddat;
            } in
            rw (chain_from, e)
              (chain_done-Kept start (sg_loop k w vme 0 sgl (some curr) c)
                (sg_loop-Kept k w vme 0 sgl (some curr) c h))
        | inr (x, e) ↦ rw (chain_from, e) h
      ]

-- The count of pages stays, and a transfer that is started is one by a linked list.
pub tsi148_dma_setup-kept :
    (k : Pool) (sgl : List Scatter) (c : DmaChannel)
    → ((tsi148_dma_setup k sgl c).0.sg_pages ≡ c.sg_pages)
      × ((tsi148_dma_setup k sgl c).1 ≡ started → (tsi148_dma_setup k sgl c).0.chained ≡ 1)
unfolding tsi148_dma_setup dma_setup_chain
tsi148_dma_setup-kept k sgl c = elim (Option-cases (dma_setup_src c.desc)) [
  | inl e ↦ rw (tsi148_dma_setup, e) (refl, λ q. absurd cc)
  | inr (dsat, e) ↦ elim (Option-cases (dma_setup_dst c.desc)) [
    | inl e2 ↦ rw (tsi148_dma_setup, e, e2) (refl, λ q. absurd cc)
    | inr (ddat, e2) ↦ elim (Option-cases (dma_setup_ctl c.desc.ctrl)) [
      | inl e3 ↦ rw (tsi148_dma_setup, e, e2, e3) (refl, λ q. absurd cc)
      | inr (dctl, e3) ↦
          let c1 = record c { chained = 1; dctl = bit_and dctl (0xffffffff - dctl_mod) } in
          let r = hwdesc_init k c1 in
          let (p, q) =
            chain_from-Kept c.sg_pages 1 k sgl dsat ddat r.0 r.1
              (hwdesc_init-Kept c.sg_pages 1 k c1 (refl, refl)) in
          rw (tsi148_dma_setup, e, e2, e3) (p, λ _. q)
    ]
  ]
]
