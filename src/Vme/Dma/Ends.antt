-- ===== src/Vme/Dma/Ends.antt =====
-- How the set-up of a transfer ends, whatever the kernel answers to the allocations.
use ht_drivers.Base.{
  ℕ, zero, suc, ◌+◌, ◌<◌, ◌≡◌, ◌≢◌, inl, inr, refl, ◌∙◌, ◌&&◌, ◌||◌, List, [], ◌∷◌, Option-cases,
  ◌==◌, ltb, if◌then◌else◌, arith, Bool-cases, Option, none, some, length, add32, ok, err, Errno,
}
use ht_drivers.Vme.Dma.Types.{VmeDma, DmaDesc, DmaChannel, Pool, Scatter}
use ht_drivers.Vme.Dma.Chain.{
  Link, Cursor, Linked, linked, no_memory, null_pointer, no_fuel, chunk_len, write_va, advance,
  hwdesc_init, link_next, link_round, after_round, at_pointer, link_loop, get_vmeaddr,
  dma_free_chain,
}
use ht_drivers.Vme.Dma.Setup.{
  Words, link_args, first_cursor, dma_link_add, then_sg, sg_loop, chain_done, chain_from,
  dma_setup_chain, tsi148_dma_setup, Setup, started, refused, stopped,
}
use ht_drivers.Vme.Dma.Attributes.{get_bshift, dma_setup_src, dma_setup_dst, dma_setup_ctl}
use ht_drivers.Vme.Dma.Loop.{IsShift}

-- A round moves a byte at least.
chunk_len-pos :
    (a : Link) (s : Cursor)
    → IsShift a.bshift
    → ((a.bshift ≡ 0) → 0 < s.len)
    → s.dma < a.dma_end
    → 0 < chunk_len a s
unfolding chunk_len
chunk_len-pos a s shift some_len more = elim shift [
  | inl e ↦ let w = some_len e in rw e (ground arith)
  | inr (inl e) ↦ rw e (ground arith)
  | inr (inr e) ↦ rw e (ground arith)
]

-- What holds of the loop's variables after a round that goes on.
record Moved (len : ℕ) (s s2 : Cursor) : Type 0 where
  moved : s2.dma ≡ s.dma + len
  now : s2.len ≡ len

abbrev AfterRound : ℕ → Cursor → DmaChannel × Option Cursor → Type 0
AfterRound len s (c, none) = Unit
AfterRound len s (c, some s2) = Moved len s s2

link_next-AfterRound :
    (d : VmeDma) (len curr : ℕ) (dd : DmaDesc) (s : Cursor) (r : DmaChannel × Option (ℕ × ℕ))
    → AfterRound len s (link_next curr dd (advance d len s) r)
unfolding link_next advance
link_next-AfterRound d len curr dd s (c, none) = tt
link_next-AfterRound d len curr dd s (c, some (next, phys)) = record { moved = refl; now = refl }

link_round-AfterRound :
    (k : Pool) (a : Link) (curr : ℕ) (s : Cursor) (c : DmaChannel)
    → AfterRound (chunk_len a s) s (link_round k a curr s c)
unfolding link_round advance
link_round-AfterRound k a curr s c =
    elim (Bool-cases
      (ltb (suc a.index) a.numpages || ltb (advance c.desc (chunk_len a s) s).dma a.dma_end)) [
        | inl more ↦ rw more (
            link_next-AfterRound c.desc (chunk_len a s) curr _ s
              (hwdesc_init k (write_va curr _ c)))
        | inr last ↦ rw last (record { moved = refl; now = refl })
      ]

after_round-ends :
    (next_rounds : Cursor → DmaChannel → DmaChannel × Linked) (len : ℕ) (s : Cursor)
    (r : DmaChannel × Option Cursor)
    → AfterRound len s r
    → ((s2 : Cursor) (c2 : DmaChannel) → Moved len s s2 → (next_rounds s2 c2).1 ≢ no_fuel)
    → (after_round next_rounds r).1 ≢ no_fuel
unfolding after_round
after_round-ends next_rounds len s (c, none) h rest = λ e. cc
after_round-ends next_rounds len s (c, some s2) h rest = rest s2 c h

-- Whatever is allocated, the loop ends if it has fuel for each byte and one more.
link_loop-ends :
    (k : Pool) (a : Link) (f : ℕ) (s : Cursor) (c : DmaChannel)
    → IsShift a.bshift
    → (s.dma < a.dma_end → 0 < s.len)
    → 0 < f
    → a.dma_end < s.dma + f
    → (link_loop k a f s c).1 ≢ no_fuel
unfolding link_loop at_pointer
link_loop-ends k a zero s c shift some_len pos enough = absurd (omega arith)
link_loop-ends k a (suc f) s c shift some_len pos enough =
    elim (Bool-cases (ltb s.vme a.vme_end && ltb s.dma a.dma_end)) [
      | inr over ↦ rw over (λ e. cc)
      | inl more ↦
          let inside : s.dma < a.dma_end = ground arith in
          let some_chunk = chunk_len-pos a s shift (λ _. some_len inside) inside in
          rw more (elim s.curr as (λ p. (at_pointer (link_loop k a f) k a s c p).1 ≢ no_fuel) [
            | none ↦ λ e. cc
            | some curr ↦
                after_round-ends (link_loop k a f) (chunk_len a s) s (link_round k a curr s c)
                  (link_round-AfterRound k a curr s c)
                  (λ s2 c2 m.
                    link_loop-ends k a f s2 c2 shift (λ _. rw m.now some_chunk) (omega arith)
                      (omega (arith, m.moved, some_chunk)))
          ])
    ]

dma_link_add-ends :
    (k : Pool) (w : Words) (vme index : ℕ) (sg : Scatter) (virt : Option ℕ) (c : DmaChannel)
    → IsShift w.bshift
    → (dma_link_add k w vme index sg virt c).1 ≢ no_fuel
unfolding dma_link_add
dma_link_add-ends k w vme index sg none c shift = λ e. cc
dma_link_add-ends k w vme index sg (some curr) c shift =
    link_loop-ends k (link_args w vme index sg) (suc sg.dma_len) (first_cursor vme sg curr) c shift
      (λ h. omega (arith, h)) (omega arith) (omega arith)

then_sg-ends :
    (rest : Option ℕ → DmaChannel → DmaChannel × Linked) (r : DmaChannel × Linked)
    → r.1 ≢ no_fuel
    → ((virt : Option ℕ) (c : DmaChannel) → (rest virt c).1 ≢ no_fuel)
    → (then_sg rest r).1 ≢ no_fuel
unfolding then_sg
then_sg-ends rest (c, linked virt) h ends = ends virt c
then_sg-ends rest (c, no_memory) h ends = h
then_sg-ends rest (c, null_pointer) h ends = h
then_sg-ends rest (c, no_fuel) h ends = h

-- For any scatter-gather list, even with empty entries or with VME addresses that wrap, and whatever
-- the kernel answers to the allocations, the loops of the set-up end within their fuel.
pub sg_loop-ends :
    (k : Pool) (w : Words) (vme index : ℕ) (sgl : List Scatter) (virt : Option ℕ) (c : DmaChannel)
    → IsShift w.bshift
    → (sg_loop k w vme index sgl virt c).1 ≢ no_fuel
unfolding sg_loop
sg_loop-ends k w vme index [] virt c shift = λ e. cc
sg_loop-ends k w vme index (sg ∷ sgl) virt c shift =
    let vme2 = if c.desc.novmeinc == 0 then add32 vme sg.dma_len else vme in
    then_sg-ends (sg_loop k w vme2 (suc index) sgl) (dma_link_add k w vme index sg virt c)
      (dma_link_add-ends k w vme index sg virt c shift)
      (λ v c2. sg_loop-ends k w vme2 (suc index) sgl v c2 shift)

-- No descriptor is left after a refusal.
abbrev CleanRefusal : DmaChannel × Setup → Type 0
CleanRefusal (c, started) = Unit
CleanRefusal (c, refused e) = c.hw_desc_list ≡ []
CleanRefusal (c, stopped) = Unit

chain_done-CleanRefusal : (start : ℕ) (r : DmaChannel × Linked) → CleanRefusal (chain_done start r)
unfolding chain_done dma_free_chain
chain_done-CleanRefusal start (c, linked virt) = tt
chain_done-CleanRefusal start (c, no_memory) = refl
chain_done-CleanRefusal start (c, null_pointer) = tt
chain_done-CleanRefusal start (c, no_fuel) = tt

chain_from-CleanRefusal :
    (k : Pool) (sgl : List Scatter) (dsat ddat : ℕ) (c : DmaChannel) (new : Option (ℕ × ℕ))
    → ((new ≡ none) → c.hw_desc_list ≡ [])
    → CleanRefusal (chain_from k sgl dsat ddat (c, new))
unfolding chain_from dma_free_chain
chain_from-CleanRefusal k sgl dsat ddat c none h = h refl
chain_from-CleanRefusal k sgl dsat ddat c (some (curr, start)) h =
    elim (get_vmeaddr c.desc)
      as (λ x. CleanRefusal (elim x [
        | err e ↦ (dma_free_chain c, refused e)
        | ok vme ↦ chain_done start (
            sg_loop k
              (record {
                numpages = length sgl;
                bshift = get_bshift c.desc;
                dsat = dsat;
                ddat = ddat;
              })
              vme 0 sgl (some curr) c)
      ])) [ err e ↦ refl | ok vme ↦ chain_done-CleanRefusal start _ ]

hwdesc_init-kept :
    (k : Pool) (c : DmaChannel)
    → ((hwdesc_init k c).1 ≡ none)
    → (hwdesc_init k c).0.hw_desc_list ≡ c.hw_desc_list
unfolding hwdesc_init
hwdesc_init-kept k c = ground arith

dma_setup_chain-CleanRefusal :
    (k : Pool) (sgl : List Scatter) (dsat ddat : ℕ) (c : DmaChannel)
    → c.hw_desc_list ≡ []
    → CleanRefusal (dma_setup_chain k sgl dsat ddat c)
unfolding dma_setup_chain
dma_setup_chain-CleanRefusal k sgl dsat ddat c empty =
    chain_from-CleanRefusal k sgl dsat ddat (hwdesc_init k c).0 (hwdesc_init k c).1
      (λ e. hwdesc_init-kept k c e ∙ empty)

tsi148_dma_setup-CleanRefusal :
    (k : Pool) (sgl : List Scatter) (c : DmaChannel)
    → c.hw_desc_list ≡ []
    → CleanRefusal (tsi148_dma_setup k sgl c)
unfolding tsi148_dma_setup
tsi148_dma_setup-CleanRefusal k sgl c empty = elim (Option-cases (dma_setup_src c.desc)) [
  | inl e ↦ rw (tsi148_dma_setup, e) empty
  | inr (dsat, e) ↦ elim (Option-cases (dma_setup_dst c.desc)) [
    | inl e2 ↦ rw (tsi148_dma_setup, e, e2) empty
    | inr (ddat, e2) ↦ elim (Option-cases (dma_setup_ctl c.desc.ctrl)) [
      | inl e3 ↦ rw (tsi148_dma_setup, e, e2, e3) empty
      | inr (dctl, e3) ↦
          rw (tsi148_dma_setup, e, e2, e3) (dma_setup_chain-CleanRefusal k sgl dsat ddat _ empty)
    ]
  ]
]

refused_clean :
    (r : DmaChannel × Setup) (e : Errno) → CleanRefusal r → r.1 ≡ refused e → r.0.hw_desc_list ≡ []
refused_clean (c, started) e h q = absurd cc
refused_clean (c, refused x) e h q = h
refused_clean (c, stopped) e h q = absurd cc

-- A refused set-up, for bad attributes or for lack of memory at any point, leaves no descriptor on a
-- channel that had none.
pub tsi148_dma_setup-refused :
    (k : Pool) (sgl : List Scatter) (c : DmaChannel) (e : Errno)
    → c.hw_desc_list ≡ []
    → (tsi148_dma_setup k sgl c).1 ≡ refused e
    → (tsi148_dma_setup k sgl c).0.hw_desc_list ≡ []
tsi148_dma_setup-refused k sgl c e empty =
    refused_clean (tsi148_dma_setup k sgl c) e (tsi148_dma_setup-CleanRefusal k sgl c empty)
