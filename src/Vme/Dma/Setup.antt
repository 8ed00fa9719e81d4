-- ===== src/Vme/Dma/Setup.antt =====
-- vmebridge/driver/tsi148.c: the set-up of a channel for a transfer, with its linked list.
use ht_drivers.Base.{
  ℕ, suc, ◌+◌, ◌-◌, Option, none, some, List, [], ◌∷◌, ◌==◌, if◌then◌else◌, add32, bit_and, bit_or,
  ok, err, einval, enomem, Errno, length,
}
use ht_drivers.Vme.Dma.Types.{DmaChannel, Pool, Scatter}
use ht_drivers.Vme.Dma.Attributes.{get_bshift, dma_setup_src, dma_setup_dst, dma_setup_ctl}
use ht_drivers.Vme.Dma.Chain.{
  dma_free_chain, hwdesc_init, get_vmeaddr, link_to, Link, Cursor, Linked, linked, no_memory,
  null_pointer, no_fuel, link_loop,
}

-- The words that each call of `tsi148_dma_link_add` is given.
pub record Words : Type 0 where
  pub numpages : ℕ
  pub bshift : ℕ
  pub dsat : ℕ
  pub ddat : ℕ

abbrev pub link_args : Words → (vme : ℕ) → (index : ℕ) → Scatter → Link
link_args w vme index sg = record {
  vme_end = add32 vme sg.dma_len;
  dma_end = sg.dma_address + sg.dma_len;
  index = index;
  numpages = w.numpages;
  bshift = w.bshift;
  dsat = w.dsat;
  ddat = w.ddat;
}

abbrev pub first_cursor : (vme : ℕ) → Scatter → ℕ → Cursor
first_cursor vme sg curr = record {
  vme = vme;
  dma = sg.dma_address;
  len = sg.dma_len;
  curr = some curr;
  next = none;
}

-- `BUG_ON` stops at a NULL pointer. A byte is moved in each round, and so the fuel is enough.
unfoldable pub dma_link_add :
    Pool → Words → (vme index : ℕ) → Scatter → Option ℕ → DmaChannel → DmaChannel × Linked
dma_link_add k w vme index sg none c = (c, null_pointer)
dma_link_add k w vme index sg (some curr) c =
    link_loop k (link_args w vme index sg) (suc sg.dma_len) (first_cursor vme sg curr) c

-- The loop on the scatter-gather list; it ends at the first error.
unfoldable pub then_sg :
    (Option ℕ → DmaChannel → DmaChannel × Linked) → DmaChannel × Linked → DmaChannel × Linked
then_sg rest (c, linked virt) = rest virt c
then_sg rest (c, no_memory) = (c, no_memory)
then_sg rest (c, null_pointer) = (c, null_pointer)
then_sg rest (c, no_fuel) = (c, no_fuel)

unfoldable pub sg_loop :
    Pool → Words → (vme index : ℕ) → List Scatter → Option ℕ → DmaChannel → DmaChannel × Linked
unfolding then_sg dma_link_add
sg_loop k w vme index [] virt c = (c, linked virt)
sg_loop k w vme index (sg ∷ sgl) virt c =
    let vme' = if c.desc.novmeinc == 0 then add32 vme sg.dma_len else vme in
    then_sg (sg_loop k w vme' (suc index) sgl) (dma_link_add k w vme index sg virt c)

-- How the set-up of a transfer ends; `stopped` is a kernel that has stopped.
pub data Setup : Type 0 where
  started : Setup
  refused : Errno → Setup
  stopped : Setup

unfoldable pub chain_done : (phys_start : ℕ) → DmaChannel × Linked → DmaChannel × Setup
chain_done start (c, linked virt) = (record c { dnlau = 0; dnlal = link_to start }, started)
chain_done start (c, no_memory) = (dma_free_chain c, refused enomem)
chain_done start (c, null_pointer) = (c, stopped)
chain_done start (c, no_fuel) = (c, stopped)

unfoldable pub chain_from :
    Pool → List Scatter → (dsat ddat : ℕ) → DmaChannel × Option (ℕ × ℕ) → DmaChannel × Setup
chain_from k sgl dsat ddat (c, none) = (c, refused enomem)
chain_from k sgl dsat ddat (c, some (curr, start)) = elim (get_vmeaddr c.desc) [
  | err e ↦ (dma_free_chain c, refused e)
  | ok vme ↦
      let w : Words = record {
        numpages = length sgl;
        bshift = get_bshift c.desc;
        dsat = dsat;
        ddat = ddat;
      } in
      chain_done start (sg_loop k w vme 0 sgl (some curr) c)
]

unfoldable pub dma_setup_chain :
    Pool → List Scatter → (dsat ddat : ℕ) → DmaChannel → DmaChannel × Setup
dma_setup_chain k sgl dsat ddat c = chain_from k sgl dsat ddat (hwdesc_init k c)

-- DCTL_MOD.
abbrev pub dctl_mod : ℕ
dctl_mod = 0x800000

unfoldable pub tsi148_dma_setup : Pool → List Scatter → DmaChannel → DmaChannel × Setup
tsi148_dma_setup k sgl c = elim (dma_setup_src c.desc) [
  | none ↦ (c, refused einval)
  | some dsat ↦ elim (dma_setup_dst c.desc) [
    | none ↦ (c, refused einval)
    | some ddat ↦ elim (dma_setup_ctl c.desc.ctrl) [
      | none ↦ (c, refused einval)
      | some dctl ↦
          dma_setup_chain k sgl dsat ddat
            (record c { chained = 1; dctl = bit_and dctl (0xffffffff - dctl_mod) })
    ]
  ]
]

-- DCTL_DGO and DCTL_ABT.
unfoldable pub tsi148_dma_start : DmaChannel → DmaChannel
tsi148_dma_start c = record c { dctl = bit_or c.dctl 0x2000000 }

unfoldable pub tsi148_dma_abort : DmaChannel → DmaChannel
tsi148_dma_abort c = record c { dctl = bit_or c.dctl 0x8000000 }

unfoldable pub tsi148_dma_release : DmaChannel → DmaChannel
tsi148_dma_release c = if c.chained == 0 then c else dma_free_chain c
