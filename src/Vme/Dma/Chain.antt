-- ===== src/Vme/Dma/Chain.antt =====
-- vmebridge/driver/tsi148.c: the linked list of hardware descriptors of a transfer.
use ht_drivers.Base.{
  ℕ, zero, suc, ◌+◌, ◌-◌, ◌%◌, ◌^◌, ◌&&◌, ◌||◌, Option, none, some, List, [], ◌∷◌, ◌++◌, ◌==◌, ltb,
  if◌then◌else◌, add32, bit_and, Result, ok, err, einval, length,
}
use ht_drivers.Vme.Dma.Types.{
  VmeDma, DmaDesc, HwDescEntry, DmaChannel, Pool, to_device, from_device,
}

-- A write to the block of a list entry.
abbrev pub set_va : List HwDescEntry → ℕ → DmaDesc → List HwDescEntry
set_va [] i d = []
set_va (e ∷ es) zero d = record e { va = d } ∷ es
set_va (e ∷ es) (suc i) d = e ∷ set_va es i d

abbrev pub write_va : ℕ → DmaDesc → DmaChannel → DmaChannel
write_va i d c = record c { hw_desc_list = set_va c.hw_desc_list i d }

abbrev pub read_va : DmaDesc → List HwDescEntry → ℕ → DmaDesc
read_va none_there [] i = none_there
read_va none_there (e ∷ es) zero = e.va
read_va none_there (e ∷ es) (suc i) = read_va none_there es i

-- The number and bus address of a new block, the last of the list.
unfoldable pub hwdesc_init : Pool → DmaChannel → DmaChannel × Option (ℕ × ℕ)
hwdesc_init k c =
    let c1 = record c { calls = suc c.calls } in
    elim (k.pool_alloc c.calls) [
      | none ↦ (c1, none)
      | some phys ↦
          if k.entry_alloc c.calls
          then (
            record c1 {
              hw_desc_list = c1.hw_desc_list ++ record { va = k.uninitialised; phys = phys } ∷ [];
            },
            some (length c.hw_desc_list, phys),
          )
          else (c1, none)
    ]

unfoldable pub dma_free_chain : DmaChannel → DmaChannel
dma_free_chain c = record c { hw_desc_list = [] }

unfoldable pub get_vmeaddr : VmeDma → Result ℕ
get_vmeaddr d =
    if d.dir == to_device
    then ok d.dst.addrl
    else if d.dir == from_device
    then ok d.src.addrl
    else err einval

abbrev pub last_link : ℕ
last_link = 1

-- A descriptor's address in a link word.
abbrev pub link_to : ℕ → ℕ
link_to phys = bit_and phys 0xfffffff8

-- The descriptor after `tsi148_fill_dma_desc`, which wrote over `old`.
unfoldable pub filled : VmeDma → (dsat ddat vme dma len : ℕ) → DmaDesc → DmaDesc
filled d dsat ddat vme dma len old =
    if d.dir == to_device
    then record {
      dsau = 0;
      dsal = dma % 2 ^ 32;
      ddau = 0;
      ddal = vme;
      dsat = dsat;
      ddat = ddat;
      dnlau = 0;
      dnlal = last_link;
      dcnt = len;
      ddbs = d.dst.bcast_select;
    }
    else if d.dir == from_device
    then record {
      dsau = 0;
      dsal = vme;
      ddau = 0;
      ddal = dma % 2 ^ 32;
      dsat = dsat;
      ddat = ddat;
      dnlau = 0;
      dnlal = last_link;
      dcnt = len;
      ddbs = 0;
    }
    else record old { dsau = 0; ddau = 0 }

-- The arguments of `tsi148_dma_link_add` that its loop does not change, with the two ends.
pub record Link : Type 0 where
  pub vme_end : ℕ
  pub dma_end : ℕ
  pub index : ℕ
  pub numpages : ℕ
  pub bshift : ℕ
  pub dsat : ℕ
  pub ddat : ℕ

-- The loop's variables. A pointer to a block is its number, `none` is NULL.
pub record Cursor : Type 0 where
  pub vme : ℕ
  pub dma : ℕ
  pub len : ℕ
  pub curr : Option ℕ
  pub next : Option ℕ

-- Up to the block's end, if blocks matter, and not past the end of the memory.
unfoldable pub chunk_len : Link → Cursor → ℕ
chunk_len a s =
    let len = if a.bshift == 0 then s.len else 2 ^ a.bshift - s.vme % 2 ^ a.bshift in
    if ltb a.dma_end (s.dma + len) then a.dma_end - s.dma else len

unfoldable pub advance : VmeDma → (len : ℕ) → Cursor → Cursor
advance d len s = record s {
  vme = if d.novmeinc == 0 then add32 s.vme len else s.vme;
  dma = s.dma + len;
  len = len;
}

-- How `tsi148_dma_link_add` ends: with the value of `*virt`, with -ENOMEM, or with a NULL pointer
-- dereferenced. `no_fuel` is no end.
pub data Linked : Type 0 where
  linked : (virt : Option ℕ) → Linked
  no_memory : Linked
  null_pointer : Linked
  no_fuel : Linked

-- The current descriptor is linked to the new block, if there is one, which becomes the current one.
unfoldable pub link_next :
    (curr : ℕ) → DmaDesc → Cursor → DmaChannel × Option (ℕ × ℕ) → DmaChannel × Option Cursor
link_next curr d s (c, none) = (c, none)
link_next curr d s (c, some (next, phys)) = (
  write_va curr (record d { dnlau = 0; dnlal = link_to phys }) c,
  some (record s { curr = some next; next = some next }),
)

abbrev pub no_desc : DmaDesc
no_desc = record {
  dsau = 0;
  dsal = 0;
  ddau = 0;
  ddal = 0;
  dsat = 0;
  ddat = 0;
  dnlau = 0;
  dnlal = 0;
  dcnt = 0;
  ddbs = 0;
}

-- One round of the loop: the descriptor is filled, and if others follow, one more is allocated.
unfoldable pub link_round :
    Pool → Link → (curr : ℕ) → Cursor → DmaChannel → DmaChannel × Option Cursor
link_round k a curr s c =
    let len = chunk_len a s in
    let d = filled c.desc a.dsat a.ddat s.vme s.dma len (read_va no_desc c.hw_desc_list curr) in
    let c1 = write_va curr d c in
    let s1 = advance c.desc len s in
    if ltb (suc a.index) a.numpages || ltb s1.dma a.dma_end
    then link_next curr d s1 (hwdesc_init k c1)
    else (c1, some (record s1 { curr = s1.next }))

-- What follows a round, and what a NULL pointer does; `next_rounds` is the rest of the loop.
unfoldable pub after_round :
    (Cursor → DmaChannel → DmaChannel × Linked) → DmaChannel × Option Cursor → DmaChannel × Linked
after_round next_rounds (c, none) = (c, no_memory)
after_round next_rounds (c, some s) = next_rounds s c

unfoldable pub at_pointer :
    (Cursor → DmaChannel → DmaChannel × Linked)
    → Pool
    → Link
    → Cursor
    → DmaChannel
    → Option ℕ
    → DmaChannel × Linked
at_pointer next_rounds k a s c none = (c, null_pointer)
at_pointer next_rounds k a s c (some curr) = after_round next_rounds (link_round k a curr s c)

-- The `while` loop, with fuel.
unfoldable pub link_loop : Pool → Link → (fuel : ℕ) → Cursor → DmaChannel → DmaChannel × Linked
unfolding at_pointer after_round link_round link_next hwdesc_init advance chunk_len filled
link_loop k a zero s c = (c, no_fuel)
link_loop k a (suc f) s c =
    if ltb s.vme a.vme_end && ltb s.dma a.dma_end
    then at_pointer (link_loop k a f) k a s c s.curr
    else (c, linked s.next)
