-- ===== src/Vme/Dma/Whole.antt =====
-- The linked list of a whole transfer, from its set-up.
use ht_drivers.Base.{
  ℕ, suc, ◌+◌, ◌<◌, ◌≡◌, refl, sym, ap, ◌∙◌, Bool, true, false, if◌then◌else◌, List, [], ◌∷◌, arith,
  Option, some, length, ok,
}
use ht_drivers.Vme.Dma.Types.{VmeDma, DmaChannel, Pool, Scatter}
use ht_drivers.Vme.Dma.Attributes.{get_bshift}
use ht_drivers.Vme.Dma.Chain.{linked, link_to, get_vmeaddr, hwdesc_init}
use ht_drivers.Vme.Dma.Setup.{Words, sg_loop, chain_done, chain_from, dma_setup_chain, started}
use ht_drivers.Vme.Dma.Pieces.{AreLaid, pieces, all_pieces, pieces-AreLaid}
use ht_drivers.Vme.Dma.Build.{IsDir, holding, blank, chain_of, links, hwdesc_init-granted}
use ht_drivers.Vme.Dma.Loop.{block_of, fixed_of, IsShift}
use ht_drivers.Vme.Dma.Entries.{Fits, sg_loop-Chains}

pub get_bshift-IsShift : (d : VmeDma) → IsShift (get_bshift d)
unfolding get_bshift
get_bshift-IsShift d = ground arith

get_vmeaddr-IsDir : (d : VmeDma) (vme : ℕ) → get_vmeaddr d ≡ ok vme → IsDir d
unfolding get_vmeaddr
get_vmeaddr-IsDir d vme h = ground arith

chain_from-linked :
    (k : Pool) (sgl : List Scatter) (dsat ddat vme curr start : ℕ) (c c2 : DmaChannel)
    (virt : Option ℕ)
    → get_vmeaddr c.desc ≡ ok vme
    → sg_loop k
        (record { numpages = length sgl; bshift = get_bshift c.desc; dsat = dsat; ddat = ddat })
        vme
        0
        sgl
        (some curr)
        c
      ≡ (c2, linked virt)
    → chain_from k sgl dsat ddat (c, some (curr, start))
      ≡ (record c2 { dnlau = 0; dnlal = link_to start }, started)
unfolding chain_from chain_done
chain_from-linked k sgl dsat ddat vme curr start c c2 virt addr run =
    rw (chain_from, addr, run) refl

-- The pieces of each entry cover it, in order and from the VME address that it starts at, and none
-- crosses a block bound.
abbrev pub AllLaid : (block : ℕ) → (fixed : Bool) → (vme : ℕ) → List Scatter → Type 0
AllLaid block fixed vme [] = Unit
AllLaid block fixed vme (sg ∷ sgl) =
    AreLaid block fixed vme sg.dma_address sg.dma_len
      (pieces (suc sg.dma_len) block fixed vme sg.dma_address sg.dma_len)
    × AllLaid block fixed (if fixed then vme else vme + sg.dma_len) sgl

all_pieces-AllLaid :
    (block : ℕ) (fixed : Bool) (vme : ℕ) (sgl : List Scatter) → AllLaid block fixed vme sgl
all_pieces-AllLaid block fixed vme [] = tt
all_pieces-AllLaid block fixed vme (sg ∷ sgl) = (
  pieces-AreLaid (suc sg.dma_len) block fixed vme sg.dma_address sg.dma_len (omega arith),
  all_pieces-AllLaid block fixed (if fixed then vme else vme + sg.dma_len) sgl,
)

-- A transfer whose VME addresses stay within 32 bits is set up, on a channel without descriptors and
-- with a kernel that grants each block, with the chain of its pieces: those of the entries of the
-- scatter-gather list, in order, each descriptor linked to the next one and the last one marked as the
-- last. The chip is given the address of the first one. The pieces of an entry are laid end to end from
-- its first byte to its last, and none crosses a block bound.
pub dma_setup_chain-pieces :
    (k : Pool) (phys_at : ℕ → ℕ)
    (granted : (n : ℕ) → (k.pool_alloc n ≡ some (phys_at n)) × (k.entry_alloc n ≡ true))
    (sgl : List Scatter) (dsat ddat vme : ℕ) (c : DmaChannel)
    → get_vmeaddr c.desc ≡ ok vme
    → 0 < length sgl
    → Fits (fixed_of c.desc) vme sgl
    → c.hw_desc_list ≡ []
    → (dma_setup_chain k sgl dsat ddat c ≡ (
      record (holding c
          (chain_of k phys_at c.desc dsat ddat
            (phys_at c.calls)
            (suc c.calls)
            false
            (all_pieces (block_of (get_bshift c.desc)) (fixed_of c.desc) vme sgl))
          (suc c.calls
            + links false (all_pieces (block_of (get_bshift c.desc)) (fixed_of c.desc) vme sgl))) {
              dnlau = 0;
              dnlal = link_to (phys_at c.calls);
            },
      started,
    ))
      × AllLaid (block_of (get_bshift c.desc)) (fixed_of c.desc) vme sgl
unfolding dma_setup_chain
dma_setup_chain-pieces k phys_at granted sgl dsat ddat vme c addr some_sg fits none_yet =
    let w : Words = record {
      numpages = length sgl;
      bshift = get_bshift c.desc;
      dsat = dsat;
      ddat = ddat;
    } in
    let made =
      sg_loop-Chains k phys_at granted w vme 0 sgl c [] (blank k phys_at c.calls) (suc c.calls)
        (get_vmeaddr-IsDir c.desc vme addr) (get_bshift-IsShift c.desc) some_sg (omega arith)
        fits in
    let same : c ≡ holding c [] c.calls = rw (sym none_yet) refl in
    let first = ap (hwdesc_init k) same ∙ hwdesc_init-granted k phys_at granted c [] c.calls in
    (
      ap (chain_from k sgl dsat ddat) first
          ∙ chain_from-linked k sgl dsat ddat vme 0 (phys_at c.calls) _ _ made.virt addr made.runs,
      all_pieces-AllLaid (block_of (get_bshift c.desc)) (fixed_of c.desc) vme sgl,
    )
