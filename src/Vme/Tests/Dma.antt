-- ===== src/Vme/Tests/Dma.antt =====
-- Tests of the transfers and the interrupts on small inputs.
use ht_drivers.Base.{
  ℕ, zero, suc, ◌+◌, ◌*◌, ◌≡◌, ◌≢◌, inl, inr, refl, true, false, List, [], ◌∷◌, some, none, arith,
  enomem, success, length, ◌==◌, if◌then◌else◌,
}
use ht_drivers.Vme.Types.{d32}
use ht_drivers.Vme.Am
use ht_drivers.Vme.Tests.{verr}
use ht_drivers.Vme.Irq.{IrqState, VmeIrq, Round, irq_handled, vme_bridge_interrupt, no_irq}
use ht_drivers.Vme.IrqLaws.{logged, dispatched}
use ht_drivers.Vme.IrqLoop.{all_dispatched, vme_bridge_interrupt-calls}
use ht_drivers.Vme.Dma.Types.{DmaAttr, DmaCtrl, VmeDma, DmaChannel, Pool, Scatter, from_device}
use ht_drivers.Vme.Chip.Window.{am_bits}
use ht_drivers.Vme.Dma.Attributes.{
  setup_dma_attributes, dma_setup_dst, dma_setup_ctl, get_bshift, am_bshift, dma_setup_src,
}
use ht_drivers.Vme.Dma.Chain.{
  no_desc, link_to, get_vmeaddr, no_fuel, hwdesc_init, link_loop, link_round, link_next,
  after_round, at_pointer, chunk_len, advance, filled,
}
use ht_drivers.Vme.Dma.Setup.{
  Words, sg_loop, dma_setup_chain, tsi148_dma_setup, started, chain_from, chain_done, dma_link_add,
  then_sg,
}
use ht_drivers.Vme.Dma.Pieces.{AreLaid, pieces, all_pieces, pieces-AreLaid}
use ht_drivers.Vme.Dma.Build.{holding, chain_of, links}
use ht_drivers.Vme.Dma.Loop.{block_of, fixed_of}
use ht_drivers.Vme.Dma.Whole.{AllLaid, dma_setup_chain-pieces}
use ht_drivers.Vme.Dma.Ends.{sg_loop-ends, tsi148_dma_setup-refused}
use ht_drivers.Vme.Dma.Pages.{IsRun, page_count, fill_pages, fill_pages-IsRun}
use ht_drivers.Vme.Dma.Transfer.{
  start_dma, dma_copy_back, vme_dma_ioctl, Kernel, Transfer, pinned, vme_do_dma, check_desc,
  vme_dma_setup, with_pages, sgl_map_user_pages, after_setup, after_dma_setup, run_transfer,
}
use ht_drivers.Vme.Dma.Release.{HoldsNothing, vme_dma_ioctl-HoldsNothing}
use ht_drivers.Vme.Dma.Channels.{
  Channels, Reach, initially, then_step, enter, down, look, lock, task_at, goes_to,
  lock_avail_channel, free_channel, lock_phase, idle_tasks, no_channel, idle, at_lock, past_queue,
  in_queue, vme_dma_init,
}
use ht_drivers.Vme.Dma.Channels as C
use ht_drivers.Vme.Dma.Progress.{ReachFrom, in_queue-served}
use ht_drivers.Vme.Dma.Holders.{lock_avail_channel-finds, holding_alone}

-- A block transfer of 600 bytes from 0x1080 on the bus to two pages.
abbrev attr : (addrl : ℕ) → DmaAttr
attr addrl = record {
  data_width = d32;
  am = Am.a32_user_blt;
  v2esst_mode = 0;
  bcast_select = 0;
  addru = 0;
  addrl = addrl;
}

abbrev no_wait : DmaCtrl
no_wait = record {
  vme_block_size = 0;
  vme_backoff_time = 0;
  pci_block_size = 0;
  pci_backoff_time = 0;
}

abbrev request : VmeDma
request = record {
  status = 0;
  length = 600;
  novmeinc = 0;
  dir = from_device;
  src = attr 0x1080;
  dst = attr 0x5000;
  ctrl = no_wait;
}

abbrev channel : DmaChannel
channel = record {
  busy = 1;
  num = 0;
  desc = request;
  chained = 0;
  sg_pages = 2;
  sg_mapped = 2;
  hw_desc_list = [];
  dctl = 0;
  dnlau = 0;
  dnlal = 0;
  calls = 0;
}

abbrev two_entries : List Scatter
two_entries =
    record { dma_address = 0x5000; dma_len = 400 }
    ∷ record { dma_address = 0x9000; dma_len = 200 }
    ∷ []

abbrev phys_at : ℕ → ℕ
phys_at n = 0x100000 + n * 64

abbrev pool : Pool
pool = record {
  pool_alloc = λ n. some (phys_at n);
  entry_alloc = λ n. true;
  uninitialised = no_desc;
}

-- The pieces end at the bounds of 256 bytes.
four_pieces : length (all_pieces 256 false 0x1080 two_entries) ≡ 4
unfolding all_pieces pieces ht_drivers.Vme.Dma.Pieces.piece_len
four_pieces = refl

dma_setup_chain-pieces_example :
    (dma_setup_chain pool two_entries 1 2 channel ≡ (
      record (holding channel
          (chain_of pool phys_at request 1 2
            (phys_at 0)
            1
            false
            (all_pieces (block_of (get_bshift request)) (fixed_of request) 0x1080 two_entries))
          (1
            + links false (
                all_pieces
                  (block_of (get_bshift request))
                  (fixed_of request)
                  0x1080
                  two_entries))) { dnlau = 0; dnlal = link_to (phys_at 0) },
      started,
    ))
    × AllLaid (block_of (get_bshift request)) (fixed_of request) 0x1080 two_entries
unfolding get_vmeaddr
dma_setup_chain-pieces_example =
    dma_setup_chain-pieces pool phys_at (λ n. (refl, refl)) two_entries 1 2 0x1080 channel refl
      (omega arith) (omega arith, omega arith, (omega arith, omega arith, tt)) refl

abbrev words : Words
words = record { numpages = 2; bshift = 8; dsat = 1; ddat = 2 }

-- A pool that has one block.
abbrev one_block : Pool
one_block = record {
  pool_alloc = λ n. elim n [ zero ↦ some 0x100000 | suc m ↦ none ];
  entry_alloc = λ n. true;
  uninitialised = no_desc;
}

sg_loop-ends_example :
    (sg_loop one_block words 0xffffff80 0 two_entries (some 0) channel).1 ≢ no_fuel
sg_loop-ends_example =
    sg_loop-ends one_block words 0xffffff80 0 two_entries (some 0) channel (inr (inl refl))

-- The second block is not granted.
tsi148_dma_setup-refused_example :
    (tsi148_dma_setup one_block two_entries channel).0.hw_desc_list ≡ []
unfolding tsi148_dma_setup dma_setup_src dma_setup_dst dma_setup_ctl setup_dma_attributes am_bits
    dma_setup_chain chain_from chain_done hwdesc_init get_vmeaddr sg_loop dma_link_add then_sg
    link_loop link_round link_next after_round at_pointer chunk_len advance get_bshift am_bshift
    filled
tsi148_dma_setup-refused_example =
    tsi148_dma_setup-refused one_block two_entries channel enomem refl refl

fill_pages-IsRun_example :
    IsRun 0x12000 0x12345 9000 (fill_pages (page_count 32 0x12345 9000) 0x12345 9000)
fill_pages-IsRun_example = fill_pages-IsRun 32 0x12345 9000 (omega arith) (omega arith)

abbrev kernel : Kernel
kernel = record {
  long_bits = 32;
  sgl_alloc = true;
  pages_alloc = true;
  get_pages = pinned 2;
  map_sg = λ pages. two_entries;
  pool = pool;
  wait = success;
  status = 0;
}

abbrev empty_transfer : Transfer
empty_transfer = record {
  channel = channel;
  sgl_allocs = 0;
  sgl_frees = 0;
  pages_pinned = 0;
  pages_released = 0;
  maps = 0;
  unmaps = 0;
}

vme_dma_ioctl-HoldsNothing_example :
    HoldsNothing (vme_dma_ioctl kernel success start_dma true true request empty_transfer).0
unfolding vme_dma_ioctl dma_copy_back vme_do_dma check_desc vme_dma_setup page_count with_pages
    sgl_map_user_pages after_setup after_dma_setup run_transfer tsi148_dma_setup dma_setup_src
    dma_setup_dst dma_setup_ctl setup_dma_attributes am_bits dma_setup_chain chain_from chain_done
    hwdesc_init get_vmeaddr sg_loop dma_link_add then_sg link_loop link_round link_next after_round
    at_pointer chunk_len advance get_bshift am_bshift filled
vme_dma_ioctl-HoldsNothing_example =
    vme_dma_ioctl-HoldsNothing kernel success start_dma true true request empty_transfer
      (ground arith) (λ _. (2, refl, ground arith))
      (record { sgl = refl; pages = refl; mapped = refl; descriptors = refl }) (λ e. cc)

-- The first of two tasks gets the first channel.
abbrev idle_state : Channels
idle_state = vme_dma_init 2

abbrev queued : Channels
queued = record idle_state { tasks = in_queue ∷ idle ∷ [] }

abbrev passed : Channels
passed = record idle_state { tasks = past_queue ∷ idle ∷ []; dma_semaphore = 1 }

abbrev locking : Channels
locking = record idle_state { tasks = at_lock ∷ idle ∷ []; dma_semaphore = 1 }

abbrev using_channel : Channels
using_channel = goes_to (lock_avail_channel locking).0 0 (lock_phase (lock_avail_channel locking).1)

first_holds : Reach 2 using_channel
unfolding idle_tasks
first_holds =
    then_step
      (then_step
        (then_step (then_step {s = idle_state} {t = queued} initially (enter 0 refl refl))
          (down {s = queued} 0 1 refl refl))
        (look {s = passed} 0 refl))
      (lock {s = locking} 0 refl)

in_queue-served_example :
    (t : Channels) × ReachFrom queued t × ((c : ℕ) × (task_at t.tasks 0 ≡ some (C.holding c)))
unfolding idle_tasks
in_queue-served_example =
    in_queue-served 2 0 queued
      (then_step {s = idle_state} {t = queued} initially (enter {s = idle_state} 0 refl refl)) refl
      (omega arith) refl

lock_avail_channel-finds_example : task_at using_channel.tasks 0 ≢ some no_channel
lock_avail_channel-finds_example = lock_avail_channel-finds 2 using_channel 0 first_holds

abbrev first_task : ℕ
first_task = 0

holding_alone_example : first_task ≡ 0
unfolding lock_avail_channel free_channel idle_tasks
holding_alone_example = holding_alone 2 using_channel 0 0 0 first_holds refl refl

-- Handler 7 is installed for vector 0x40, and level 3 is enabled.
abbrev table : ℕ → VmeIrq
table v = if v == 0x40 then record { handler = 7; arg = 9; count = 0; name = 1 } else no_irq

abbrev irqs : IrqState
irqs = record {
  vme_interrupts_enabled = 0x3000008;
  inteo = 0x3000008;
  inten = 0x3000008;
  vme_irq_table = table;
  int_stats = λ i. 0;
  called = [];
  woken = λ c. 0;
  pci_cleared = 0;
  verr = verr;
}

abbrev rounds : List Round
rounds = record { raised = 0x1000008; iack = λ level. 0x40 } ∷ []

vme_bridge_interrupt-calls_example :
    ((vme_bridge_interrupt rounds irqs).1 ≡ irq_handled)
    × ((vme_bridge_interrupt rounds irqs).0.called
        ≡ logged (all_dispatched 0x3000008 rounds table) [])
vme_bridge_interrupt-calls_example =
    vme_bridge_interrupt-calls rounds irqs (omega arith, omega arith, tt)

one_call : all_dispatched 0x3000008 rounds table ≡ (7, 9) ∷ []
unfolding all_dispatched dispatched
one_call = refl
