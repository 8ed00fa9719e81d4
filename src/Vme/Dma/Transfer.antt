-- ===== src/Vme/Dma/Transfer.antt =====
-- vmebridge/driver/vme_dma.c: a transfer, from the checks on its descriptor to the release.
-- `length` and the lower addresses are words of 32 bits.
use ht_drivers.Base.{
  suc, ◌+◌, ℕ, Bool, ◌&&◌, ◌||◌, not, Option, none, some, List, ltb, ◌==◌, if◌then◌else◌, add32,
  Errno, einval, efault, enoioctlcmd, enomem, Rc, success, failure, length,
}
use ht_drivers.Vme.Dma.Types.{VmeDma, DmaChannel, Pool, Scatter, to_device, from_device}
use ht_drivers.Vme.Dma.Setup.{
  tsi148_dma_setup, tsi148_dma_start, tsi148_dma_abort, tsi148_dma_release, Setup, started, refused,
  stopped,
}
use ht_drivers.Vme.Dma.Pages.{SgPage, page_count, fill_pages}

-- What `get_user_pages` answers: the pages it pinned, or an error.
pub data Pinned : Type 0 where
  pinned : ℕ → Pinned
  not_pinned : Errno → Pinned

-- What the kernel answers to a transfer, in its order. `map_sg` is `pci_map_sg` on the list, or on
-- what the memory of the list held before (`none`); `status` is the channel's register after the wait.
pub record Kernel : Type 0 where
  pub long_bits : ℕ
  pub sgl_alloc : Bool
  pub pages_alloc : Bool
  pub get_pages : Pinned
  pub map_sg : Option (List SgPage) → List Scatter
  pub pool : Pool
  pub wait : Rc
  pub status : ℕ

-- A channel in a transfer, and what was taken and given back so far: the memory of the list, by `kmalloc`
-- and `kfree`; pages, by `get_user_pages` and `page_cache_release`; and the mapping on the bus.
pub record Transfer : Type 0 where
  pub channel : DmaChannel
  pub sgl_allocs : ℕ
  pub sgl_frees : ℕ
  pub pages_pinned : ℕ
  pub pages_released : ℕ
  pub maps : ℕ
  pub unmaps : ℕ

-- The pages of a buffer in user space; the list is filled if all are pinned, and those that are pinned
-- are released if they are not all. The count that is returned is that of the pages asked for, also
-- when they are not pinned.
unfoldable pub sgl_map_user_pages :
    Kernel → (nr_pages uaddr length : ℕ) → Transfer → Transfer × Option (List SgPage) × Option ℕ
sgl_map_user_pages k nr uaddr len t =
    if k.pages_alloc
    then elim k.get_pages [
      | not_pinned e ↦ (t, none, some nr)
      | pinned n ↦
          if ltb n nr
          then (
            record t { pages_pinned = t.pages_pinned + n; pages_released = t.pages_released + n },
            none,
            some nr,
          )
          else (
            record t { pages_pinned = t.pages_pinned + nr },
            some (fill_pages nr uaddr len),
            some nr,
          )
    ]
    else (t, none, none)

-- `sgl_unmap_user_pages`: each page of the list, pinned or not.
unfoldable pub sgl_unmap_user_pages : Transfer → Transfer
sgl_unmap_user_pages t = record t { pages_released = t.pages_released + t.channel.sg_pages }

-- `kfree (channel->sgl)`.
abbrev pub free_sgl : Transfer → Transfer
free_sgl t = record t { sgl_frees = suc t.sgl_frees }

-- `pci_unmap_sg`, `sgl_unmap_user_pages` and `kfree`.
unfoldable pub give_back : Transfer → Transfer
unfolding sgl_unmap_user_pages
give_back t = free_sgl (sgl_unmap_user_pages (record t { unmaps = suc t.unmaps }))

unfoldable pub after_setup : Transfer → DmaChannel × Setup → Transfer × Setup
after_setup t (c, started) = (record t { channel = c }, started)
after_setup t (c, refused e) = (give_back (record t { channel = c }), refused e)
after_setup t (c, stopped) = (record t { channel = c }, stopped)

-- The rest of the set-up, with the pages. A count of no pages ends it with 0, the code of success.
unfoldable pub with_pages : Kernel → Transfer × Option (List SgPage) × Option ℕ → Transfer × Setup
with_pages k (t, pages, none) = (free_sgl t, refused enomem)
with_pages k (t, pages, some n) =
    let sgl = k.map_sg pages in
    let c = record (t.channel) { sg_pages = n; sg_mapped = length sgl } in
    let rest =
      after_setup (record t { channel = c; maps = suc t.maps }) (tsi148_dma_setup k.pool sgl c) in
    if n == 0
    then (free_sgl (record t { channel = record (t.channel) { sg_pages = 0 } }), started)
    else rest

abbrev pub buffer_address : VmeDma → ℕ
buffer_address d = if d.dir == to_device then d.src.addrl else d.dst.addrl

unfoldable pub vme_dma_setup : Kernel → Transfer → Transfer × Setup
vme_dma_setup k t =
    let d = t.channel.desc in
    let uaddr = buffer_address d in
    let nr = page_count k.long_bits uaddr d.length in
    if ltb (add32 uaddr d.length) uaddr
    then (t, refused einval)
    else if k.sgl_alloc
    then with_pages k
        (sgl_map_user_pages k nr uaddr d.length (record t { sgl_allocs = suc t.sgl_allocs }))
    else (t, refused enomem)

unfoldable pub check_desc : VmeDma → Rc
check_desc d =
    if d.length == 0
    then failure einval
    else if not (d.dir == from_device) && not (d.dir == to_device)
    then failure einval
    else if not (d.src.addru == 0) || not (d.dst.addru == 0)
    then failure einval
    else success

abbrev pub after_wait : Rc → DmaChannel → DmaChannel
after_wait success c = c
after_wait (failure e) c = tsi148_dma_abort c

-- The start, the wait, and the clean-up; a signal aborts the transfer.
unfoldable pub run_transfer : Kernel → VmeDma → Transfer → Transfer × VmeDma × Rc
run_transfer k d t =
    let c = after_wait k.wait (tsi148_dma_start t.channel) in
    (
      give_back (record t { channel = tsi148_dma_release c }),
      record d { status = k.status },
      k.wait,
    )

-- How a transfer ends: with the descriptor of the caller and a return code, or, without a code, with
-- a kernel that has stopped.
unfoldable pub after_dma_setup : Kernel → VmeDma → Transfer × Setup → Transfer × VmeDma × Option Rc
after_dma_setup k d (t, started) = let (t2, d2, rc) = run_transfer k d t in (t2, d2, some rc)
after_dma_setup k d (t, refused e) = (t, d, some (failure e))
after_dma_setup k d (t, stopped) = (t, d, none)

-- `acquired` is what `vme_dma_channel_acquire` answers, with the channel of `t`.
unfoldable pub vme_do_dma :
    Kernel → (acquired : Rc) → VmeDma → Transfer → Transfer × VmeDma × Option Rc
vme_do_dma k acquired d t = elim (check_desc d) [
  | failure e ↦ (t, d, some (failure e))
  | success ↦ elim acquired [
    | failure e ↦ (t, d, some (failure e))
    | success ↦
        after_dma_setup k d
          (vme_dma_setup k (record t { channel = record (t.channel) { desc = d } }))
  ]
]

pub data DmaCommand : Type 0 where
  start_dma : DmaCommand
  other_command : DmaCommand

-- The copy back to the user, and the return code.
unfoldable pub dma_copy_back :
    (copied_out : Bool) → Transfer × VmeDma × Option Rc → Transfer × Option VmeDma × Option Rc
dma_copy_back copied_out (t, d, some success) =
    if copied_out then (t, some d, some success) else (t, none, some (failure efault))
dma_copy_back copied_out (t, d, some (failure e)) = (t, none, some (failure e))
dma_copy_back copied_out (t, d, none) = (t, none, none)

-- With what the user is given back; the flags say whether the copies from and to the user succeed.
unfoldable pub vme_dma_ioctl :
    Kernel
    → (acquired : Rc) → DmaCommand
    → (copied_in copied_out : Bool) → VmeDma
    → Transfer
    → Transfer × Option VmeDma × Option Rc
vme_dma_ioctl k acquired other_command copied_in copied_out d t =
    (t, none, some (failure enoioctlcmd))
vme_dma_ioctl k acquired start_dma copied_in copied_out d t =
    if copied_in
    then dma_copy_back copied_out (vme_do_dma k acquired d t)
    else (t, none, some (failure efault))
