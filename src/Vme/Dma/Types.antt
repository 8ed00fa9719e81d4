-- ===== src/Vme/Dma/Types.antt =====
-- vmebridge/driver/vmebus.h, vme_dma.h and tsi148.h: transfer descriptors, channels and the chip's
-- linked-list descriptors.
use ht_drivers.Base.{ℕ, Bool, List, Option}

-- `struct vme_dma_attr`.
pub record DmaAttr : Type 0 where
  pub data_width : ℕ
  pub am : ℕ
  pub v2esst_mode : ℕ
  pub bcast_select : ℕ
  pub addru : ℕ
  pub addrl : ℕ

-- `struct vme_dma_ctrl`.
pub record DmaCtrl : Type 0 where
  pub vme_block_size : ℕ
  pub vme_backoff_time : ℕ
  pub pci_block_size : ℕ
  pub pci_backoff_time : ℕ

-- `enum vme_dma_dir`.
abbrev pub to_device : ℕ
to_device = 1

abbrev pub from_device : ℕ
from_device = 2

-- `struct vme_dma`.
pub record VmeDma : Type 0 where
  pub status : ℕ
  pub length : ℕ
  pub novmeinc : ℕ
  pub dir : ℕ
  pub src : DmaAttr
  pub dst : DmaAttr
  pub ctrl : DmaCtrl

-- `struct tsi148_dma_desc`, each field as the number that its big-endian word stands for.
pub record DmaDesc : Type 0 where
  pub dsau : ℕ
  pub dsal : ℕ
  pub ddau : ℕ
  pub ddal : ℕ
  pub dsat : ℕ
  pub ddat : ℕ
  pub dnlau : ℕ
  pub dnlal : ℕ
  pub dcnt : ℕ
  pub ddbs : ℕ

-- `struct hw_desc_entry`: a block of the pool, with what it holds and its bus address.
pub record HwDescEntry : Type 0 where
  pub va : DmaDesc
  pub phys : ℕ

-- `struct dma_channel` with the chip's registers of the channel. A pool block is known by its place
-- in `hw_desc_list`. `calls` counts the allocations that were tried.
pub record DmaChannel : Type 0 where
  pub busy : ℕ
  pub num : ℕ
  pub desc : VmeDma
  pub chained : ℕ
  pub sg_pages : ℕ
  pub sg_mapped : ℕ
  pub hw_desc_list : List HwDescEntry
  pub dctl : ℕ
  pub dnlau : ℕ
  pub dnlal : ℕ
  pub calls : ℕ

-- What the kernel answers to the allocation of a pool block (its bus address) and of the list entry,
-- by the number of the attempt, and what a block holds before it is written.
pub record Pool : Type 0 where
  pub pool_alloc : ℕ → Option ℕ
  pub entry_alloc : ℕ → Bool
  pub uninitialised : DmaDesc

-- An entry of the scatter-gather list as it is mapped on the bus. A bus address has 64 bits and does
-- not wrap.
pub record Scatter : Type 0 where
  pub dma_address : ℕ
  pub dma_len : ℕ
