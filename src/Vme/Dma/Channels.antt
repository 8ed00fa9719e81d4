-- ===== src/Vme/Dma/Channels.antt =====
-- vmebridge/driver/vme_dma.c: how tasks get and give back a DMA channel, step by step.
use ht_drivers.Base.{
  ℕ, zero, suc, ◌≡◌, Bool, true, false, Option, none, some, List, [], ◌∷◌, ◌==◌, if◌then◌else◌,
  update,
}

-- TSI148_NUM_DMA_CHANNELS.
abbrev pub num_dma_channels : ℕ
num_dma_channels = 2

-- Where a task is: out of `vme_dma_channel_acquire`, before `down_interruptible`, after it, before
-- `up` because of `dma_disable`, before `mutex_lock`, with a channel, after the channel's flag is
-- cleared, or with the error -EDEADLK.
pub data Phase : Type 0 where
  idle : Phase
  in_queue : Phase
  past_queue : Phase
  leaving : Phase
  at_lock : Phase
  holding : (channel : ℕ) → Phase
  cleared : Phase
  no_channel : Phase

-- Where `vme_dma_exit` is: before it, before the `down` or the `up` of a round of its last loop, with
-- the number of rounds that are left, or after it.
pub data Exit : Type 0 where
  loaded : Exit
  at_down : (rounds : ℕ) → Exit
  at_up : (rounds : ℕ) → Exit
  exited : Exit

pub record Channels : Type 0 where
  pub dma_semaphore : ℕ
  pub dma_disable : Bool
  pub busy : ℕ → ℕ
  pub tasks : List Phase
  pub exit : Exit

abbrev pub task_at : List Phase → ℕ → Option Phase
task_at [] i = none
task_at (t ∷ ts) zero = some t
task_at (t ∷ ts) (suc i) = task_at ts i

abbrev pub set_task : List Phase → ℕ → Phase → List Phase
set_task [] i p = []
set_task (t ∷ ts) zero p = p ∷ ts
set_task (t ∷ ts) (suc i) p = t ∷ set_task ts i p

abbrev pub goes_to : Channels → ℕ → Phase → Channels
goes_to s i p = record s { tasks = set_task s.tasks i p }

-- The loop on the channels from `i` on.
unfoldable pub free_channel : (left i : ℕ) → (ℕ → ℕ) → Option ℕ
free_channel zero i busy = none
free_channel (suc n) i busy =
    let rest = free_channel n (suc i) busy in if busy i == 0 then some i else rest

unfoldable pub lock_avail_channel : Channels → Channels × Option ℕ
lock_avail_channel s = elim (free_channel num_dma_channels 0 s.busy) [
  | none ↦ (s, none)
  | some c ↦ (record s { busy = update s.busy c 1 }, some c)
]

abbrev pub lock_phase : Option ℕ → Phase
lock_phase none = no_channel
lock_phase (some c) = holding c

-- What the module does from `vme_dma_init` on. `dma_lock` is held from before a look at a `busy` flag
-- until after its write, and so each of the two is one step.
pub data Step : Channels → Channels → Type 0 where
  -- `vme_dma_channel_acquire`.
  refuse : {s : Channels} (i : ℕ) → task_at s.tasks i ≡ some idle → s.dma_disable ≡ true → Step s s
  enter :
      {s : Channels} (i : ℕ)
      → task_at s.tasks i ≡ some idle
      → s.dma_disable ≡ false
      → Step s (goes_to s i in_queue)
  signal : {s : Channels} (i : ℕ) → task_at s.tasks i ≡ some in_queue → Step s (goes_to s i idle)
  down :
      {s : Channels} (i n : ℕ)
      → task_at s.tasks i ≡ some in_queue
      → s.dma_semaphore ≡ suc n
      → Step s (record (goes_to s i past_queue) { dma_semaphore = n })
  look :
      {s : Channels} (i : ℕ)
      → task_at s.tasks i ≡ some past_queue
      → Step s (goes_to s i (if s.dma_disable then leaving else at_lock))
  leave :
      {s : Channels} (i : ℕ)
      → task_at s.tasks i ≡ some leaving
      → Step s (record (goes_to s i idle) { dma_semaphore = suc s.dma_semaphore })
  lock :
      {s : Channels} (i : ℕ)
      → task_at s.tasks i ≡ some at_lock
      → Step s (goes_to (lock_avail_channel s).0 i (lock_phase (lock_avail_channel s).1))
  -- `vme_dma_channel_release`.
  clear :
      {s : Channels} (i c : ℕ)
      → task_at s.tasks i ≡ some (holding c)
      → Step s (record (goes_to s i cleared) { busy = update s.busy c 0 })
  up :
      {s : Channels} (i : ℕ)
      → task_at s.tasks i ≡ some cleared
      → Step s (record (goes_to s i idle) { dma_semaphore = suc s.dma_semaphore })
  -- `vme_dma_exit`.
  disable :
      {s : Channels}
      → s.exit ≡ loaded
      → Step s (record s { dma_disable = true; exit = at_down num_dma_channels })
  exit_down :
      {s : Channels} (r n : ℕ)
      → s.exit ≡ at_down (suc r)
      → s.dma_semaphore ≡ suc n
      → Step s (record s { dma_semaphore = n; exit = at_up r })
  exit_up :
      {s : Channels} (r : ℕ)
      → s.exit ≡ at_up r
      → Step s (record s { dma_semaphore = suc s.dma_semaphore; exit = at_down r })
  exit_done : {s : Channels} → s.exit ≡ at_down 0 → Step s (record s { exit = exited })

-- After `vme_dma_init`, with a task for each that will ever want a channel.
unfoldable pub idle_tasks : ℕ → List Phase
idle_tasks zero = []
idle_tasks (suc n) = idle ∷ idle_tasks n

abbrev pub vme_dma_init : (tasks : ℕ) → Channels
vme_dma_init n = record {
  dma_semaphore = num_dma_channels;
  dma_disable = false;
  busy = λ i. 0;
  tasks = idle_tasks n;
  exit = loaded;
}

pub data Reach (n : ℕ) : Channels → Type 0 where
  initially : Reach n (vme_dma_init n)
  then_step : {s t : Channels} → Reach n s → Step s t → Reach n t
