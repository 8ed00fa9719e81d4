-- ===== src/Vme/Dma/Progress.antt =====
-- vmebridge/driver/vme_dma.c: a task in the queue of the semaphore gets a channel.
use ht_drivers.Base.{
  ℕ, zero, suc, ◌-◌, ◌<◌, ◌≡◌, refl, ap, ◌∙◌, false, Option, none, some, List, [], ◌∷◌,
  if◌then◌else◌, arith,
}
use ht_drivers.Vme.Dma.Channels.{
  Phase, in_queue, past_queue, leaving, at_lock, holding, Channels, task_at, set_task, goes_to,
  lock_avail_channel, lock_phase, down, look, lock, Reach, Step, then_step,
}
use ht_drivers.Vme.Dma.Holders.{lock_avail_channel-finds}

-- What is reached from a state, by any steps.
pub data ReachFrom (s : Channels) : Channels → Type 0 where
  here : ReachFrom s s
  then_from : {t u : Channels} → ReachFrom s t → Step t u → ReachFrom s u

Reach-ReachFrom : (n : ℕ) (s t : Channels) → Reach n s → ReachFrom s t → Reach n t
Reach-ReachFrom n s _ r here = r
Reach-ReachFrom n s _ r (then_from {t = t} {u = u} f step) =
    then_step {s = t} {t = u} (Reach-ReachFrom n s t r f) step

task_at-set_task :
    (ts : List Phase) (i : ℕ) (p q : Phase)
    → task_at ts i ≡ some p
    → task_at (set_task ts i q) i ≡ some q
task_at-set_task [] i p q h = absurd cc
task_at-set_task (t ∷ ts) zero p q h = refl
task_at-set_task (t ∷ ts) (suc i) p q h = task_at-set_task ts i p q h

lock_avail_channel-tasks : (s : Channels) → (lock_avail_channel s).0.tasks ≡ s.tasks
unfolding lock_avail_channel
lock_avail_channel-tasks s = ground arith

served :
    (n i : ℕ) (t : Channels) (o : Option ℕ)
    → Reach n t
    → task_at t.tasks i ≡ some (lock_phase o)
    → (c : ℕ) × (task_at t.tasks i ≡ some (holding c))
served n i t none r h = absurd (lock_avail_channel-finds n t i r h)
served n i t (some c) r h = (c, h)

-- From any state that is reached, if the semaphore is not 0 and transfers are not disabled, steps that
-- go on from this state lead to one in which a given task that waits in the queue has a channel.
pub in_queue-served :
    (n i : ℕ) (s : Channels)
    → Reach n s
    → task_at s.tasks i ≡ some in_queue
    → 0 < s.dma_semaphore
    → s.dma_disable ≡ false
    → (t : Channels) × ReachFrom s t × ((c : ℕ) × (task_at t.tasks i ≡ some (holding c)))
in_queue-served n i s r at some_left on =
    let m = s.dma_semaphore - 1 in
    let s1 : Channels = record (goes_to s i past_queue) { dma_semaphore = m } in
    let f1 : ReachFrom s s1 = then_from {t = s} {u = s1} here (down {s = s} i m at (omega arith)) in
    let at1 : task_at s1.tasks i ≡ some past_queue =
      task_at-set_task s.tasks i in_queue past_queue at in
    let s2 : Channels = goes_to s1 i (if s.dma_disable then leaving else at_lock) in
    let f2 : ReachFrom s s2 = then_from {t = s1} {u = s2} f1 (look {s = s1} i at1) in
    let phase : (if s.dma_disable then leaving else at_lock) ≡ at_lock = rw on refl in
    let at2 : task_at s2.tasks i ≡ some at_lock =
      task_at-set_task s1.tasks i past_queue _ at1 ∙ ap (λ p. some p) phase in
    let s3 : Channels =
      goes_to (lock_avail_channel s2).0 i (lock_phase (lock_avail_channel s2).1) in
    let f3 : ReachFrom s s3 = then_from {t = s2} {u = s3} f2 (lock {s = s2} i at2) in
    (
      s3,
      f3,
      served n i s3 (lock_avail_channel s2).1 (Reach-ReachFrom n s s3 r f3) (
          task_at-set_task (lock_avail_channel s2).0.tasks i at_lock _
            (rw (lock_avail_channel-tasks s2) at2)),
    )
