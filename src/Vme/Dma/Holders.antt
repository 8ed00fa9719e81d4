-- ===== src/Vme/Dma/Holders.antt =====
-- vmebridge/driver/vme_dma.c: who holds the semaphore and the channels.
use ht_drivers.Base.{
  ℕ, zero, suc, ◌+◌, ◌≤◌, ◌≡◌, ◌≢◌, ◌⊎◌, inl, inr, refl, sym, ap, ◌∙◌, Bool, true, false, some,
  List, [], ◌∷◌, ◌==◌, if◌then◌else◌, arith, Bool-cases, update,
}
use ht_drivers.Vme.Dma.Channels.{
  num_dma_channels, Phase, idle, in_queue, past_queue, leaving, at_lock, holding, cleared,
  no_channel, Exit, loaded, at_down, at_up, exited, refuse, enter, signal, down, look, leave, lock,
  clear, up, disable, exit_down, exit_up, exit_done, initially, then_step, Channels, task_at,
  set_task, goes_to, free_channel, lock_avail_channel, lock_phase, Step, idle_tasks, Reach,
  vme_dma_init,
}

-- How many of the semaphore's two units a task has, a channel, or the exit.
abbrev units : Phase → ℕ
units idle = 0
units in_queue = 0
units past_queue = 1
units leaving = 1
units at_lock = 1
units (holding c) = 1
units cleared = 1
units no_channel = 1

abbrev holds : ℕ → Phase → ℕ
holds c (holding d) = if d == c then 1 else 0
holds c idle = 0
holds c in_queue = 0
holds c past_queue = 0
holds c leaving = 0
holds c at_lock = 0
holds c cleared = 0
holds c no_channel = 0

abbrev locks : Phase → ℕ
locks at_lock = 1
locks idle = 0
locks in_queue = 0
locks past_queue = 0
locks leaving = 0
locks (holding d) = 0
locks cleared = 0
locks no_channel = 0

abbrev fails : Phase → ℕ
fails no_channel = 1
fails idle = 0
fails in_queue = 0
fails past_queue = 0
fails leaving = 0
fails (holding d) = 0
fails cleared = 0
fails at_lock = 0

abbrev exit_units : Exit → ℕ
exit_units loaded = 0
exit_units (at_down r) = 0
exit_units (at_up r) = 1
exit_units exited = 0

abbrev sum_of : (Phase → ℕ) → List Phase → ℕ
sum_of f [] = 0
sum_of f (t ∷ ts) = f t + sum_of f ts

sum_of-set_task :
    (f : Phase → ℕ) (ts : List Phase) (i : ℕ) (p q : Phase)
    → task_at ts i ≡ some p
    → sum_of f (set_task ts i q) + f p ≡ sum_of f ts + f q
sum_of-set_task f [] i p q h = absurd cc
sum_of-set_task f (t ∷ ts) zero p q h = let same : t ≡ p = cc in rw same (omega arith)
sum_of-set_task f (t ∷ ts) (suc i) p q h = omega (arith, sum_of-set_task f ts i p q h)

sum_of-idle : (f : Phase → ℕ) (n : ℕ) → f idle ≡ 0 → sum_of f (idle_tasks n) ≡ 0
unfolding idle_tasks
sum_of-idle f zero h = refl
sum_of-idle f (suc n) h = omega (arith, h, sum_of-idle f n h)

-- A task holds one channel at most, and has a unit of the semaphore meanwhile.
holds-units : (p : Phase) → holds 0 p + holds 1 p + locks p ≤ units p
holds-units idle = omega arith
holds-units in_queue = omega arith
holds-units past_queue = omega arith
holds-units leaving = omega arith
holds-units at_lock = omega arith
holds-units (holding c) = ground arith
holds-units cleared = omega arith
holds-units no_channel = omega arith

sum_of-units :
    (ts : List Phase)
    → sum_of (holds 0) ts + sum_of (holds 1) ts + sum_of locks ts ≤ sum_of units ts
sum_of-units [] = omega arith
sum_of-units (t ∷ ts) = omega (arith, sum_of-units ts, holds-units t)

-- The units are all there, the flags say who holds a channel, and no task has failed to get one.
record Inv (s : Channels) : Type 0 where
  counted : s.dma_semaphore + sum_of units s.tasks + exit_units s.exit ≡ num_dma_channels
  held : (c : ℕ) → sum_of (holds c) s.tasks ≡ s.busy c
  single : (c : ℕ) → s.busy c ≤ 1
  none_fails : sum_of fails s.tasks ≡ 0

vme_dma_init-Inv : (n : ℕ) → Inv (vme_dma_init n)
vme_dma_init-Inv n = record {
  counted = omega (arith, sum_of-idle units n refl);
  held = λ c. sum_of-idle (holds c) n refl;
  single = λ c. omega arith;
  none_fails = sum_of-idle fails n refl;
}

-- A task's step that touches no channel.
goes_to-Inv :
    (s : Channels) (i sem : ℕ) (p q : Phase)
    → Inv s
    → task_at s.tasks i ≡ some p
    → ((c : ℕ) → holds c p ≡ holds c q)
    → fails p ≡ fails q
    → sem + units q ≡ s.dma_semaphore + units p
    → Inv (record (goes_to s i q) { dma_semaphore = sem })
goes_to-Inv s i sem p q v at same_held same_fails same_units = record {
  counted = omega (arith, v.counted, sum_of-set_task units s.tasks i p q at);
  held = λ c. omega (arith, v.held c, sum_of-set_task (holds c) s.tasks i p q at, same_held c);
  single = v.single;
  none_fails = omega (arith, v.none_fails, sum_of-set_task fails s.tasks i p q at, same_fails);
}

exit-Inv :
    (s : Channels) (sem : ℕ) (off : Bool) (e : Exit)
    → Inv s
    → sem + exit_units e ≡ s.dma_semaphore + exit_units s.exit
    → Inv (record s { dma_semaphore = sem; dma_disable = off; exit = e })
exit-Inv s sem off e v same = record {
  counted = omega (arith, v.counted, same);
  held = v.held;
  single = v.single;
  none_fails = v.none_fails;
}

sum_of_at :
    (f : Phase → ℕ) (ts : List Phase) (i : ℕ) (p : Phase)
    → task_at ts i ≡ some p
    → f p ≤ sum_of f ts
sum_of_at f [] i p h = absurd cc
sum_of_at f (t ∷ ts) zero p h = let same : t ≡ p = cc in rw (sym same) (omega arith)
sum_of_at f (t ∷ ts) (suc i) p h = omega (arith, sum_of_at f ts i p h)

-- One of the two channels is free while a task looks for one.
one_free :
    (s : Channels) (i : ℕ)
    → Inv s
    → task_at s.tasks i ≡ some at_lock
    → (s.busy 0 ≡ 0) ⊎ ((s.busy 0 ≢ 0) × (s.busy 1 ≡ 0))
one_free s i v at =
    let a = v.held 0 in
    let b = v.held 1 in
    let c = v.counted in
    let d = sum_of-units s.tasks in let e = sum_of_at locks s.tasks i at_lock at in ground arith

took-Inv :
    (s : Channels) (i c : ℕ)
    → Inv s
    → task_at s.tasks i ≡ some at_lock
    → s.busy c ≡ 0
    → Inv (goes_to (record s { busy = update s.busy c 1 }) i (holding c))
took-Inv s i c v at free = record {
  counted = omega (arith, v.counted, sum_of-set_task units s.tasks i at_lock (holding c) at);
  held = λ d.
      let h = v.held d in
      let q = sum_of-set_task (holds d) s.tasks i at_lock (holding c) at in
      elim (Bool-cases (d == c)) [
        | inl e ↦
            let same : d ≡ c = ground arith in
            let was : s.busy d ≡ 0 = ap s.busy same ∙ free in ground arith
        | inr e ↦ ground arith
      ];
  single = λ d. let h = v.single d in ground arith;
  none_fails = omega (arith, v.none_fails, sum_of-set_task fails s.tasks i at_lock (holding c) at);
}

cleared-Inv :
    (s : Channels) (i c : ℕ)
    → Inv s
    → task_at s.tasks i ≡ some (holding c)
    → Inv (record (goes_to s i cleared) { busy = update s.busy c 0 })
cleared-Inv s i c v at = record {
  counted = omega (arith, v.counted, sum_of-set_task units s.tasks i (holding c) cleared at);
  held = λ d.
      let h = v.held d in
      let q = sum_of-set_task (holds d) s.tasks i (holding c) cleared at in
      let m = v.single d in
      elim (Bool-cases (d == c)) [ inl e ↦ ground arith | inr e ↦ ground arith ];
  single = λ d. let h = v.single d in ground arith;
  none_fails = omega (arith, v.none_fails, sum_of-set_task fails s.tasks i (holding c) cleared at);
}

locked-Inv :
    (s : Channels) (i : ℕ)
    → Inv s
    → task_at s.tasks i ≡ some at_lock
    → Inv (goes_to (lock_avail_channel s).0 i (lock_phase (lock_avail_channel s).1))
unfolding lock_avail_channel free_channel
locked-Inv s i v at = elim (one_free s i v at) [
  | inl free ↦
      let e : (s.busy 0 == 0) ≡ true = ground arith in
      rw (lock_avail_channel, free_channel, e) (took-Inv s i 0 v at free)
  | inr (full, free) ↦
      let e : (s.busy 0 == 0) ≡ false = ground arith in
      let e1 : (s.busy 1 == 0) ≡ true = ground arith in
      rw (lock_avail_channel, free_channel, e, e1) (took-Inv s i 1 v at free)
]

Step-Inv : (s t : Channels) → Inv s → Step s t → Inv t
Step-Inv s _ v (refuse i at off) = v
Step-Inv s _ v (enter i at on) =
    goes_to-Inv s i s.dma_semaphore idle in_queue v at (λ c. refl) refl refl
Step-Inv s _ v (signal i at) =
    goes_to-Inv s i s.dma_semaphore in_queue idle v at (λ c. refl) refl refl
Step-Inv s _ v (down i n at some_left) =
    goes_to-Inv s i n in_queue past_queue v at (λ c. refl) refl (omega (arith, some_left))
Step-Inv s _ v (look i at) =
    elim s.dma_disable as (λ b. Inv (goes_to s i (if b then leaving else at_lock))) [
      | true ↦ goes_to-Inv s i s.dma_semaphore past_queue leaving v at (λ c. refl) refl refl
      | false ↦ goes_to-Inv s i s.dma_semaphore past_queue at_lock v at (λ c. refl) refl refl
    ]
Step-Inv s _ v (leave i at) =
    goes_to-Inv s i (suc s.dma_semaphore) leaving idle v at (λ c. refl) refl (omega arith)
Step-Inv s _ v (lock i at) = locked-Inv s i v at
Step-Inv s _ v (clear i c at) = cleared-Inv s i c v at
Step-Inv s _ v (up i at) =
    goes_to-Inv s i (suc s.dma_semaphore) cleared idle v at (λ c. refl) refl (omega arith)
Step-Inv s _ v (disable at) =
    exit-Inv s s.dma_semaphore true (at_down num_dma_channels) v (rw at refl)
Step-Inv s _ v (exit_down r n at some_left) =
    exit-Inv s n s.dma_disable (at_up r) v (rw at (omega (arith, some_left)))
Step-Inv s _ v (exit_up r at) =
    exit-Inv s (suc s.dma_semaphore) s.dma_disable (at_down r) v (rw at (omega arith))
Step-Inv s _ v (exit_done at) = exit-Inv s s.dma_semaphore s.dma_disable exited v (rw at refl)

Reach-Inv : (n : ℕ) (s : Channels) → Reach n s → Inv s
Reach-Inv n _ initially = vme_dma_init-Inv n
Reach-Inv n _ (then_step {s = s} {t = t} r step) = Step-Inv s t (Reach-Inv n s r) step

-- In every interleaving of any number of tasks and of the module's exit, a task that is past the
-- semaphore finds a channel: the error -EDEADLK is never returned.
pub lock_avail_channel-finds :
    (n : ℕ) (s : Channels) (i : ℕ) → Reach n s → task_at s.tasks i ≢ some no_channel
lock_avail_channel-finds n s i r at =
    let v = Reach-Inv n s r in omega (arith, v.none_fails, sum_of_at fails s.tasks i no_channel at)

sum_of_two :
    (f : Phase → ℕ) (ts : List Phase) (i j : ℕ) (p q : Phase)
    → task_at ts i ≡ some p
    → task_at ts j ≡ some q
    → i ≢ j
    → f p + f q ≤ sum_of f ts
sum_of_two f [] i j p q h k ne = absurd cc
sum_of_two f (t ∷ ts) zero zero p q h k ne = absurd (ne refl)
sum_of_two f (t ∷ ts) zero (suc j) p q h k ne =
    let same : t ≡ p = cc in rw (sym same) (omega (arith, sum_of_at f ts j q k))
sum_of_two f (t ∷ ts) (suc i) zero p q h k ne =
    let same : t ≡ q = cc in rw (sym same) (omega (arith, sum_of_at f ts i p h))
sum_of_two f (t ∷ ts) (suc i) (suc j) p q h k ne =
    omega (arith, sum_of_two f ts i j p q h k (λ e. ne (ap suc e)))

-- Two tasks never have the same channel.
pub holding_alone :
    (n : ℕ) (s : Channels) (i j c : ℕ)
    → Reach n s
    → task_at s.tasks i ≡ some (holding c)
    → task_at s.tasks j ≡ some (holding c)
    → i ≡ j
holding_alone n s i j c r hi hj = elim (Bool-cases (i == j)) [
  | inl e ↦ ground arith
  | inr e ↦
      let v = Reach-Inv n s r in
      let ne : i ≢ j = ground arith in
      let two = sum_of_two (holds c) s.tasks i j (holding c) (holding c) hi hj ne in
      let h = v.held c in let m = v.single c in absurd (ground arith)
]
