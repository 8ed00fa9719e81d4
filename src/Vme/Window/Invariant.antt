-- ===== src/Vme/Window/Invariant.antt =====
-- What holds of every window between two calls of the driver, and while a call holds one mutex.
use ht_drivers.Base.{
  ℕ, ◌<◌, ◌≡◌, refl, sym, subst, Bool, true, false, ◌||◌, inl, inr, [], some, arith, ℤ, pos, negsuc,
  length, ◌==◌, ==_iff, Bool-cases, update, update_self, update-ne, ◌≢◌,
}
use ht_drivers.Vme.Window.State.{
  Window, Bridge, Kernel, tick, put_window, with_lock, unlock_window, window_index,
}

-- The mutex is in the state `locked`, `users` counts the mappings, and a window that is not in use
-- has none. One in use carries its own number and is enabled in the chip.
pub record WindowInv (locked : Bool) (i : ℕ) (w : Window) : Type 0 where
  pub lock : w.lock ≡ locked
  pub counted : w.users ≡ pos (length w.mappings)
  pub idle : w.active ≡ false → w.mappings ≡ []
  pub numbered : w.active ≡ true → w.desc.window_num ≡ pos i
  pub enabled : w.active ≡ true → w.desc.window_enabled ≡ 1

abbrev pub TableInv : (ℕ → Window) → Type 0
TableInv t = (i : ℕ) → i < 8 → WindowInv false i (t i)

-- Between two calls every mutex is free and every window well formed.
abbrev pub Inv : Bridge → Type 0
Inv b = TableInv b.window_table

-- The invariant while the caller holds the mutex of window `i`, and no other.
pub record Holding (i : ℕ) (t : ℕ → Window) : Type 0 where
  pub bounded : i < 8
  pub mine : WindowInv true i (t i)
  pub others : (j : ℕ) → j < 8 → j ≢ i → WindowInv false j (t j)

pub window_index-some : (n : ℤ) {i : ℕ} → window_index n ≡ some i → (i < 8) × (n ≡ pos i)
window_index-some (pos n) h = ground arith
window_index-some (negsuc n) h = cc

pub WindowInv-lock :
    {l : Bool} (l' : Bool) {i : ℕ} {w : Window}
    → WindowInv l i w
    → WindowInv l' i (record w { lock = l' })
WindowInv-lock l' v = record {
  lock = refl;
  counted = v.counted;
  idle = v.idle;
  numbered = v.numbered;
  enabled = v.enabled;
}

module _ {i : ℕ} {t : ℕ → Window} (w : Window) (h : Holding i t) where
  pub update-Holding : WindowInv true i w → Holding i (update t i w)
  update-Holding v = record {
    bounded = h.bounded;
    mine = rw (update_self t i w) v;
    others = λ j hj ne. rw (update-ne t i w j ne) (h.others j hj ne);
  }

  pub update-TableInv : WindowInv false i w → TableInv (update t i w)
  update-TableInv v j hj = elim (Bool-cases (j == i)) [
    | inl e ↦ rw e (subst (λ n. WindowInv false n w) (sym ((==_iff j i).0 e)) v)
    | inr e ↦ rw e (h.others j hj (ground arith))
  ]

pub Holding-free :
    {i : ℕ} {t : ℕ → Window} → Holding i t → TableInv (update t i (record (t i) { lock = false }))
Holding-free h = update-TableInv _ h (WindowInv-lock false h.mine)

pub Holding-unlock : (i : ℕ) (b : Bridge) → Holding i b.window_table → Inv (unlock_window i b)
unfolding unlock_window
Holding-unlock i b h = Holding-free h

pub TableInv-update :
    (i : ℕ) (t : ℕ → Window) (w : Window)
    → TableInv t
    → WindowInv false i w
    → TableInv (update t i w)
TableInv-update i t w all v j hj = elim (Bool-cases (j == i)) [
  | inl e ↦ rw e (subst (λ n. WindowInv false n w) (sym ((==_iff j i).0 e)) v)
  | inr e ↦ rw e (all j hj)
]

pub TableInv-hold :
    {i : ℕ} (t : ℕ → Window)
    → i < 8
    → TableInv t
    → Holding i (update t i (record (t i) { lock = true }))
TableInv-hold {i} t hi v = record {
  bounded = hi;
  mine = rw (update_self t i _) (WindowInv-lock true (v i hi));
  others = λ j hj ne. rw (update-ne t i _ j ne) (v j hj);
}

-- The two answers of `mutex_lock_interruptible`, with the bridge written out.
pub lock_cases {ℓ κ} :
    {A : Type ℓ} (P : A → Type κ) (k : Kernel) (i : ℕ) (granted refused : Bridge → A) (b : Bridge)
    → (k.interrupted b.calls ≡ false
        → P (granted (put_window i (record (b.window_table i) { lock = true }) (tick b))))
    → P (refused (tick b))
    → P (with_lock k i granted refused b)
unfolding with_lock
lock_cases P k i granted refused b yes_lock no_lock =
    elim (Bool-cases ((b.window_table i).lock || k.interrupted b.calls)) [
      | inl e ↦ rw e no_lock
      | inr e ↦ rw e (yes_lock (ground arith))
    ]

-- A statement on what follows holds if it holds of every bridge that holds the mutex, granted, and
-- of every bridge with the invariant, refused.
pub lock_rule {ℓ κ} :
    {A : Type ℓ} (P : A → Type κ) (k : Kernel) (i : ℕ) (granted refused : Bridge → A) (b : Bridge)
    → i < 8
    → Inv b
    → ((b1 : Bridge) → Holding i b1.window_table → P (granted b1))
    → ((b1 : Bridge) → Inv b1 → P (refused b1))
    → P (with_lock k i granted refused b)
lock_rule P k i granted refused b hi v yes_lock no_lock =
    lock_cases P k i granted refused b (λ _. yes_lock _ (TableInv-hold b.window_table hi v))
      (no_lock (tick b) v)
