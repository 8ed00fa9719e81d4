-- ===== src/Vme/Window/Steps.antt =====
-- The operations on windows keep the invariant.
use ht_drivers.Base.{
  ℕ, suc, zero, ◌+◌, ◌<◌, ◌≡◌, refl, sym, Bool, true, inl, inr, List, [], ◌∷◌, ◌++◌, some, arith,
  pos, incr, decr, ◌≤◌, length, length-append, drop_if, Rc, Bool-cases, if_cases, Option-cases, ap,
  ◌∙◌,
}
use ht_drivers.Vme.Types.{VmeMapping}
use ht_drivers.Vme.Window.State.{Window, Bridge, Kernel, Mapping}
use ht_drivers.Vme.Window.Mappings.{
  add_mapping, same_mapping, unlink_first, remove_mapping, users_after, free_mappings,
  release_windows, free_owned,
}
use ht_drivers.Vme.Window.Invariant.{
  WindowInv, Inv, Holding, update-Holding, TableInv-update, Holding-unlock, lock_rule,
}

-- One user fewer for each mapping that is freed.
users_after-plus :
    (p : Mapping → Bool) (ms : List Mapping) (n : ℕ)
    → users_after p ms (pos (length ms + n)) ≡ pos (length (drop_if p ms) + n)
unfolding users_after
users_after-plus p [] n = refl
users_after-plus p (m ∷ ms) n = elim (Bool-cases (p m)) [
  | inl e ↦
      let q : suc (length ms) + n ≡ suc (length ms + n) = omega arith in
      rw (e, q) (users_after-plus p ms n)
  | inr e ↦
      let q : suc (length ms) + n ≡ length ms + suc n = omega arith in
      let r : suc (length (drop_if p ms)) + n ≡ length (drop_if p ms) + suc n = omega arith in
      rw (e, q, r) (users_after-plus p ms (suc n))
]

users_after-length :
    (p : Mapping → Bool) (ms : List Mapping)
    → users_after p ms (pos (length ms)) ≡ pos (length (drop_if p ms))
users_after-length p ms =
    let q : length ms ≡ length ms + 0 = omega arith in
    let r : length (drop_if p ms) ≡ length (drop_if p ms) + 0 = omega arith in
    ap (λ n. users_after p ms (pos n)) q ∙ users_after-plus p ms 0 ∙ ap pos (sym r)

unlink_first-length :
    (p : Mapping → Bool) (ms : List Mapping) {rest : List Mapping}
    → unlink_first p ms ≡ some rest
    → length ms ≡ suc (length rest)
unfolding unlink_first
unlink_first-length p [] h = cc
unlink_first-length p (m ∷ ms) h = elim (Option-cases (unlink_first p ms)) [
  | inl e ↦ ground arith
  | inr (more, e) ↦ ground (arith, unlink_first-length p ms {rest = more} e)
]

drop_if-nil : (p : Mapping → Bool) (ms : List Mapping) → ms ≡ [] → drop_if p ms ≡ []
drop_if-nil p [] e = refl
drop_if-nil p (m ∷ ms) e = cc

pub free_mappings-WindowInv :
    (p : Mapping → Bool) (i : ℕ) (w : Window)
    → WindowInv true i w
    → WindowInv true i (free_mappings p w)
unfolding free_mappings
free_mappings-WindowInv p i w v = record {
  lock = v.lock;
  counted = ap (users_after p w.mappings) v.counted ∙ users_after-length p w.mappings;
  idle = λ e. drop_if-nil p w.mappings (v.idle e);
  numbered = v.numbered;
  enabled = v.enabled;
}

unlinked-WindowInv :
    (p : Mapping → Bool) (i : ℕ) (w : Window) (rest : List Mapping)
    → unlink_first p w.mappings ≡ some rest
    → WindowInv true i w
    → WindowInv true i (record w { mappings = rest; users = decr w.users })
unlinked-WindowInv p i w rest e v =
    let q = unlink_first-length p w.mappings e in
    record {
      lock = v.lock;
      counted = ap decr (v.counted ∙ ap pos q);
      idle = λ off. absurd (omega (arith, q, ap length (v.idle off)));
      numbered = v.numbered;
      enabled = v.enabled;
    }

pub remove_mapping-Holding :
    (i : ℕ) (desc : VmeMapping) (file : ℕ) (b : Bridge)
    → Holding i b.window_table
    → Holding i (remove_mapping i desc file b).0.window_table
unfolding remove_mapping
remove_mapping-Holding i desc file b h =
    elim (Option-cases (unlink_first (same_mapping desc file) (b.window_table i).mappings)) [
      | inl e ↦ rw (e, remove_mapping) h
      | inr (rest, e) ↦
          rw (e, remove_mapping)
            (update-Holding _ h (unlinked-WindowInv _ i (b.window_table i) rest e h.mine))
    ]

appended-WindowInv :
    {l : Bool} (m : Mapping) (i : ℕ) (w : Window)
    → w.active ≡ true
    → WindowInv l i w
    → WindowInv l i (record w { mappings = w.mappings ++ m ∷ []; users = incr w.users })
appended-WindowInv m i w live v = record {
  lock = v.lock;
  counted = ap incr v.counted ∙ ap pos (omega (arith, length-append w.mappings (m ∷ [])));
  idle = λ e. cc;
  numbered = v.numbered;
  enabled = v.enabled;
}

pub add_mapping-Holding :
    (k : Kernel) (i : ℕ) (desc : VmeMapping) (file : ℕ) (b : Bridge)
    → (b.window_table i).active ≡ true
    → Holding i b.window_table
    → Holding i (add_mapping k i desc file b).0.window_table
unfolding add_mapping
add_mapping-Holding k i desc file b live h = elim (Bool-cases (k.allocated b.calls)) [
  | inl e ↦ rw (e, add_mapping) (update-Holding _ h (appended-WindowInv _ i _ live h.mine))
  | inr e ↦ rw (e, add_mapping) h
]

free_owned-Holding :
    (file i : ℕ) (b : Bridge)
    → Holding i b.window_table
    → Holding i (free_owned file i b).window_table
unfolding free_owned
free_owned-Holding file i b h =
    if_cases (λ (c : Bridge). Holding i c.window_table) (b.window_table i).active
      (λ _. update-Holding _ h (free_mappings-WindowInv _ i _ h.mine)) (λ _. h)

-- The mutex is not taken for a window that the call has just made.
pub add_mapping-Inv :
    (k : Kernel) (i : ℕ) (desc : VmeMapping) (file : ℕ) (b : Bridge)
    → i < 8
    → (b.window_table i).active ≡ true
    → Inv b
    → Inv (add_mapping k i desc file b).0
unfolding add_mapping
add_mapping-Inv k i desc file b hi live v =
    if_cases (λ (r : Bridge × Rc). Inv r.0) (k.allocated b.calls)
      (λ _. TableInv-update i _ _ v (appended-WindowInv _ i _ live (v i hi))) (λ _. v)

-- Closing a file keeps the invariant, also when a signal ends it early.
pub release_windows-Inv :
    (k : Kernel) (file n i : ℕ) (b : Bridge)
    → i + n ≤ 8
    → Inv b
    → Inv (release_windows k file n i b).0
unfolding release_windows
release_windows-Inv k file zero i b le v = v
release_windows-Inv k file (suc n) i b le v =
    lock_rule (λ (r : Bridge × Rc). Inv r.0) k i _ _ b (omega arith) v
      (λ b1 h.
        release_windows-Inv k file n (suc i) _ (omega arith)
          (Holding-unlock i _ (free_owned-Holding file i b1 h)))
      (λ b1 v1. v1)
