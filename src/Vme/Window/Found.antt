-- ===== src/Vme/Window/Found.antt =====
-- What a mapping that was asked for and found, or made, is.
use ht_drivers.Base.{
  ℕ, ◌≡◌, List, [], ◌∷◌, ◌++◌, arith, Rc, success, failure, Errno, if_cases, ◌==◌, Option-cases,
  inl, inr,
}
use ht_drivers.Vme.Types.{VmeMapping}
use ht_drivers.Vme.Window.State.{Bridge, Kernel, Mapping, unlock_window}
use ht_drivers.Vme.Window.Mappings.{add_mapping, new_mapping}
use ht_drivers.Vme.Window.Create.{Reply}
use ht_drivers.Vme.Window.Find.{
  Search, found, exhausted, stopped, search_windows, first_unused, place_mapping, attach,
  attach_made, create_for, unlock_reply, search_done, find_window, sane, find_mapping_for,
  vme_mapping_sanity_check,
}

-- A call that succeeds returns the mapping `m` with the addresses that some window gives it, and this
-- is the window's last mapping, with `file` as its owner.
record IsFound (k : Kernel) (m : VmeMapping) (file : ℕ) (r : Reply) : Type 0 where
  placed :
      r.2 ≡ success
      → (i : ℕ) × (before : List Mapping) × (r.1 ≡ place_mapping i (r.0.window_table i) m)
        × ((r.0.window_table i).mappings ≡ before ++ new_mapping k r.1 file ∷ [])

failed-IsFound :
    (k : Kernel) (m : VmeMapping) (file : ℕ) (b : Bridge) (d : VmeMapping) (x : Errno)
    → IsFound k m file (b, d, failure x)
failed-IsFound k m file b d x = record { placed = λ e. cc }

attach-IsFound :
    (k : Kernel) (i : ℕ) (m : VmeMapping) (file : ℕ) (b : Bridge)
    → IsFound k m file (attach k i m file b)
unfolding attach add_mapping place_mapping
attach-IsFound k i m file b = record {
  placed = λ e. (i, (b.window_table i).mappings, ground arith, ground arith);
}

unlock-IsFound :
    (k : Kernel) (m : VmeMapping) (file i : ℕ) (r : Reply)
    → IsFound k m file r
    → IsFound k m file (unlock_reply i r)
unfolding unlock_reply unlock_window place_mapping
unlock-IsFound k m file i (b, d, rc) f = record {
  placed = λ e. let (j, before, p, q) = f.placed e in (j, before, ground arith, ground arith);
}

attach_made-IsFound :
    (k : Kernel) (i : ℕ) (m : VmeMapping) (file : ℕ) (r : Reply)
    → IsFound k m file (attach_made k i m file r)
unfolding attach_made
attach_made-IsFound k i m file (b, d, success) = attach-IsFound k i m file b
attach_made-IsFound k i m file (b, d, failure x) = failed-IsFound k m file b m x

create_for-IsFound :
    (k : Kernel) (m : VmeMapping) (file : ℕ) (b : Bridge) → IsFound k m file (create_for k m file b)
unfolding create_for
create_for-IsFound k m file b = elim (Option-cases (first_unused b 8 0)) [
  | inl e ↦ rw (e, create_for) (failed-IsFound k m file b m _)
  | inr (i, e) ↦ rw (e, create_for) (attach_made-IsFound k i m file _)
]

search_done-IsFound :
    (k : Kernel) (m : VmeMapping) (force file : ℕ) (r : Bridge × Search)
    → IsFound k m file (search_done k m force file r)
unfolding search_done
search_done-IsFound k m force file (b, stopped) = failed-IsFound k m file b m _
search_done-IsFound k m force file (b, found i) =
    unlock-IsFound k m file i _ (attach-IsFound k i m file b)
search_done-IsFound k m force file (b, exhausted) =
    if_cases (IsFound k m file) (force == 0) (λ _. failed-IsFound k m file b m _)
      (λ _. create_for-IsFound k m file b)

sane-IsFound :
    (k : Kernel) (m : VmeMapping) (force file : ℕ) (b : Bridge) (rc : Rc)
    → IsFound k m file (sane k m force file b rc)
unfolding sane find_window
sane-IsFound k m force file b success =
    search_done-IsFound k m force file (search_windows k m 8 0 b)
sane-IsFound k m force file b (failure x) = failed-IsFound k m file b m x

find_mapping_for-IsFound :
    (k : Kernel) (m : VmeMapping) (force file : ℕ) (b : Bridge)
    → IsFound k m file (find_mapping_for k m force file b)
unfolding find_mapping_for
find_mapping_for-IsFound k m force file b =
    sane-IsFound k m force file b (vme_mapping_sanity_check m)

-- A call for a mapping that succeeds, with a window that fits or one made for it, returns the mapping
-- with the addresses that some window gives it, and this is the window's last mapping, with `file` as
-- its owner.
pub find_mapping_for-placed :
    (k : Kernel) (m : VmeMapping) (force file : ℕ) (b : Bridge)
    → (find_mapping_for k m force file b).2 ≡ success
    → let (c, m', rc) = find_mapping_for k m force file b in
      (i : ℕ) × (before : List Mapping) × (m' ≡ place_mapping i (c.window_table i) m)
      × ((c.window_table i).mappings ≡ before ++ new_mapping k m' file ∷ [])
find_mapping_for-placed k m force file b h = (find_mapping_for-IsFound k m force file b).placed h
