-- ===== src/Vme/Window/Owners.antt =====
-- What one file's calls do to the mappings of other files.
use ht_drivers.Base.{
  ℕ, suc, zero, ◌≡◌, ◌≢◌, refl, sym, ap, ◌∙◌, Bool, true, inl, inr, List, [], ◌∷◌, some, arith,
  drop_if, Rc, Option-cases, if_cases, ◌==◌, ==_iff,
}
use ht_drivers.Vme.Types.{VmeMapping}
use ht_drivers.Vme.Window.State.{Window, Bridge, Kernel, Mapping, tick, put_window, unlock_window}
use ht_drivers.Vme.Window.Mappings.{
  same_mapping, unlink_first, remove_mapping, free_owned, release_windows, vme_window_release,
}
use ht_drivers.Vme.Window.Invariant.{lock_cases}

-- The mappings of a list that a file does not own.
abbrev pub others : ℕ → List Mapping → List Mapping
others file = drop_if λ m. m.client.file == file

-- No window has lost or gained a mapping of another file.
pub record KeepsOthers (file : ℕ) (b c : Bridge) : Type 0 where
  pub kept :
      (j : ℕ) → others file (c.window_table j).mappings ≡ others file (b.window_table j).mappings

KeepsOthers-trans :
    {file : ℕ} {b c d : Bridge} → KeepsOthers file b c → KeepsOthers file c d → KeepsOthers file b d
KeepsOthers-trans p q = record { kept = λ j. q.kept j ∙ p.kept j }

put_window-KeepsOthers :
    (file i : ℕ) (w : Window) (b : Bridge)
    → others file w.mappings ≡ others file (b.window_table i).mappings
    → KeepsOthers file b (put_window i w b)
put_window-KeepsOthers file i w b e = record {
  kept = λ j.
      if_cases (λ (v : Window). others file v.mappings ≡ others file (b.window_table j).mappings)
        (j == i)
        (λ q. e ∙ ap (λ n. others file (b.window_table n).mappings) (sym ((==_iff j i).0 q)))
        (λ _. refl);
}

unlock-KeepsOthers : (file i : ℕ) (b : Bridge) → KeepsOthers file b (unlock_window i b)
unfolding unlock_window
unlock-KeepsOthers file i b = put_window-KeepsOthers file i _ b refl

-- The bridge with mutex `i` taken.
abbrev locked : ℕ → Bridge → Bridge
locked i b = put_window i (record (b.window_table i) { lock = true }) (tick b)

locked-KeepsOthers : (file i : ℕ) (b : Bridge) → KeepsOthers file b (locked i b)
locked-KeepsOthers file i b = record {
  kept =
      (put_window-KeepsOthers file i (record (b.window_table i) { lock = true }) (tick b)
        refl).kept;
}

unlink-others :
    (p : Mapping → Bool) (file : ℕ) (ms : List Mapping) {rest : List Mapping}
    → ((m : Mapping) → p m ≡ true → (m.client.file == file) ≡ true)
    → unlink_first p ms ≡ some rest
    → others file rest ≡ others file ms
unfolding unlink_first
unlink-others p file [] own e = cc
unlink-others p file (m ∷ ms) {rest} own e = elim (Option-cases (unlink_first p ms)) [
  | inl q ↦ ground (arith, own m)
  | inr (more, q) ↦ ground (arith, own m, unlink-others p file ms {rest = more} own q)
]

same_mapping-owned :
    (d : VmeMapping) (file : ℕ) (m : Mapping)
    → file ≢ 0
    → same_mapping d file m ≡ true
    → (m.client.file == file) ≡ true
unfolding same_mapping
same_mapping-owned d file m h e = ground arith

remove_mapping-KeepsOthers :
    (i : ℕ) (d : VmeMapping) (file : ℕ) (b : Bridge)
    → file ≢ 0
    → KeepsOthers file b (remove_mapping i d file b).0
unfolding remove_mapping
remove_mapping-KeepsOthers i d file b h =
    elim (Option-cases (unlink_first (same_mapping d file) (b.window_table i).mappings)) [
      | inl e ↦ rw (e, remove_mapping) (record { kept = λ _. refl })
      | inr (rest, e) ↦
          rw (e, remove_mapping)
            (put_window-KeepsOthers file i _ b
              (unlink-others _ file _ (λ m. same_mapping-owned d file m h) e))
    ]

drop_if-twice : (p : Mapping → Bool) (ms : List Mapping) → drop_if p (drop_if p ms) ≡ drop_if p ms
drop_if-twice p [] = refl
drop_if-twice p (m ∷ ms) = ground (arith, drop_if-twice p ms)

free_owned-KeepsOthers : (file i : ℕ) (b : Bridge) → KeepsOthers file b (free_owned file i b)
unfolding free_owned
free_owned-KeepsOthers file i b =
    if_cases (KeepsOthers file b) (b.window_table i).active
      (λ _. put_window-KeepsOthers file i _ b (drop_if-twice _ (b.window_table i).mappings))
      (λ _. record { kept = λ _. refl })

release_windows-KeepsOthers :
    (k : Kernel) (file n i : ℕ) (b : Bridge) → KeepsOthers file b (release_windows k file n i b).0
unfolding release_windows
release_windows-KeepsOthers k file zero i b = record { kept = λ _. refl }
release_windows-KeepsOthers k file (suc n) i b =
    lock_cases (λ (r : Bridge × Rc). KeepsOthers file b r.0) k i _ _ b
      (λ _. KeepsOthers-trans (locked-KeepsOthers file i b) (
        KeepsOthers-trans (free_owned-KeepsOthers file i (locked i b)) (
          KeepsOthers-trans (unlock-KeepsOthers file i (free_owned file i (locked i b)))
            (release_windows-KeepsOthers k file n (suc i) _))))
      (record { kept = λ _. refl })

-- Closing a file, on whatever path, leaves the mappings of the other files on every window, in order.
pub close-KeepsOthers :
    (k : Kernel) (file : ℕ) (b : Bridge) → KeepsOthers file b (vme_window_release k file b).0
unfolding vme_window_release
close-KeepsOthers k file b = release_windows-KeepsOthers k file 8 0 b
