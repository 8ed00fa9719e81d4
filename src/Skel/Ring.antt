-- ===== src/Skel/Ring.antt =====
-- The entries of a ring, from its read pointer on.
use ht_drivers.Base.{
  ℕ, zero, suc, ◌+◌, ◌%◌, ◌≤◌, ◌<◌, ◌≡◌, refl, ap, true, false, List, [], ◌∷◌, ◌++◌, ◌==◌, length,
  arith, update, ==_iff, sym, ◌∙◌,
}
use ht_drivers.Skel.Queue.{ReadBuf, next_slot}

unfoldable pub ring : (ℕ → ReadBuf) → (start count : ℕ) → List ReadBuf
ring e r zero = []
ring e r (suc n) = e r ∷ ring e (next_slot r) n

pub length-ring : (e : ℕ → ReadBuf) (r n : ℕ) → length (ring e r n) ≡ n
unfolding ring
length-ring e r zero = refl
length-ring e r (suc n) = ap suc (length-ring e (next_slot r) n)

-- One entry more.
ring-last :
    (e : ℕ → ReadBuf) (r n : ℕ) → r < 32 → ring e r n ++ e ((r + n) % 32) ∷ [] ≡ ring e r (suc n)
unfolding ring
ring-last e r zero b = let same : (r + 0) % 32 ≡ r = omega arith in ap (λ i. e i ∷ []) same
ring-last e r (suc n) b =
    let same : (r + suc n) % 32 ≡ (next_slot r + n) % 32 = omega arith in
    rw same (ap (λ es. e r ∷ es) (ring-last e (next_slot r) n (omega arith)))

-- A write behind the entries changes none of them.
ring-update :
    (e : ℕ → ReadBuf) (rb : ReadBuf) (w r n d : ℕ)
    → r < 32
    → n ≤ d
    → d < 32
    → w ≡ (r + d) % 32
    → ring (update e w rb) r n ≡ ring e r n
unfolding ring
ring-update e rb w r zero d b le lt at = refl
ring-update e rb w r (suc n) zero b le lt at = absurd (omega arith)
ring-update e rb w r (suc n) (suc d) b le lt at =
    let apart : (r == w) ≡ false = ground arith in
    let rest =
      ring-update e rb w (next_slot r) n d (omega arith) (omega arith) (omega arith)
        (omega arith) in
    rw (apart, rest) refl

update-same : (e : ℕ → ReadBuf) (rb : ReadBuf) (w : ℕ) → update e w rb w ≡ rb
update-same e rb w = let same : (w == w) ≡ true = (==_iff w w).1 refl in rw same refl

-- A write to the slot after the entries is one entry more.
pub ring-put :
    (e : ℕ → ReadBuf) (rb : ReadBuf) (w r n : ℕ)
    → r < 32
    → n < 32
    → w ≡ (r + n) % 32
    → ring (update e w rb) r (suc n) ≡ ring e r n ++ rb ∷ []
ring-put e rb w r n b lt at =
    sym (ring-last (update e w rb) r n b)
    ∙ ap (λ v. ring (update e w rb) r n ++ update e w rb v ∷ []) (sym at)
    ∙ ap (λ x. ring (update e w rb) r n ++ x ∷ []) (update-same e rb w)
    ∙ ap (λ es. es ++ rb ∷ []) (ring-update e rb w r n n b (omega arith) lt at)
