-- ===== src/Vme/Raise.antt =====
-- tsi148_generate_interrupt of vmebridge/driver/tsi148.c, and vme_generate_interrupt of vme_irq.c: the
-- interrupt that the bridge raises itself. What the VICR register reads as, and what is left of the
-- timeout after each sleep, are answers of the chip and of the kernel, in the order of the questions.
use ht_drivers.Base.{
  ltb, ◌+◌, ◌/◌, ◌%◌, ◌^◌, ◌≢◌, ap, subst, ◌∙◌, inr, Bool-cases, passes_under, passes_under-lt, ◌⊎◌,
  inl, ℕ, ◌*◌, ◌≤◌, ◌<◌, ◌≡◌, refl, Bool, true, false, ◌&&◌, ℤ, pos, negsuc, List, [], ◌∷◌, Option,
  none, some, Rc, success, failure, einval, etime, ◌==◌, leb, if◌then◌else◌, bit_or, arith,
}
use ht_drivers.Vme.Irq.{field, without}

-- One round of the wait: the register, and what `schedule_timeout` returns.
pub record Poll : Type 0 where
  pub vicr : ℕ
  pub left : ℕ

-- `vicr & IRQS`: the interrupt has not been acknowledged.
abbrev pub is_raised : ℕ → Bool
is_raised vicr = field 11 1 vicr == 1

-- The loop; `false` when it goes on after the last of the rounds.
unfoldable pub wait_iack : List Poll → Bool
wait_iack [] = false
wait_iack (p ∷ ps) =
    let rest = wait_iack ps in
    if is_raised p.vicr then (if p.left == 0 then true else rest) else true

-- The value that raises an interrupt: STID, the bits 0 to 7, is cleared; the vector is put in there, and
-- the level, which has 3 bits, is put to IRQL, the bits 8 to 10, by `|`.
abbrev pub raise_value : (vicr level vector : ℕ) → ℕ
raise_value vicr level vector = without 0 11 vicr + bit_or (field 8 3 vicr) level * 2 ^ 8 + vector

-- The value that takes the interrupt back: IRQL and STID are cleared; IRQC, the bit 15, is set.
abbrev pub clear_value : (vicr : ℕ) → ℕ
clear_value vicr = without 15 1 (without 8 3 (without 0 8 vicr)) + 2 ^ 15

-- The numbers of a range.
abbrev pub within : (first last : ℕ) → ℤ → Option ℕ
within first last (pos n) = if leb first n && leb n last then some n else none
within first last (negsuc n) = none

-- What is read before the write, in the wait, right after it, and for the value that clears.
pub record Vicr : Type 0 where
  pub before : ℕ
  pub polls : List Poll
  pub after : ℕ
  pub last : ℕ

-- The return code and the values written to VICR, or `none` while the wait goes on.
abbrev pub raise : (level vector : ℕ) → Vicr → Option (Rc × List ℕ)
raise level vector v =
    let val = raise_value v.before level vector in
    if wait_iack v.polls
    then some (
        if is_raised v.after
        then (failure etime, val ∷ clear_value v.last ∷ [])
        else (success, val ∷ []))
    else none

unfoldable pub tsi148_generate_interrupt : (level vector : ℤ) → Vicr → Option (Rc × List ℕ)
unfolding wait_iack
tsi148_generate_interrupt level vector v = elim (within 1 7 level) [
  | none ↦ some (failure einval, [])
  | some l ↦ elim (within 0 255 vector) [ none ↦ some (failure einval, []) | some n ↦ raise l n v ]
]

-- The level or the vector is none of its range.
abbrev pub Refused : (level vector : ℤ) → Type 0
Refused level vector = (within 1 7 level ≡ none) ⊎ (within 0 255 vector ≡ none)

-- In each round so far the interrupt is raised, and something is left of the timeout.
abbrev pub StillWaits : List Poll → Type 0
StillWaits [] = Unit
StillWaits (p ∷ ps) = (is_raised p.vicr ≡ true) × (p.left ≢ 0) × StillWaits ps

-- There is a round in which it is not raised, or the timeout is over.
abbrev pub Ended : List Poll → Type 0
Ended [] = ⊥
Ended (p ∷ ps) = (is_raised p.vicr ≡ false) ⊎ (p.left ≡ 0) ⊎ Ended ps

-- A value that raises a level with a vector: if no level was there, it is the one that is asked for; the
-- bits from 11 on are those read before.
pub record IsRaise (vicr : ℕ) (level vector : ℤ) (val : ℕ) : Type 0 where
  pub l : ℕ
  pub n : ℕ
  pub is_level : level ≡ pos l
  pub is_vector : vector ≡ pos n
  pub levels : (1 ≤ l) × (l ≤ 7)
  pub vectors : n ≤ 255
  pub stid : field 0 8 val ≡ n
  pub irql : field 8 3 vicr ≡ 0 → field 8 3 val ≡ l
  pub others : val / 2 ^ 11 ≡ vicr / 2 ^ 11

-- A value that takes an interrupt back: no level and no vector, the clear bit set, the others as read.
pub record IsClear (vicr val : ℕ) : Type 0 where
  pub stid : field 0 8 val ≡ 0
  pub irql : field 8 3 val ≡ 0
  pub irqc : field 15 1 val ≡ 1
  pub between : field 11 4 val ≡ field 11 4 vicr
  pub above : val / 2 ^ 16 ≡ vicr / 2 ^ 16

-- Two numbers of 3 bits, as one of 6.
abbrev or_fits : ℕ → Bool
or_fits x = ltb (bit_or (x / 8) (x % 8)) 8 && (bit_or 0 (x % 8) == x % 8)

or_fits_all : passes_under or_fits 64 ≡ true
unfolding passes_under
or_fits_all = refl

or_fits-small : (f l : ℕ) → f < 8 → l < 8 → (ltb (bit_or f l) 8 && (bit_or 0 l == l)) ≡ true
or_fits-small f l b c =
    let first : (f * 8 + l) / 8 ≡ f = omega arith in
    let second : (f * 8 + l) % 8 ≡ l = omega arith in
    let fits : or_fits (f * 8 + l) ≡ true =
      passes_under-lt or_fits {x = f * 8 + l} 64 (omega arith) or_fits_all in
    subst (λ y. (ltb (bit_or f y) 8 && (bit_or 0 y == y)) ≡ true) second
      (subst
        (λ x.
          (ltb (bit_or x ((f * 8 + l) % 8)) 8 && (bit_or 0 ((f * 8 + l) % 8) == (f * 8 + l) % 8))
          ≡ true)
        first fits)

small_or : (a b l : ℕ) → (ltb a 8 && (b == l)) ≡ true → (a < 8) × (b ≡ l)
small_or a b l h = ground arith

raise_value-IsRaise :
    (vicr l n : ℕ) → 1 ≤ l → l ≤ 7 → n ≤ 255 → IsRaise vicr (pos l) (pos n) (raise_value vicr l n)
raise_value-IsRaise vicr l n lo hi le =
    let fits = or_fits-small (field 8 3 vicr) l (omega arith) (omega arith) in
    let (small, same) = small_or (bit_or (field 8 3 vicr) l) (bit_or 0 l) l fits in
    record {
      l = l;
      n = n;
      is_level = refl;
      is_vector = refl;
      levels = (lo, hi);
      vectors = le;
      stid = omega arith;
      irql = λ z.
          let now : bit_or (field 8 3 vicr) l ≡ l = ap (λ f. bit_or f l) z ∙ same in omega arith;
      others = omega arith;
    }

clear_value-IsClear : (vicr : ℕ) → IsClear vicr (clear_value vicr)
clear_value-IsClear vicr = record {
  stid = omega arith;
  irql = omega arith;
  irqc = omega arith;
  between = omega arith;
  above = omega arith;
}

wait_iack-Ended : (ps : List Poll) → wait_iack ps ≡ true → Ended ps
unfolding wait_iack
wait_iack-Ended [] h = ground arith
wait_iack-Ended (p ∷ ps) h = grind (arith, wait_iack-Ended ps)

wait_iack-StillWaits : (ps : List Poll) → wait_iack ps ≡ false → StillWaits ps
unfolding wait_iack
wait_iack-StillWaits [] h = tt
wait_iack-StillWaits (p ∷ ps) h = grind (arith, wait_iack-StillWaits ps)

-- How a call may end, by its return code, or where it has come to.
abbrev pub IsOutcome : (level vector : ℤ) → Vicr → Option (Rc × List ℕ) → Type 0
IsOutcome level vector v none = StillWaits v.polls × ¬ (Refused level vector)
IsOutcome level vector v (some (success, writes)) =
    Ended v.polls
    × (is_raised v.after ≡ false)
    × ((val : ℕ) × (writes ≡ val ∷ []) × IsRaise v.before level vector val)
IsOutcome level vector v (some (failure etime, writes)) =
    Ended v.polls
    × (is_raised v.after ≡ true)
    × ((val back : ℕ) × (writes ≡ val ∷ back ∷ [])
        × IsRaise v.before level vector val
        × IsClear v.last back)
IsOutcome level vector v (some (failure einval, writes)) = (writes ≡ []) × Refused level vector
IsOutcome level vector v (some (failure e, writes)) = ⊥

raise-IsOutcome :
    (l n : ℕ) (v : Vicr)
    → 1 ≤ l
    → l ≤ 7
    → n ≤ 255
    → ¬ (Refused (pos l) (pos n))
    → IsOutcome (pos l) (pos n) v (raise l n v)
raise-IsOutcome l n v lo hi le given =
    let up = raise_value-IsRaise v.before l n lo hi le in
    elim (Bool-cases (wait_iack v.polls)) [
      | inr w ↦ rw w (wait_iack-StillWaits v.polls w, given)
      | inl w ↦
          let ended = wait_iack-Ended v.polls w in
          elim (Bool-cases (is_raised v.after)) [
            | inl a ↦
                rw (w, a)
                  (
                    ended,
                    a,
                    (
                      raise_value v.before l n,
                      clear_value v.last,
                      refl,
                      up,
                      clear_value-IsClear v.last,
                    ),
                  )
            | inr a ↦ rw (w, a) (ended, a, (raise_value v.before l n, refl, up))
          ]
    ]

within-cases :
    (first last n : ℕ)
    → (within first last (pos n) ≡ none)
      ⊎ ((within first last (pos n) ≡ some n) × (first ≤ n) × (n ≤ last))
within-cases first last n = elim (Bool-cases (leb first n && leb n last)) [
  | inl e ↦ inr (ground arith, ground arith, ground arith)
  | inr e ↦ inl (ground arith)
]

not-Refused :
    (level vector : ℤ) (l n : ℕ)
    → within 1 7 level ≡ some l
    → within 0 255 vector ≡ some n
    → ¬ (Refused level vector)
not-Refused level vector l n a b (inl q) = cc
not-Refused level vector l n a b (inr q) = cc

-- Raising an interrupt ends with one of three return codes, or waits. With EINVAL the level is none of 1
-- to 7 or the vector none of 0 to 255, and nothing is written. Otherwise the first value written has the
-- vector, the level if none was there, and the other bits as they were. With success, or with ETIME, a
-- round of the wait found the interrupt acknowledged or the timeout over; with success it is no longer
-- raised then and nothing else is written; with ETIME it still is, and a second value takes it back: no
-- level, no vector, the clear bit set, the other bits as they were. It waits as long as in each
-- round the interrupt is raised and the sleep has left something of the timeout.
pub tsi148_generate_interrupt-IsOutcome :
    (level vector : ℤ) (v : Vicr)
    → IsOutcome level vector v (tsi148_generate_interrupt level vector v)
unfolding tsi148_generate_interrupt
tsi148_generate_interrupt-IsOutcome (negsuc l) vector v = (refl, inl refl)
tsi148_generate_interrupt-IsOutcome (pos l) (negsuc n) v = grind arith
tsi148_generate_interrupt-IsOutcome (pos l) (pos n) v = elim (within-cases 1 7 l) [
  | inl e ↦ rw (tsi148_generate_interrupt, e) (refl, inl e)
  | inr (e, lo, hi) ↦ elim (within-cases 0 255 n) [
    | inl e2 ↦ rw (tsi148_generate_interrupt, e, e2) (refl, inr e2)
    | inr (e2, lo2, hi2) ↦
        rw (tsi148_generate_interrupt, e, e2)
          (raise-IsOutcome l n v lo hi hi2 (not-Refused (pos l) (pos n) l n e e2))
  ]
]
