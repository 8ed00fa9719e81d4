-- ===== src/Mttn/Asm/Fixups.antt =====
-- The forward references of mttn/tools/asm.c: each instruction has one at most.
use ht_drivers.Base.{ℕ, zero, suc, ◌<◌, ◌≤◌, ◌≡◌, refl, List, [], ◌∷◌, arith}
use ht_drivers.Mttn.Types.{Instruction}
use ht_drivers.Mttn.Asm.Expression.{Symbol}
use ht_drivers.Mttn.Asm.Assemble.{second_pass, first_of}

-- All references are of instructions before `n`.
abbrev pub Below : (n : ℕ) → List (ℕ × ℕ) → Type 0
Below n [] = Unit
Below n ((k, i) ∷ older) = k < n × Below n older

pub Below-suc : (n : ℕ) (fs : List (ℕ × ℕ)) → Below n fs → Below (suc n) fs
Below-suc n [] b = tt
Below-suc n ((k, i) ∷ fs) (b, bs) = (omega arith, Below-suc n fs bs)

-- Instructions from `n` on are left alone, and do not matter to those before.
pub second_pass-above :
    (fs : List (ℕ × ℕ)) (symbols : ℕ → Symbol) (p : ℕ → Instruction) (n j : ℕ)
    → Below n fs
    → n ≤ j
    → second_pass fs symbols p j ≡ p j
unfolding second_pass
second_pass-above [] symbols p n j b h = refl
second_pass-above ((k, i) ∷ fs) symbols p n j (b, bs) h =
    ground (arith, second_pass-above fs symbols p n j bs h)

pub second_pass-ext :
    (fs : List (ℕ × ℕ)) (symbols : ℕ → Symbol) (p q : ℕ → Instruction) (n : ℕ)
    → Below n fs
    → ((j : ℕ) → j < n → p j ≡ q j)
    → (j : ℕ) → j < n
    → second_pass fs symbols p j ≡ second_pass fs symbols q j
unfolding second_pass
second_pass-ext [] symbols p q n b e j h = e j h
second_pass-ext ((k, i) ∷ fs) symbols p q n (b, bs) e j h =
    let same = second_pass-ext fs symbols p q n bs e in ground (arith, same j h, same k b)

pub first_of-ext :
    (n : ℕ) (p q : ℕ → Instruction) → ((j : ℕ) → j < n → p j ≡ q j) → first_of n p ≡ first_of n q
first_of-ext zero p q e = refl
first_of-ext (suc n) p q e =
    rw (first_of-ext n p q (λ j h. e j (omega arith)), e n (omega arith)) refl
