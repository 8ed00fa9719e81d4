-- ===== src/Cvorg/Clkgen/PllLaws.antt =====
-- What the checks on the PLL's parameters accept, and what the ordering of the dividers keeps.
use ht_drivers.Base.{
  ℕ, ◌*◌, ◌%◌, ◌≤◌, ◌<◌, ◌≡◌, ◌≢◌, ◌↔◌, ◌⊎◌, inl, inr, true, false, arith, ℤ, pos, negsuc, success,
  ◌==◌, if◌then◌else◌, Bool-cases, refl,
}
use native.Mathlib.Nat.{mul_comm}
use ht_drivers.Cvorg.Clkgen.Int.{equals}
use ht_drivers.Cvorg.Clkgen.Pll.{
  Pll, bypass_one, swap_dividers, order_dividers, check_pll_dividers, clkgen_check_pll,
}

-- The ratio that a divider stands for; 0 is a bypass.
abbrev pub ratio : ℤ → ℕ
ratio (pos d) = if d == 0 then 1 else d
ratio (negsuc d) = 0

-- For parameters that are not negative, the check accepts exactly A ≤ B, A ≤ 63, a prescaler of 16 or
-- 32, 0 < B ≤ 8191 and 0 < R ≤ 16383.
pub clkgen_check_pll_iff :
    (pll : Pll) {a b p r : ℕ}
    → pll.a ≡ pos a
    → pll.b ≡ pos b
    → pll.p ≡ pos p
    → pll.r ≡ pos r
    → (clkgen_check_pll pll ≡ success)
      ↔ ((a ≤ b) × (a ≤ 63) × ((p ≡ 16) ⊎ (p ≡ 32)) × (0 < b) × (b ≤ 8191) × (0 < r) × (r ≤ 16383))
unfolding clkgen_check_pll
clkgen_check_pll_iff pll {a} {b} {p} {r} ea eb ep er = rw (ea, eb, ep, er) (ground arith)

equals-zero : (z : ℤ) → equals z 0 ≡ true → z ≡ pos 0
equals-zero (pos a) e = ground arith
equals-zero (negsuc a) e = cc

-- The ordering exchanges the dividers, or leaves them.
order_dividers-cases :
    (pll : Pll)
    → let q = order_dividers pll in
      ((q.d1 ≡ pll.d1) × (q.d2 ≡ pll.d2)) ⊎ ((q.d1 ≡ pll.d2) × (q.d2 ≡ pll.d1))
unfolding order_dividers swap_dividers
order_dividers-cases pll = ground (arith, equals-zero pll.d1)

bypass_one-ratio : (z : ℤ) → ratio (bypass_one z) ≡ ratio z
bypass_one-ratio (pos a) = ground arith
bypass_one-ratio (negsuc a) = refl

-- The ordering keeps the product of the dividers' ratios.
pub check_pll_dividers-ratio :
    (pll : Pll)
    → let q = check_pll_dividers pll in ratio q.d1 * ratio q.d2 ≡ ratio pll.d1 * ratio pll.d2
unfolding check_pll_dividers
check_pll_dividers-ratio pll =
    let p : Pll = record pll {
      r = bypass_one pll.r;
      dvco = bypass_one pll.dvco;
      d1 = bypass_one pll.d1;
      d2 = bypass_one pll.d2;
    } in
    elim (order_dividers-cases p) [
      | inl (e, f) ↦ rw (e, f, bypass_one-ratio pll.d1, bypass_one-ratio pll.d2) refl
      | inr (e, f) ↦
          rw (e, f, bypass_one-ratio pll.d1, bypass_one-ratio pll.d2)
            (mul_comm (ratio pll.d2) (ratio pll.d1))
    ]

module _ (pll : Pll) {x y : ℕ} (ex : pll.d1 ≡ pos x) (ey : pll.d2 ≡ pos y) where
  -- For dividers x and y that are not negative, the ordering bypasses the first one but not the
  -- second, which the data sheet forbids, exactly if x is odd and not 1, and y is 0 or 1.
  pub check_pll_dividers-order :
      let q = check_pll_dividers pll in
      ((equals q.d1 0 ≡ true) × (equals q.d2 0 ≡ false)) ↔ ((x % 2 ≡ 1) × (x ≢ 1) × (y < 2))
  unfolding check_pll_dividers order_dividers swap_dividers
  check_pll_dividers-order =
      rw (ex, ey)
        (elim (Bool-cases (x == 1)) [
          | inl p ↦ elim (Bool-cases (y == 1)) [
            | inl q ↦ rw (p, q) (ground arith)
            | inr q ↦ rw (p, q) (ground arith)
          ]
          | inr p ↦ elim (Bool-cases (y == 1)) [
            | inl q ↦ rw (p, q) (ground arith)
            | inr q ↦ rw (p, q) (ground arith)
          ]
        ])
