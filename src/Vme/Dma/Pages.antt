-- ===== src/Vme/Dma/Pages.antt =====
-- vmebridge/driver/vme_dma.c: the pages of a buffer as a scatter-gather list.
use native.Mathlib.Nat.{mod-eq_of_lt}
use ht_drivers.Base.{
  ℕ, zero, suc, ◌+◌, ◌-◌, ◌*◌, ◌/◌, ◌%◌, ◌^◌, ◌≤◌, ◌<◌, ◌≡◌, sym, inl, inr, false, List, [], ◌∷◌,
  ltb, if◌then◌else◌, arith, Bool-cases, length,
}

-- PAGE_SIZE.
abbrev pub page_bytes : ℕ
page_bytes = 4096

-- An entry of the list: which page of the buffer, and what part of it.
pub record SgPage : Type 0 where
  pub page : ℕ
  pub len : ℕ
  pub offset : ℕ

-- PAGE_MASK is an `unsigned long`, of `long_bits` bits, and so is the sum.
unfoldable pub page_count : (long_bits : ℕ) → (uaddr length : ℕ) → ℕ
page_count long_bits uaddr length =
    (uaddr % page_bytes + length + (page_bytes - 1)) % 2 ^ long_bits / page_bytes

-- The pages after the first one. After the last page the length is not used again.
unfoldable pub next_pages : (n : ℕ) → (page length : ℕ) → List SgPage
next_pages zero page length = []
next_pages (suc n) page length =
    record { page = page; len = if ltb length page_bytes then length else page_bytes; offset = 0 }
    ∷ next_pages n (suc page) (length - page_bytes)

unfoldable pub fill_pages : (nr_pages uaddr length : ℕ) → List SgPage
unfolding next_pages
fill_pages nr_pages uaddr length =
    let off = uaddr % page_bytes in
    let len = page_bytes - off in
    if ltb 1 nr_pages
    then record { page = 0; len = len; offset = off } ∷ next_pages (nr_pages - 1) 1 (length - len)
    else record { page = 0; len = length; offset = off } ∷ []

-- From the address on, up to the end, each entry within its page.
abbrev pub IsRun : (base addr left : ℕ) → List SgPage → Type 0
IsRun base addr left [] = left ≡ 0
IsRun base addr left (p ∷ ps) =
    (base + p.page * page_bytes + p.offset ≡ addr)
    × (0 < p.len)
    × (p.offset + p.len ≤ page_bytes)
    × (p.len ≤ left)
    × IsRun base (addr + p.len) (left - p.len) ps

next_pages-IsRun :
    (n base page left : ℕ)
    → (n * page_bytes < left + page_bytes)
    → left ≤ n * page_bytes
    → IsRun base (base + page * page_bytes) left (next_pages n page left)
unfolding next_pages
next_pages-IsRun zero base page left h k = omega arith
next_pages-IsRun (suc zero) base page left h k =
    (ground arith, ground arith, ground arith, ground arith, ground arith)
next_pages-IsRun (suc (suc n)) base page left h k =
    let whole : ltb left page_bytes ≡ false = ground arith in
    let next : base + page * page_bytes + page_bytes ≡ base + suc page * page_bytes = omega arith in
    rw (whole, next)
      (
        omega arith,
        omega arith,
        omega arith,
        omega arith,
        next_pages-IsRun (suc n) base (suc page) (left - page_bytes) (omega arith) (omega arith),
      )

-- The list of a buffer that is not empty, whose pages are counted without overflow, covers the
-- buffer: from its address on, one page after the other, to its last byte.
pub fill_pages-IsRun :
    (long_bits uaddr length : ℕ)
    → 0 < length
    → uaddr % page_bytes + length + page_bytes ≤ 2 ^ long_bits
    → IsRun
        (uaddr - uaddr % page_bytes)
        uaddr
        length
        (fill_pages (page_count long_bits uaddr length) uaddr length)
unfolding fill_pages page_count
fill_pages-IsRun long_bits uaddr length some_left fits =
    let total = uaddr % page_bytes + length + (page_bytes - 1) in
    let exact : total % 2 ^ long_bits ≡ total = mod-eq_of_lt (omega arith) in
    let off : uaddr % page_bytes < page_bytes = omega arith in
    let aligned : uaddr - uaddr % page_bytes + page_bytes
        ≡ uaddr + (page_bytes - uaddr % page_bytes) =
      omega arith in
    rw exact (elim (Bool-cases (ltb 1 (total / page_bytes))) [
      | inl more ↦
          rw (more, sym aligned)
            (
              omega arith,
              omega arith,
              omega arith,
              ground arith,
              next_pages-IsRun (total / page_bytes - 1) (uaddr - uaddr % page_bytes) 1
                  (length - (page_bytes - uaddr % page_bytes)) (ground arith) (ground arith),
            )
      | inr single ↦ rw single (omega arith, some_left, ground arith, omega arith, omega arith)
    ])
