-- ===== src/Vme/Dma/Pieces.antt =====
-- How a transfer is cut into pieces: what the linked list should hold, and its laws.
use ht_drivers.Base.{
  ℕ, zero, suc, ◌+◌, ◌-◌, ◌%◌, ◌≤◌, ◌<◌, ◌≡◌, ◌⊎◌, inl, inr, refl, Bool, List, [], ◌∷◌, ◌++◌, ◌==◌,
  ltb, if◌then◌else◌, arith, Bool-cases,
}
use ht_drivers.Vme.Dma.Types.{Scatter}

pub record Piece : Type 0 where
  pub vme : ℕ
  pub dma : ℕ
  pub len : ℕ

-- Up to the bound of a block of `block` bytes, or all that is left; `block` is 0 if there are no
-- bounds.
unfoldable pub piece_len : (block vme left : ℕ) → ℕ
piece_len block vme left =
    if block == 0
    then left
    else if ltb left (block - vme % block)
    then left
    else block - vme % block

-- The pieces of `left` bytes, `fuel` of them at most. The VME address stays if `fixed`.
unfoldable pub pieces : (fuel block : ℕ) → (fixed : Bool) → (vme dma left : ℕ) → List Piece
pieces zero block fixed vme dma left = []
pieces (suc f) block fixed vme dma left =
    let len = piece_len block vme left in
    let rest = pieces f block fixed (if fixed then vme else vme + len) (dma + len) (left - len) in
    if left == 0 then [] else record { vme = vme; dma = dma; len = len } ∷ rest

-- One after the other, each without crossing a bound, to the end.
abbrev pub AreLaid : (block : ℕ) → (fixed : Bool) → (vme dma left : ℕ) → List Piece → Type 0
AreLaid block fixed vme dma left [] = left ≡ 0
AreLaid block fixed vme dma left (p ∷ ps) =
    (p.vme ≡ vme)
    × (p.dma ≡ dma)
    × (0 < p.len)
    × (p.len ≤ left)
    × ((block ≡ 0) ⊎ (p.vme % block + p.len ≤ block))
    × AreLaid block fixed (if fixed then vme else vme + p.len) (dma + p.len) (left - p.len) ps

-- For blocks whose size is a variable, the remainder's bound is all that counts.
pub piece_len-bounds :
    (block vme left : ℕ)
    → 0 < left
    → (0 < piece_len block vme left)
      × (piece_len block vme left ≤ left)
      × ((block ≡ 0) ⊎ (vme % block + piece_len block vme left ≤ block))
unfolding piece_len
piece_len-bounds zero vme left h = (ground arith, ground arith, inl refl)
piece_len-bounds (suc b) vme left h =
    let r : vme % suc b < suc b = omega arith in (ground arith, ground arith, inr (ground arith))

pub pieces-done :
    (fuel block : ℕ) (fixed : Bool) (vme dma : ℕ) → pieces fuel block fixed vme dma 0 ≡ []
unfolding pieces
pieces-done zero block fixed vme dma = refl
pieces-done (suc f) block fixed vme dma = refl

-- With fuel for each byte, the pieces cover the transfer, in order.
pub pieces-AreLaid :
    (fuel block : ℕ) (fixed : Bool) (vme dma left : ℕ)
    → left ≤ fuel
    → AreLaid block fixed vme dma left (pieces fuel block fixed vme dma left)
unfolding pieces
pieces-AreLaid zero block fixed vme dma left h = omega arith
pieces-AreLaid (suc f) block fixed vme dma left h = elim (Bool-cases (left == 0)) [
  | inl e ↦ rw e (ground arith)
  | inr e ↦
      let len = piece_len block vme left in
      let (pos, small, bound) = piece_len-bounds block vme left (ground arith) in
      rw e (
        refl,
        refl,
        pos,
        small,
        bound,
        pieces-AreLaid f block fixed (if fixed then vme else vme + len) (dma + len) (left - len)
            (omega arith),
      )
]

-- The pieces of a whole scatter-gather list.
unfoldable pub all_pieces : (block : ℕ) → (fixed : Bool) → (vme : ℕ) → List Scatter → List Piece
all_pieces block fixed vme [] = []
all_pieces block fixed vme (sg ∷ sgl) =
    pieces (suc sg.dma_len) block fixed vme sg.dma_address sg.dma_len
    ++ all_pieces block fixed (if fixed then vme else vme + sg.dma_len) sgl
