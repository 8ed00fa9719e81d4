-- ===== src/Vme/Window/Sanity.antt =====
-- Which mappings pass the sanity check.
use ht_drivers.Base.{
  ℕ, ◌+◌, ◌*◌, ◌^◌, ◌<◌, Bool-cases, inl, inr, ◌≡◌, ◌↔◌, arith, success, if◌then◌else◌,
}
use ht_drivers.Vme.Types.{VmeMapping}
use ht_drivers.Vme.Window.Find.{in_a16, in_a24, in_a32, in_a40, vme_mapping_sanity_check}

-- The number of bits that an address of the space has.
abbrev address_bits : ℕ → ℕ
address_bits am =
    if in_a16 am
    then 16
    else if in_a24 am
    then 24
    else if in_a32 am
    then 32
    else if in_a40 am
    then 40
    else 64

-- For address words below 2^32, the check passes exactly if the 64-bit address has no more bits than
-- the address space.
sanity_check-bits :
    (m : VmeMapping)
    → m.vme_addru < 2 ^ 32
    → m.vme_addrl < 2 ^ 32
    → (vme_mapping_sanity_check m ≡ success)
      ↔ (m.vme_addru * 2 ^ 32 + m.vme_addrl < 2 ^ address_bits m.am)
unfolding vme_mapping_sanity_check
sanity_check-bits m hu hl = elim (Bool-cases (in_a16 m.am)) [
  | inl e ↦ rw e (ground arith)
  | inr e ↦ rw e (elim (Bool-cases (in_a24 m.am)) [
    | inl e2 ↦ rw e2 (ground arith)
    | inr e2 ↦ rw e2 (elim (Bool-cases (in_a32 m.am)) [
      | inl e3 ↦ rw e3 (ground arith)
      | inr e3 ↦ rw e3 (elim (Bool-cases (in_a40 m.am)) [
        | inl e4 ↦ rw e4 (ground arith)
        | inr e4 ↦ rw e4 (ground arith)
      ])
    ])
  ])
]
