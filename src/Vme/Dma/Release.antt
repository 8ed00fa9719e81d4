-- ===== src/Vme/Dma/Release.antt =====
-- What a transfer of vmebridge/driver/vme_dma.c still holds at its end.
use ht_drivers.Base.{
  suc, ◌+◌, ◌≤◌, ◌<◌, ap, sym, ◌∙◌, [], arith, length, Errno, ℕ, ◌≡◌, ◌≢◌, Bool, true, false, inl,
  inr, refl, true, false, Option, none, some, List, ltb, ◌==◌, Bool-cases, if_cases, add32, Rc,
  success, failure,
}
use ht_drivers.Vme.Dma.Types.{VmeDma, DmaChannel}
use ht_drivers.Vme.Dma.Chain.{dma_free_chain}
use ht_drivers.Vme.Dma.Setup.{
  Setup, started, refused, stopped, tsi148_dma_setup, tsi148_dma_start, tsi148_dma_abort,
  tsi148_dma_release,
}
use ht_drivers.Vme.Dma.Ends.{tsi148_dma_setup-refused}
use ht_drivers.Vme.Dma.Kept.{tsi148_dma_setup-kept}
use ht_drivers.Vme.Dma.Pages.{SgPage, page_count}
use ht_drivers.Vme.Dma.Transfer.{
  DmaCommand, start_dma, other_command, dma_copy_back, vme_dma_ioctl, pinned, Kernel, Transfer,
  sgl_map_user_pages, give_back, sgl_unmap_user_pages, after_wait, after_setup, with_pages,
  buffer_address, vme_dma_setup, check_desc, run_transfer, after_dma_setup, vme_do_dma,
}

-- All that was taken for the transfer was given back, once, and no descriptor is left.
pub record HoldsNothing (t : Transfer) : Type 0 where
  pub sgl : t.sgl_allocs ≡ t.sgl_frees
  pub pages : t.pages_pinned ≡ t.pages_released
  pub mapped : t.maps ≡ t.unmaps
  pub descriptors : t.channel.hw_desc_list ≡ []

-- The list with its memory and pages, and the mapping, if there is one.
record HoldsList (mappings pages : ℕ) (t : Transfer) : Type 0 where
  sgl : t.sgl_allocs ≡ suc t.sgl_frees
  pinned : t.pages_pinned ≡ t.pages_released + pages
  mapped : t.maps ≡ mappings + t.unmaps

abbrev SetupClean : Transfer × Setup → Type 0
SetupClean (t, started) = HoldsList 1 t.channel.sg_pages t × (t.channel.chained ≡ 1)
SetupClean (t, refused e) = HoldsNothing t
SetupClean (t, stopped) = Unit

give_back-HoldsNothing :
    (t : Transfer)
    → HoldsList 1 t.channel.sg_pages t
    → t.channel.hw_desc_list ≡ []
    → HoldsNothing (give_back t)
unfolding give_back sgl_unmap_user_pages
give_back-HoldsNothing t h d = record {
  sgl = h.sgl;
  pages = h.pinned;
  mapped = omega (arith, h.mapped);
  descriptors = d;
}

after_setup-SetupClean :
    (n : ℕ) (t : Transfer) (r : DmaChannel × Setup)
    → HoldsList 1 n t
    → r.0.sg_pages ≡ n
    → ((r.1 ≡ started) → r.0.chained ≡ 1)
    → ((e : Errno) → r.1 ≡ refused e → r.0.hw_desc_list ≡ [])
    → SetupClean (after_setup t r)
unfolding after_setup
after_setup-SetupClean n t (c, started) h p q d =
    let held : HoldsList 1 c.sg_pages (record t { channel = c }) = record {
      sgl = h.sgl;
      pinned = h.pinned ∙ ap (λ m. t.pages_released + m) (sym p);
      mapped = h.mapped;
    } in
    (held, q refl)
after_setup-SetupClean n t (c, refused e) h p q d =
    let held : HoldsList 1 c.sg_pages (record t { channel = c }) = record {
      sgl = h.sgl;
      pinned = h.pinned ∙ ap (λ m. t.pages_released + m) (sym p);
      mapped = h.mapped;
    } in
    give_back-HoldsNothing (record t { channel = c }) held (d e refl)
after_setup-SetupClean n t (c, stopped) h p q d = tt

-- The kernel pins all the pages that it is asked for, if there is memory to ask.
abbrev pub PinsAll : Kernel → ℕ → Type 0
PinsAll k nr = k.pages_alloc ≡ true → (n : ℕ) × (k.get_pages ≡ pinned n) × (nr ≤ n)

-- The memory of the list is there, and the pages, if the count of them was returned.
abbrev PagesClean : ℕ → Transfer × Option (List SgPage) × Option ℕ → Type 0
PagesClean nr (t, pages, none) = HoldsList 0 0 t × (t.channel.hw_desc_list ≡ [])
PagesClean nr (t, pages, some n) = (n ≡ nr) × HoldsList 0 n t × (t.channel.hw_desc_list ≡ [])

with_pages-SetupClean :
    (k : Kernel) (nr : ℕ) (r : Transfer × Option (List SgPage) × Option ℕ)
    → 0 < nr
    → PagesClean nr r
    → SetupClean (with_pages k r)
unfolding with_pages
with_pages-SetupClean k nr (t, pages, none) pos (h, d) = record {
  sgl = h.sgl;
  pages = omega (arith, h.pinned);
  mapped = omega (arith, h.mapped);
  descriptors = d;
}
with_pages-SetupClean k nr (t, pages, some n) pos (same, h, d) =
    let some_pages : (n == 0) ≡ false = ground arith in
    let sgl = k.map_sg pages in
    let c = record (t.channel) { sg_pages = n; sg_mapped = length sgl } in
    let (p, q) = tsi148_dma_setup-kept k.pool sgl c in
    rw (with_pages, some_pages)
      (after_setup-SetupClean n (record t { channel = c; maps = suc t.maps })
        (tsi148_dma_setup k.pool sgl c)
        (record { sgl = h.sgl; pinned = h.pinned; mapped = omega (arith, h.mapped) }) p q
        (λ e. tsi148_dma_setup-refused k.pool sgl c e d))

sgl_map_user_pages-PagesClean :
    (k : Kernel) (nr uaddr len : ℕ) (t : Transfer)
    → PinsAll k nr
    → HoldsList 0 0 t
    → t.channel.hw_desc_list ≡ []
    → PagesClean nr (sgl_map_user_pages k nr uaddr len t)
unfolding sgl_map_user_pages
sgl_map_user_pages-PagesClean k nr uaddr len t pins h d = elim (Bool-cases k.pages_alloc) [
  | inl e ↦
      let (n, all, le) = pins e in
      let enough : ltb n nr ≡ false = ground arith in
      rw (e, all, enough)
        (refl, record { sgl = h.sgl; pinned = omega (arith, h.pinned); mapped = h.mapped }, d)
  | inr e ↦ rw e (h, d)
]

-- The pages that vme_dma_setup counts in the user's buffer.
abbrev pub pages_of : Kernel → VmeDma → ℕ
pages_of k d = page_count k.long_bits (buffer_address d) d.length

vme_dma_setup-SetupClean :
    (k : Kernel) (t : Transfer)
    → 0 < pages_of k t.channel.desc
    → PinsAll k (pages_of k t.channel.desc)
    → HoldsNothing t
    → SetupClean (vme_dma_setup k t)
unfolding vme_dma_setup
vme_dma_setup-SetupClean k t pos pins h =
    let d = t.channel.desc in
    let uaddr = buffer_address d in
    let t1 = record t { sgl_allocs = suc t.sgl_allocs } in
    if_cases SetupClean (ltb (add32 uaddr d.length) uaddr) (λ _. h)
      (λ _.
        if_cases SetupClean k.sgl_alloc
          (λ _.
            with_pages-SetupClean k (pages_of k d)
              (sgl_map_user_pages k (pages_of k d) uaddr d.length t1) pos
              (sgl_map_user_pages-PagesClean k (pages_of k d) uaddr d.length t1 pins
                (record {
                  sgl = ap suc h.sgl;
                  pinned = omega (arith, h.pages);
                  mapped = omega (arith, h.mapped);
                })
                h.descriptors))
          (λ _. h))

released :
    (c : DmaChannel)
    → c.chained ≡ 1
    → ((tsi148_dma_release c).hw_desc_list ≡ []) × ((tsi148_dma_release c).sg_pages ≡ c.sg_pages)
unfolding tsi148_dma_release dma_free_chain
released c e = rw e (refl, refl)

-- The start, and the abort after a signal.
after_wait-kept :
    (k : Rc) (c : DmaChannel)
    → let c1 = after_wait k (tsi148_dma_start c) in
      (c1.chained ≡ c.chained) × (c1.sg_pages ≡ c.sg_pages)
unfolding tsi148_dma_start tsi148_dma_abort
after_wait-kept success c = (refl, refl)
after_wait-kept (failure e) c = (refl, refl)

after_dma_setup-HoldsNothing :
    (k : Kernel) (d : VmeDma) (r : Transfer × Setup)
    → SetupClean r
    → (after_dma_setup k d r).2 ≢ none
    → HoldsNothing (after_dma_setup k d r).0
unfolding after_dma_setup run_transfer
after_dma_setup-HoldsNothing k d (t, started) (h, chained) ends =
    let c = after_wait k.wait (tsi148_dma_start t.channel) in
    let (one, same) = after_wait-kept k.wait t.channel in
    let (freed, kept) = released c (one ∙ chained) in
    give_back-HoldsNothing (record t { channel = tsi148_dma_release c })
      (record {
        sgl = h.sgl;
        pinned = h.pinned ∙ ap (λ m. t.pages_released + m) (sym (kept ∙ same));
        mapped = h.mapped;
      })
      freed
after_dma_setup-HoldsNothing k d (t, refused e) h ends = h
after_dma_setup-HoldsNothing k d (t, stopped) h ends = absurd (ends refl)

-- On a channel for which nothing is held, a transfer of at least one page that ends with a return code,
-- of success or of any error, leaves nothing held, if the kernel pins all pages that it is asked for:
-- the memory of the list is freed once, each pinned page is released once, the mapping on the bus
-- is taken back once and no descriptor is left.
vme_do_dma-HoldsNothing :
    (k : Kernel) (acquired : Rc) (d : VmeDma) (t : Transfer)
    → 0 < pages_of k d
    → PinsAll k (pages_of k d)
    → HoldsNothing t
    → (vme_do_dma k acquired d t).2 ≢ none
    → HoldsNothing (vme_do_dma k acquired d t).0
unfolding vme_do_dma
vme_do_dma-HoldsNothing k acquired d t pos pins h =
    let t1 : Transfer = record t { channel = record (t.channel) { desc = d } } in
    let got : Rc → Transfer × VmeDma × Option Rc = λ y. elim y [
      | failure e ↦ (t, d, some (failure e))
      | success ↦ after_dma_setup k d (vme_dma_setup k t1)
    ] in
    let checked : Rc → Transfer × VmeDma × Option Rc =
      λ x. elim x [ failure e ↦ (t, d, some (failure e)) | success ↦ got acquired ] in
    elim (check_desc d) as (λ x. (checked x).2 ≢ none → HoldsNothing (checked x).0) [
      | failure e ↦ λ _. h
      | success ↦ elim acquired as (λ y. (got y).2 ≢ none → HoldsNothing (got y).0) [
        | failure e ↦ λ _. h
        | success ↦ after_dma_setup-HoldsNothing k d _ (
            vme_dma_setup-SetupClean k t1 pos pins (record {
              sgl = h.sgl;
              pages = h.pages;
              mapped = h.mapped;
              descriptors = h.descriptors;
            }))
      ]
    ]

dma_copy_back-kept :
    (copied_out : Bool) (r : Transfer × VmeDma × Option Rc)
    → ((dma_copy_back copied_out r).0 ≡ r.0)
      × (((dma_copy_back copied_out r).2 ≢ none) → r.2 ≢ none)
unfolding dma_copy_back
dma_copy_back-kept true (t, d, some success) = (refl, λ h. λ e. cc)
dma_copy_back-kept false (t, d, some success) = (refl, λ h. λ e. cc)
dma_copy_back-kept copied_out (t, d, some (failure e)) = (refl, λ h. λ q. cc)
dma_copy_back-kept copied_out (t, d, none) = (refl, λ h. h)

-- On a channel for which nothing is held, if the kernel pins all the user's pages that it is asked for,
-- and these are counted as one at least: whatever the command, the copies and the kernel's other answers
-- are, the ioctl leaves nothing held when it returns. The memory of the list is freed as often as it
-- was allocated, pages are released as often as pinned, mappings on the bus taken back as often as
-- made, and no descriptor is left.
pub vme_dma_ioctl-HoldsNothing :
    (k : Kernel) (acquired : Rc) (cmd : DmaCommand) (copied_in copied_out : Bool) (d : VmeDma)
    (t : Transfer)
    → 0 < pages_of k d
    → PinsAll k (pages_of k d)
    → HoldsNothing t
    → (vme_dma_ioctl k acquired cmd copied_in copied_out d t).2 ≢ none
    → HoldsNothing (vme_dma_ioctl k acquired cmd copied_in copied_out d t).0
unfolding vme_dma_ioctl
vme_dma_ioctl-HoldsNothing k acquired other_command copied_in copied_out d t pos pins h ends = h
vme_dma_ioctl-HoldsNothing k acquired start_dma false copied_out d t pos pins h ends = h
vme_dma_ioctl-HoldsNothing k acquired start_dma true copied_out d t pos pins h ends =
    let r = vme_do_dma k acquired d t in
    let (same, ended) = dma_copy_back-kept copied_out r in
    rw same (vme_do_dma-HoldsNothing k acquired d t pos pins h (ended ends))
