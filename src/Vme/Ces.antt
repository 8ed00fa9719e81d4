-- ===== src/Vme/Ces.antt =====
-- vmebridge/driver/vme_cesif.c: the interface of the CES driver, on top of the windows and the interrupts.
use ht_drivers.Base.{
  ◌+◌, ◌⊎◌, ◌↔◌, ◌∙◌, ap, add32, sub32, ℕ, suc, ◌%◌, ◌^◌, ◌≡◌, refl, Bool, true, false, Option,
  none, some, List, [], ◌∷◌, ◌++◌, Rc, success, failure, ◌==◌, if◌then◌else◌, pos, arith,
}
use ht_drivers.Vme.Types.{VmeMapping, d16, d32}
use ht_drivers.Vme.Window.State.{Bridge, Kernel, Mapping, Window}
use ht_drivers.Vme.Window.Mappings.{new_mapping, find_vme_mapping_from_addr}
use ht_drivers.Vme.Window.Find.{vme_find_mapping, vme_release_mapping, place_mapping}
use ht_drivers.Vme.Window.Found.{find_mapping_for-placed}
use ht_drivers.Vme.Irq.{IrqState, vme_request_irq, vme_free_irq}

-- VME_PREFETCH_2: two cache lines, by the code 0.
abbrev pub vme_prefetch_2 : ℕ
vme_prefetch_2 = 0

-- The bridge, and how many descriptors of `find_controller` are allocated.
pub record Ces : Type 0 where
  pub bridge : Bridge
  pub descriptors : ℕ

-- The arguments of `find_controller` that it uses, with the prefetch flag of its `pdparam_master`.
pub record Request : Type 0 where
  pub vmeaddr : ℕ
  pub len : ℕ
  pub am : ℕ
  pub size : ℕ
  pub rdpref : ℕ

-- The data width for a size; other sizes are refused.
abbrev pub width_of : ℕ → Option ℕ
width_of size = if size == 2 then some d16 else if size == 4 then some d32 else none

-- The descriptor, zeroed at first.
abbrev pub fill_desc : (width : ℕ) → Request → VmeMapping
fill_desc width r = record {
  window_num = pos 0;
  kernel_va = 0;
  user_va = 0;
  fd = pos 0;
  window_enabled = 0;
  data_width = width;
  am = r.am;
  read_prefetch_enabled = if r.rdpref == 0 then 0 else 1;
  read_prefetch_size = if r.rdpref == 0 then 0 else vme_prefetch_2;
  v2esst_mode = 0;
  bcast_select = 0;
  pci_addru = 0;
  pci_addrl = 0;
  sizeu = 0;
  sizel = r.len % 2 ^ 32;
  vme_addru = 0;
  vme_addrl = r.vmeaddr % 2 ^ 32;
}

-- The descriptor is freed on failure alone; `none` is the return value -1.
abbrev pub after_find : ℕ → Bridge × VmeMapping × Rc → Ces × Option ℕ
after_find n (b, desc, failure e) = (record { bridge = b; descriptors = n }, none)
after_find n (b, desc, success) = (record { bridge = b; descriptors = suc n }, some desc.kernel_va)

abbrev pub find_with : Kernel → Request → Option ℕ → Ces → Ces × Option ℕ
find_with k r none s = (s, none)
find_with k r (some width) s =
    after_find s.descriptors (vme_find_mapping k (fill_desc width r) 1 s.bridge)

-- `allocated` is whether `kzalloc` has the memory.
unfoldable pub find_controller : Kernel → (allocated : Bool) → Request → Ces → Ces × Option ℕ
find_controller k false r s = (s, none)
find_controller k true r s = find_with k r (width_of r.size) s

abbrev pub after_release : ℕ → Bridge × Rc → Ces × Option ℕ
after_release n (b, success) = (record { bridge = b; descriptors = n }, some 0)
after_release n (b, failure e) = (record { bridge = b; descriptors = n }, none)

abbrev pub release_found : Kernel → ℕ → Bridge × Option VmeMapping → Ces × Option ℕ
release_found k n (b, none) = (record { bridge = b; descriptors = n }, none)
release_found k n (b, some desc) = after_release n (vme_release_mapping k desc 1 b)

unfoldable pub return_controller : Kernel → (logaddr : ℕ) → Ces → Ces × Option ℕ
return_controller k logaddr s =
    release_found k s.descriptors (find_vme_mapping_from_addr k (logaddr % 2 ^ 32) s.bridge)

unfoldable pub vme_intset : (locked : Rc) → (vec handler arg : ℕ) → IrqState → IrqState × Rc
unfolding vme_request_irq
vme_intset locked vec handler arg s = vme_request_irq locked vec handler arg 0 s

unfoldable pub vme_intclr : (locked : Rc) → (vec : ℕ) → IrqState → IrqState × Rc
unfolding vme_free_irq
vme_intclr locked vec s = vme_free_irq locked vec s

-- A mapping for `desc` is the last one of a window, and has no owner.
abbrev IsLast : Kernel → VmeMapping → Bridge → VmeMapping → Type 0
IsLast k desc b m =
    (i : ℕ) × (before : List Mapping) × (m ≡ place_mapping i (b.window_table i) desc)
    × ((b.window_table i).mappings ≡ before ++ new_mapping k m 0 ∷ [])

after_find-placed :
    (k : Kernel) (desc : VmeMapping) (n : ℕ) (x : Bridge × VmeMapping × Rc) (a : ℕ)
    → (x.2 ≡ success → IsLast k desc x.0 x.1)
    → (after_find n x).1 ≡ some a
    → let c = (after_find n x).0 in (m : VmeMapping) × IsLast k desc c.bridge m × (a ≡ m.kernel_va)
after_find-placed k desc n (b, m, success) a f h = (m, f refl, ground arith)
after_find-placed k desc n (b, m, failure e) a f h = ground arith

find_with-placed :
    (k : Kernel) (r : Request) (w : Option ℕ) (s : Ces) (a : ℕ)
    → (find_with k r w s).1 ≡ some a
    → let c = (find_with k r w s).0 in
      (width : ℕ) × (w ≡ some width)
      × ((m : VmeMapping) × IsLast k (fill_desc width r) c.bridge m × (a ≡ m.kernel_va))
unfolding vme_find_mapping
find_with-placed k r none s a h = ground arith
find_with-placed k r (some width) s a h =
    let desc = fill_desc width r in
    (
      width,
      refl,
      after_find-placed k desc s.descriptors (vme_find_mapping k desc 1 s.bridge) a
          (find_mapping_for-placed k desc 1 0 s.bridge) h,
    )

-- The mapping is what the request asks for: 16 bits of data for a size of 2 and 32 for one of 4, and
-- the address and the length cut to 32 bits.
pub record IsAskedBy (r : Request) (m : VmeMapping) : Type 0 where
  pub width : ((r.size ≡ 2) × (m.data_width ≡ d16)) ⊎ ((r.size ≡ 4) × (m.data_width ≡ d32))
  pub modifier : m.am ≡ r.am
  pub upper : m.vme_addru ≡ 0
  pub address : m.vme_addrl ≡ r.vmeaddr % 2 ^ 32
  pub size : m.sizel ≡ r.len % 2 ^ 32
  pub prefetch : (m.read_prefetch_enabled ≡ 0) ↔ (r.rdpref ≡ 0)

-- The mapping is the last one of a window, has no file as its owner, and starts at the address `a` in
-- the kernel and at its PCI address, each as far from the window's as its VME address is.
pub record IsServed (k : Kernel) (r : Request) (b : Bridge) (a : ℕ) : Type 0 where
  pub i : ℕ
  pub before : List Mapping
  pub m : VmeMapping
  pub last : (b.window_table i).mappings ≡ before ++ new_mapping k m 0 ∷ []
  pub asked : IsAskedBy r m
  pub in_kernel :
      a ≡ (b.window_table i).desc.kernel_va + sub32 m.vme_addrl (b.window_table i).desc.vme_addrl
  pub on_pci :
      m.pci_addrl
      ≡ add32
          (b.window_table i).desc.pci_addrl
          (sub32 m.vme_addrl (b.window_table i).desc.vme_addrl)

width_of-sizes :
    (size width : ℕ)
    → width_of size ≡ some width
    → ((size ≡ 2) × (width ≡ d16)) ⊎ ((size ≡ 4) × (width ≡ d32))
width_of-sizes size width h = ground arith

place_mapping-IsAskedBy :
    (r : Request) (i width : ℕ) (w : Window)
    → width_of r.size ≡ some width
    → IsAskedBy r (place_mapping i w (fill_desc width r))
unfolding place_mapping
place_mapping-IsAskedBy r i width w h = record {
  width = width_of-sizes r.size width h;
  modifier = refl;
  upper = refl;
  address = refl;
  size = refl;
  prefetch = ground arith;
}

last-IsServed :
    (k : Kernel) (r : Request) (b : Bridge) (a width : ℕ) (m : VmeMapping)
    → width_of r.size ≡ some width
    → IsLast k (fill_desc width r) b m
    → a ≡ m.kernel_va
    → IsServed k r b a
unfolding place_mapping
last-IsServed k r b a width m h (i, before, placed, listed) e =
    let w = b.window_table i in
    record {
      i = i;
      before = before;
      m = place_mapping i w (fill_desc width r);
      last = listed ∙ ap (λ x. before ++ new_mapping k x 0 ∷ []) placed;
      asked = place_mapping-IsAskedBy r i width w h;
      in_kernel = e ∙ ap (λ (x : VmeMapping). x.kernel_va) placed;
      on_pci = refl;
    }

-- When find_controller returns an address, its size is 2 or 4, and some window has a mapping as its
-- last one that has the request's modifier, VME address and length, with 32 bits of them, the data width
-- of its size, and no file as its owner; the address that is returned is as far from the window's
-- address in the kernel as the VME address is from the window's, modulo 2^32, and so is the PCI address.
pub find_controller-placed :
    (k : Kernel) (allocated : Bool) (r : Request) (s : Ces) (a : ℕ)
    → (find_controller k allocated r s).1 ≡ some a
    → IsServed k r (find_controller k allocated r s).0.bridge a
unfolding find_controller
find_controller-placed k false r s a h = absurd cc
find_controller-placed k true r s a h =
    let (width, e, (m, last, at)) = find_with-placed k r (width_of r.size) s a h in
    last-IsServed k r (find_with k r (width_of r.size) s).0.bridge a width m e last at
