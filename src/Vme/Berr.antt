-- ===== src/Vme/Berr.antt =====
-- vmebridge/driver/vme_misc.c, vme_irq.c and tsi148.c: VME bus errors. The last error is kept until
-- a client asks for it, and handlers are called for the errors in their address range.
-- The spinlock makes each call atomic. A handler is known by the address of its descriptor, which is
-- the argument `fresh` where the source calls `kzalloc`; 0 says that the allocation failed.
use ht_drivers.Base.{
  ℕ, ◌+◌, ◌*◌, ◌/◌, ◌%◌, ◌^◌, Bool, true, false, ◌&&◌, List, [], ◌∷◌, ◌++◌, bit_and, ◌==◌, ltb, leb,
  if◌then◌else◌, Result, ok, err, einval, enomem,
}

-- `struct vme_bus_error`; the address has 64 bits.
pub record BusError : Type 0 where
  pub address : ℕ
  pub am : ℕ

-- `struct vme_bus_error_desc`.
pub record BusErrorDesc : Type 0 where
  pub error : BusError
  pub valid : Bool

-- `struct vme_berr_handler`.
pub record BerrHandler : Type 0 where
  pub id : ℕ
  pub error : BusError
  pub size : ℕ
  pub func : ℕ

-- `struct vme_verr` with the chip's exception registers, and the calls made to handlers, latest
-- first, each with its `func` and the error.
pub record Verr : Type 0 where
  pub desc : BusErrorDesc
  pub h_list : List BerrHandler
  pub veau : ℕ
  pub veal : ℕ
  pub veat : ℕ
  pub notified : List (ℕ × BusError)

unfoldable pub bus_error_init : Verr → Verr
bus_error_init v = record v { desc = record (v.desc) { valid = false }; h_list = [] }

-- TSI148_LCSR_VEAT_VES, and the register after VESCL was written to it.
abbrev pub veat_ves : ℕ
veat_ves = 0x80000000

abbrev pub veat_cleared : ℕ
veat_cleared = 0

unfoldable pub bus_error_chk : Bool → Verr → Verr × Bool
bus_error_chk clear v =
    if bit_and v.veat veat_ves == 0
    then (v, false)
    else (if clear then record v { veat = veat_cleared } else v, true)

unfoldable pub bus_error_check_clear : BusError → Verr → Verr × Bool
bus_error_check_clear e v =
    if v.desc.valid && (v.desc.error.am == e.am) && (v.desc.error.address == e.address)
    then (record v { desc = record (v.desc) { valid = false } }, true)
    else (v, false)

unfoldable pub register_berr_handler : BusError → (size func fresh : ℕ) → Verr → Verr × Result ℕ
register_berr_handler e size func fresh v =
    if size == 0 then (v, err einval) else if fresh == 0 then (v, err enomem) else (
      record v {
        h_list = v.h_list ++ record { id = fresh; error = e; size = size; func = func } ∷ [];
      },
      ok fresh,
    )

unfoldable pub unlink_handler : ℕ → List BerrHandler → List BerrHandler
unlink_handler id [] = []
unlink_handler id (h ∷ hs) = if h.id == id then hs else h ∷ unlink_handler id hs

unfoldable pub unregister_berr_handler : ℕ → Verr → Verr
unfolding unlink_handler
unregister_berr_handler id v = record v { h_list = unlink_handler id v.h_list }

-- The end of the range is a 64-bit sum.
unfoldable pub berr_match : BusError → BerrHandler → Bool
berr_match e h =
    (e.am == h.error.am)
    && leb h.error.address e.address
    && ltb e.address ((h.error.address + h.size) % 2 ^ 64)

unfoldable pub dispatch_berr :
    BusError → List BerrHandler → List (ℕ × BusError) → List (ℕ × BusError)
dispatch_berr e [] log = log
dispatch_berr e (h ∷ hs) log =
    dispatch_berr e hs (if berr_match e h then (h.func, e) ∷ log else log)

-- The error that the chip recorded; reading it clears it there.
unfoldable pub chip_handle_vme_error : Verr → Verr × BusError
chip_handle_vme_error v = (
  record v { veat = veat_cleared },
  record { address = v.veau * 2 ^ 32 + v.veal; am = bit_and v.veat 0x3f00 / 2 ^ 8 },
)

unfoldable pub handle_vme_error : Verr → Verr
unfolding chip_handle_vme_error dispatch_berr berr_match
handle_vme_error v =
    let (v', e) = chip_handle_vme_error v in
    record v' {
      desc = record { error = e; valid = true };
      notified = dispatch_berr e v'.h_list v'.notified;
    }
