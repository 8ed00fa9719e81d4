-- ===== src/Vme/BerrLaws.antt =====
-- The delivery of a bus error: once to the client that asks, and to each handler that it is for.
use ht_drivers.Base.{
  ◌*◌, ◌∙◌, sym, inl, inr, Bool-cases, ℕ, ◌+◌, ◌^◌, ◌≤◌, ◌<◌, ◌≡◌, ◌≢◌, ◌↔◌, refl, true, false,
  List, [], ◌∷◌, ◌++◌, arith, ok,
}
use mathlib.Core.Bool.{true≢false}
use ht_drivers.Vme.Berr.{
  BusError, BerrHandler, Verr, bus_error_chk, bus_error_check_clear, register_berr_handler,
  unlink_handler, unregister_berr_handler, berr_match, dispatch_berr, chip_handle_vme_error,
  handle_vme_error,
}

-- An error that the chip reports is found once, by a query with its address and modifier, and a
-- second query with the same finds nothing.
check_clear-once :
    (v : Verr)
    → let (v1, e) = chip_handle_vme_error v in
      let (v2, first) = bus_error_check_clear e (handle_vme_error v) in
      (first ≡ true) × ((bus_error_check_clear e v2).1 ≡ false)
unfolding handle_vme_error chip_handle_vme_error bus_error_check_clear
check_clear-once v = ground arith

-- An error is for a handler of its address modifier, whose range its address lies in.
abbrev pub IsFor : BusError → BerrHandler → Type 0
IsFor e h =
    (e.am ≡ h.error.am) × (h.error.address ≤ e.address) × (e.address < h.error.address + h.size)

-- The calls of the handlers that an error is for, and of no other, in the order of the list; the log has
-- the latest call first.
pub data Notifies (e : BusError)
    : List BerrHandler → (before after : List (ℕ × BusError)) → Type 0 where
  nobody : {log : List (ℕ × BusError)} → Notifies e [] log log
  calls :
      {h : BerrHandler} {hs : List BerrHandler} {log log' : List (ℕ × BusError)}
      → IsFor e h
      → Notifies e hs ((h.func, e) ∷ log) log'
      → Notifies e (h ∷ hs) log log'
  passes :
      {h : BerrHandler} {hs : List BerrHandler} {log log' : List (ℕ × BusError)}
      → ¬ (IsFor e h)
      → Notifies e hs log log'
      → Notifies e (h ∷ hs) log log'

-- No handler's range reaches 2^64.
abbrev pub AreBounded : List BerrHandler → Type 0
AreBounded [] = Unit
AreBounded (h ∷ hs) = (h.error.address + h.size < 2 ^ 64) × AreBounded hs

-- A handler whose range does not reach 2^64 is for an error exactly if the modifiers are the same and
-- the address lies in the range.
berr_match_iff :
    (e : BusError) (h : BerrHandler)
    → h.error.address + h.size < 2 ^ 64
    → (berr_match e h ≡ true) ↔ IsFor e h
unfolding berr_match
berr_match_iff e h lt = ground arith

dispatch_berr-Notifies :
    (e : BusError) (hs : List BerrHandler) (log : List (ℕ × BusError))
    → AreBounded hs
    → Notifies e hs log (dispatch_berr e hs log)
unfolding dispatch_berr
dispatch_berr-Notifies e [] log b = nobody
dispatch_berr-Notifies e (h ∷ hs) log (b, bs) =
    let (for, back) = berr_match_iff e h b in
    elim (Bool-cases (berr_match e h)) [
      | inl q ↦ rw q (calls {h = h} (for q) (dispatch_berr-Notifies e hs ((h.func, e) ∷ log) bs))
      | inr q ↦
          rw q (
            passes {h = h} (λ f. true≢false (sym (back f) ∙ q))
              (dispatch_berr-Notifies e hs log bs))
    ]

-- When the chip reports an error, and no handler's range reaches 2^64: the chip's error bit is cleared,
-- the error is kept for clients, and the handlers that are called are exactly those of the error's
-- address modifier in whose range its address lies, in the order of registration.
pub handle_vme_error-matching :
    (v : Verr)
    → AreBounded v.h_list
    → let (v1, e) = chip_handle_vme_error v in
      let v2 = handle_vme_error v in
      Notifies e v.h_list v.notified v2.notified
      × (e.address ≡ v.veau * 2 ^ 32 + v.veal)
      × (v2.desc ≡ record { error = e; valid = true })
      × (v2.h_list ≡ v.h_list)
      × ((bus_error_chk true v2).1 ≡ false)
unfolding handle_vme_error chip_handle_vme_error bus_error_chk
handle_vme_error-matching v b =
    let (v1, e) = chip_handle_vme_error v in
    (dispatch_berr-Notifies e v.h_list v.notified b, refl, refl, refl, refl)

-- No handler of the list has the address of a descriptor that is newly allocated.
abbrev pub IsFresh : ℕ → List BerrHandler → Type 0
IsFresh fresh [] = fresh ≡ fresh
IsFresh fresh (h ∷ hs) = (h.id ≢ fresh) × IsFresh fresh hs

unlink-append :
    (h : BerrHandler) (hs : List BerrHandler)
    → IsFresh h.id hs
    → unlink_handler h.id (hs ++ h ∷ []) ≡ hs
unfolding unlink_handler
unlink-append h [] f = ground arith
unlink-append h (g ∷ hs) (n, f) = ground (arith, unlink-append h hs)

-- Registering a handler whose descriptor is fresh, and then unregistering it, changes nothing.
unregister-register :
    (e : BusError) (size func fresh : ℕ) (v : Verr)
    → size ≢ 0
    → fresh ≢ 0
    → IsFresh fresh v.h_list
    → let (v1, r) = register_berr_handler e size func fresh v in
      (r ≡ ok fresh) × (unregister_berr_handler fresh v1 ≡ v)
unfolding register_berr_handler unregister_berr_handler
unregister-register e size func fresh v hs hf f =
    let u = unlink-append (record { id = fresh; error = e; size = size; func = func }) v.h_list f in
    ground arith
