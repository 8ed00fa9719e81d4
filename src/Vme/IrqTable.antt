-- ===== src/Vme/IrqTable.antt =====
-- The table of vectors of vmebridge/driver/vme_irq.c.
use ht_drivers.Base.{
  ℕ, ◌<◌, ◌≡◌, ◌≢◌, refl, true, false, ◌==◌, ltb, if◌then◌else◌, arith, update, update_self, ebusy,
  success, failure,
}
use ht_drivers.Vme.Irq.{
  VmeIrq, IrqState, vme_request_irq, vme_free_irq, no_irq, unknown, vme_num_vectors,
}

module _ (vec : ℕ) (s : IrqState) (bound : vec < vme_num_vectors) where
  request_clear :
      (handler arg name : ℕ)
      → s.vme_irq_table vec ≡ no_irq
      → vme_request_irq success vec handler arg name s ≡ (
        record s {
          vme_irq_table = update s.vme_irq_table vec (record {
            handler = handler;
            arg = arg;
            count = 0;
            name = if name == 0 then unknown else name;
          });
        },
        success,
      )
  unfolding vme_request_irq
  request_clear handler arg name clear =
      let inside : ltb vec 256 ≡ true = ground arith in rw (inside, clear) refl

  request_taken :
      (handler arg name : ℕ)
      → ((s.vme_irq_table vec).handler == 0) ≡ false
      → vme_request_irq success vec handler arg name s ≡ (s, failure ebusy)
  unfolding vme_request_irq
  request_taken handler arg name taken =
      let inside : ltb vec 256 ≡ true = ground arith in rw (inside, taken) refl

  free_taken :
      ((s.vme_irq_table vec).handler == 0) ≡ false
      → vme_free_irq success vec s
        ≡ (record s { vme_irq_table = update s.vme_irq_table vec no_irq }, success)
  unfolding vme_free_irq
  free_taken taken = let inside : ltb vec 256 ≡ true = ground arith in rw (inside, taken) refl

-- A vector that is requested while its entry is clear can be freed, and the table is then as before;
-- while it is requested, a second request is refused with -EBUSY and changes nothing. The mutex is
-- granted each time, and the handler is not NULL.
vme_free_irq-vme_request_irq :
    (vec handler arg name handler2 arg2 name2 : ℕ) (s : IrqState)
    → vec < vme_num_vectors
    → handler ≢ 0
    → s.vme_irq_table vec ≡ no_irq
    → let s1 = (vme_request_irq success vec handler arg name s).0 in
      ((vme_request_irq success vec handler arg name s).1 ≡ success)
      × (vme_request_irq success vec handler2 arg2 name2 s1 ≡ (s1, failure ebusy))
      × ((vme_free_irq success vec s1).1 ≡ success)
      × ((v : ℕ) → (vme_free_irq success vec s1).0.vme_irq_table v ≡ s.vme_irq_table v)
vme_free_irq-vme_request_irq vec handler arg name handler2 arg2 name2 s bound h clear =
    let virq : VmeIrq = record {
      handler = handler;
      arg = arg;
      count = 0;
      name = if name == 0 then unknown else name;
    } in
    let s1 : IrqState = record s { vme_irq_table = update s.vme_irq_table vec virq } in
    let taken : ((s1.vme_irq_table vec).handler == 0) ≡ false =
      rw (update_self s.vme_irq_table vec virq) (ground arith) in
    rw
      (
        request_clear vec s bound handler arg name clear,
        request_taken vec s1 bound handler2 arg2 name2 taken,
        free_taken vec s1 bound taken,
      )
      (refl, refl, refl, λ v. ground (arith, clear))
