-- ===== src/Skel/Queue.antt =====
-- skel/driver/skeldrvr.c, skeldrvrP.h: the queue in which a client finds the interrupts of its modules.
use ht_drivers.Base.{
  ℕ, zero, suc, ◌+◌, ◌%◌, Bool, true, false, List, [], ◌∷◌, ltb, if◌then◌else◌, ℤ, pos, negsuc,
  incr, decr, update,
}

-- SkelDrvrQUEUE_SIZE, of the template.
abbrev pub queue_size : ℕ
queue_size = 32

-- `SkelDrvrReadBuf` (skel.h).
pub record ReadBuf : Type 0 where
  pub module_number : ℕ
  pub con_mask : ℕ
  pub second : ℕ
  pub nano_second : ℕ

-- `SkelDrvrQueue`, and the count of the client's semaphore.
pub record Client : Type 0 where
  pub queue_off : Bool
  pub missed : ℕ
  pub size : ℤ
  pub rd_pntr : ℕ
  pub wr_pntr : ℕ
  pub entries : ℕ → ReadBuf
  pub semaphore : ℕ

-- A pointer is a `U32`.
abbrev pub next_slot : ℕ → ℕ
next_slot p = (p + 1) % 4294967296 % queue_size

-- `q->Size < SkelDrvrQUEUE_SIZE`.
abbrev pub has_room : ℤ → Bool
has_room (pos n) = ltb n queue_size
has_room (negsuc n) = true

-- `Missed` is a `U16`.
unfoldable pub q_put : ReadBuf → Client → Client
q_put rb c =
    let c1 = record c { entries = update c.entries c.wr_pntr rb; wr_pntr = next_slot c.wr_pntr } in
    if has_room c.size
    then record c1 { size = incr c.size; semaphore = suc c.semaphore }
    else record c1 { missed = (c.missed + 1) % 65536; rd_pntr = next_slot c.rd_pntr }

unfoldable pub reset_queue : Client → Client
reset_queue c = record c { size = pos 0; rd_pntr = 0; wr_pntr = 0; missed = 0; semaphore = 0 }

abbrev pub q_get : Client → ReadBuf × Client
q_get c = (c.entries c.rd_pntr, record c { rd_pntr = next_slot c.rd_pntr; size = decr c.size })

abbrev pub client_timeout : Client → Client
client_timeout c = record c { size = pos 0; missed = 0 }

-- SkelDrvrRead up to its wait.
unfoldable pub start_read : Client → Client
unfolding reset_queue
start_read c = if c.queue_off then reset_queue c else c

-- What a call gives its client; `waiting` where it goes on waiting.
pub data Reply : Type 0 where
  done waiting interrupted : Reply
  buffer : ReadBuf → Reply
  value : ℤ → Reply

-- SkelDrvrRead from its wait on: with a count the wait takes one of it, with none it lasts, or it ends
-- by its timeout or a signal.
abbrev pub wait_over : ℕ → (ended : Bool) → Client → Reply × Client
wait_over zero true c = (interrupted, client_timeout c)
wait_over zero false c = (waiting, c)
wait_over (suc n) ended c = let (rb, c1) = q_get (record c { semaphore = n }) in (buffer rb, c1)

unfoldable pub finish_read : (ended : Bool) → Client → Reply × Client
finish_read ended c = wait_over c.semaphore ended c

unfoldable pub get_queue_overflow : Client → Reply × Client
get_queue_overflow c = (value (pos c.missed), record c { missed = 0 })

abbrev pub flag_of : Bool → ℤ
flag_of true = pos 1
flag_of false = pos 0

abbrev pub truth_of : ℤ → Bool
truth_of (pos zero) = false
truth_of (pos (suc n)) = true
truth_of (negsuc n) = true

unfoldable pub set_queue_flag : ℤ → Client → Client
set_queue_flag v c = record c { queue_off = truth_of v }

-- The calls of the client, each under the queue's lock, and the interrupts that come between them.
pub data Event : Type 0 where
  interrupt : ReadBuf → Event
  read_starts get_size get_overflow get_flag : Event
  read_ends : Bool → Event
  set_flag : ℤ → Event

unfoldable pub handle : Event → Client → Reply × Client
unfolding q_put start_read finish_read get_queue_overflow set_queue_flag
handle (interrupt rb) c = (done, q_put rb c)
handle read_starts c = (done, start_read c)
handle (read_ends ended) c = finish_read ended c
handle get_size c = (value c.size, c)
handle get_overflow c = get_queue_overflow c
handle get_flag c = (value (flag_of c.queue_off), c)
handle (set_flag v) c = (done, set_queue_flag v c)

unfoldable pub replies : List Event → Client → List Reply
unfolding handle
replies [] c = []
replies (e ∷ es) c = let (r, c1) = handle e c in r ∷ replies es c1

-- client_init: all of the context is zero, and the queue is reset.
unfoldable pub client_init : Client
unfolding reset_queue
client_init = reset_queue (record {
  queue_off = false;
  missed = 0;
  size = pos 0;
  rd_pntr = 0;
  wr_pntr = 0;
  entries = λ i. record { module_number = 0; con_mask = 0; second = 0; nano_second = 0 };
  semaphore = 0;
})
