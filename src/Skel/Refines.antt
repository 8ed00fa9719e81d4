-- ===== src/Skel/Refines.antt =====
-- The queue of a client gives the replies of the abstract one.
use ht_drivers.Base.{
  decr, ℕ, zero, suc, ◌+◌, ◌%◌, ◌≤◌, ◌<◌, ◌≡◌, refl, sym, ap, subst, ◌∙◌, Bool, true, false, List,
  [], ◌∷◌, ◌++◌, ltb, ltb→lt, if◌then◌else◌, length, arith, update, pos, inl, inr, Bool-cases,
}
use ht_drivers.Skel.Queue.{
  ReadBuf, Client, value, flag_of, Event, interrupt, read_starts, read_ends, get_size, get_overflow,
  get_flag, set_flag, q_put, start_read, finish_read, get_queue_overflow, set_queue_flag, handle,
  replies, client_init, reset_queue, next_slot, wait_over,
}
use ht_drivers.Skel.Fifo.{Fifo, empty, arrive, serve, serve_from, act, answers, without_oldest}
use ht_drivers.Skel.Ring.{ring, length-ring, ring-put}

-- The queue holds the entries that are there, in order, and the semaphore counts them.
record Holds (c : Client) (f : Fifo) : Type 0 where
  pub off : c.queue_off ≡ f.off
  pub lost : c.missed ≡ f.lost
  pub count : ℕ
  pub bound : count ≤ 32
  pub start : c.rd_pntr < 32
  pub size : c.size ≡ pos count
  pub next : c.wr_pntr ≡ (c.rd_pntr + count) % 32
  pub semaphore : c.semaphore ≡ count
  pub items : ring c.entries c.rd_pntr count ≡ f.items

-- Both give one reply, and the relation holds after it.
abbrev Agrees : (e : Event) (c : Client) (f : Fifo) → Type 0
Agrees e c f = let (r, c1) = handle e c in let (a, f1) = act e f in (r ≡ a) × Holds c1 f1

reset_queue-Holds : (c : Client) → c.queue_off ≡ true → Holds (reset_queue c) (empty true)
unfolding reset_queue ring
reset_queue-Holds c off = record {
  off = off;
  lost = refl;
  count = 0;
  bound = omega arith;
  start = omega arith;
  size = refl;
  next = refl;
  semaphore = refl;
  items = refl;
}

full_count : (n : ℕ) → n ≤ 32 → ltb n 32 ≡ false → n ≡ 32
full_count n le h = ground arith

-- With all slots in use the new entry takes the place of the oldest.
ring-over :
    (e : ℕ → ReadBuf) (rb : ReadBuf) (w r n : ℕ)
    → r < 32
    → n ≡ 32
    → w ≡ (r + n) % 32
    → ring (update e w rb) (next_slot r) n ≡ without_oldest (ring e r n) ++ rb ∷ []
unfolding ring
ring-over e rb w r n b all at =
    let last : w ≡ (next_slot r + 31) % 32 = omega arith in
    subst (λ m. ring (update e w rb) (next_slot r) m ≡ without_oldest (ring e r m) ++ rb ∷ [])
      (sym all) (ring-put e rb w (next_slot r) 31 (omega arith) (omega arith) last)

length-items : (c : Client) (f : Fifo) (h : Holds c f) → h.count ≡ length f.items
length-items c f h = sym (length-ring c.entries c.rd_pntr h.count) ∙ ap length h.items

q_put-Holds : (rb : ReadBuf) (c : Client) (f : Fifo) → Holds c f → Holds (q_put rb c) (arrive rb f)
unfolding q_put arrive
q_put-Holds rb c f h =
    let n = h.count in
    let same = sym (length-items c f h) in
    let at = h.next in
    let b = h.start in
    elim (Bool-cases (ltb n 32)) [
      | inl room ↦
          let le = ltb→lt n 32 room in
          rw (h.size, same, room)
            (record {
              off = h.off;
              lost = h.lost;
              count = suc n;
              bound = le;
              start = h.start;
              size = refl;
              next = omega (arith, h.next);
              semaphore = ap suc h.semaphore;
              items =
                  ring-put c.entries rb c.wr_pntr c.rd_pntr n b le at
                  ∙ ap (λ es. es ++ rb ∷ []) h.items;
            })
      | inr full ↦
          let all : n ≡ 32 = full_count n h.bound full in
          rw (h.size, same, full)
            (record {
              off = h.off;
              lost = ap (λ m. (m + 1) % 65536) h.lost;
              count = n;
              bound = h.bound;
              start = omega arith;
              size = refl;
              next = omega (arith, h.next);
              semaphore = h.semaphore;
              items =
                  ring-over c.entries rb c.wr_pntr c.rd_pntr n b all at
                  ∙ ap (λ es. without_oldest es ++ rb ∷ []) h.items;
            })
    ]

-- The wait with a count, and the entries that are there, give one reply.
abbrev Serves : ℕ → List ReadBuf → (ended : Bool) (c : Client) (f : Fifo) → Type 0
Serves n xs ended c f =
    let (r, c1) = wait_over n ended c in
    let (a, f1) = serve_from xs ended f in (r ≡ a) × Holds c1 f1

-- A read ends with the oldest entry, if the semaphore counts one.
served :
    (n : ℕ) (ended : Bool) (c : Client) (f : Fifo) (h : Holds c f)
    → h.count ≡ n
    → Serves n (ring c.entries c.rd_pntr n) ended c f
unfolding ring
served zero true c f h e = (
  refl,
  record {
    off = h.off;
    lost = refl;
    count = 0;
    bound = omega arith;
    start = h.start;
    size = refl;
    next = omega (arith, h.next, e);
    semaphore = h.semaphore ∙ e;
    items = ap (ring c.entries c.rd_pntr) (sym e) ∙ h.items;
  },
)
served zero false c f h e = (refl, h)
served (suc n) ended c f h e = (
  refl,
  record {
    off = h.off;
    lost = h.lost;
    count = n;
    bound = omega (arith, h.bound, e);
    start = omega arith;
    size = ap decr (h.size ∙ ap pos e);
    next = omega (arith, h.next, e);
    semaphore = refl;
    items = refl;
  },
)

finish_read-Agrees :
    (ended : Bool) (c : Client) (f : Fifo) → Holds c f → Agrees (read_ends ended) c f
unfolding handle act finish_read serve
finish_read-Agrees ended c f h =
    let here =
      subst (λ xs. Serves h.count xs ended c f) h.items (served h.count ended c f h refl) in
    subst (λ n. Serves n f.items ended c f) (sym h.semaphore) here

started :
    (on : Bool) (c : Client) (f : Fifo)
    → c.queue_off ≡ on
    → Holds c f
    → Holds (if on then reset_queue c else c) (if on then empty true else f)
started true c f e h = reset_queue-Holds c e
started false c f e h = h

start_read-Agrees : (c : Client) (f : Fifo) → Holds c f → Agrees read_starts c f
unfolding handle act start_read
start_read-Agrees c f h =
    let given = λ (b : Bool).
      Holds (if c.queue_off then reset_queue c else c) (if b then empty true else f) in
    (refl, subst given h.off (started c.queue_off c f refl h))

handle-Agrees : (e : Event) (c : Client) (f : Fifo) → Holds c f → Agrees e c f
unfolding handle act start_read get_queue_overflow set_queue_flag
handle-Agrees (interrupt rb) c f h = (refl, q_put-Holds rb c f h)
handle-Agrees read_starts c f h = start_read-Agrees c f h
handle-Agrees (read_ends ended) c f h = finish_read-Agrees ended c f h
handle-Agrees get_size c f h = (ap value h.size ∙ ap (λ n. value (pos n)) (length-items c f h), h)
handle-Agrees get_overflow c f h = (
  ap (λ n. value (pos n)) h.lost,
  record {
    off = h.off;
    lost = refl;
    count = h.count;
    bound = h.bound;
    start = h.start;
    size = h.size;
    next = h.next;
    semaphore = h.semaphore;
    items = h.items;
  },
)
handle-Agrees get_flag c f h = (ap (λ b. value (flag_of b)) h.off, h)
handle-Agrees (set_flag v) c f h = (
  refl,
  record {
    off = refl;
    lost = h.lost;
    count = h.count;
    bound = h.bound;
    start = h.start;
    size = h.size;
    next = h.next;
    semaphore = h.semaphore;
    items = h.items;
  },
)

Holds-replies : (es : List Event) (c : Client) (f : Fifo) → Holds c f → replies es c ≡ answers es f
unfolding replies answers
Holds-replies [] c f h = refl
Holds-replies (e ∷ es) c f h =
    let (r, after) = handle-Agrees e c f h in
    λ i. r i ∷ Holds-replies es ((handle e c).1) ((act e f).1) after i

-- From the initial state of a client, for any interrupts and calls of the client in any order: the
-- replies are those of a queue that keeps the newest 32 entries in the order of their arrival, gives
-- the oldest to a read, counts those it has lost modulo 2^16, and is emptied when a read starts while
-- queueing is off; a read with no entry there lasts, or is interrupted and clears the count.
pub replies-answers : (es : List Event) → replies es client_init ≡ answers es (empty false)
unfolding client_init reset_queue ring
replies-answers es = Holds-replies es client_init (empty false) (record {
  off = refl;
  lost = refl;
  count = 0;
  bound = omega arith;
  start = omega arith;
  size = refl;
  next = refl;
  semaphore = refl;
  items = refl;
})
