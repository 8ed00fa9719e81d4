-- ===== src/Skel/Fifo.antt =====
-- What a client may rely on: a queue of the newest entries, which is no longer than its bound.
use ht_drivers.Base.{
  ℕ, ◌+◌, ◌%◌, Bool, true, false, List, [], ◌∷◌, ◌++◌, ltb, if◌then◌else◌, pos, length,
}
use ht_drivers.Skel.Queue.{
  ReadBuf, Reply, done, waiting, interrupted, buffer, value, Event, interrupt, read_starts,
  read_ends, get_size, get_overflow, get_flag, set_flag, queue_size, flag_of, truth_of,
}

pub record Fifo : Type 0 where
  pub items : List ReadBuf
  pub lost : ℕ
  pub off : Bool

abbrev pub without_oldest : List ReadBuf → List ReadBuf
without_oldest [] = []
without_oldest (x ∷ xs) = xs

-- With no room the oldest entry is lost.
unfoldable pub arrive : ReadBuf → Fifo → Fifo
arrive rb f =
    if ltb (length f.items) queue_size
    then record f { items = f.items ++ rb ∷ [] }
    else record f { items = without_oldest f.items ++ rb ∷ []; lost = (f.lost + 1) % 65536 }

abbrev pub empty : Bool → Fifo
empty off = record { items = []; lost = 0; off = off }

abbrev pub serve_from : List ReadBuf → (ended : Bool) → Fifo → Reply × Fifo
serve_from (x ∷ xs) ended f = (buffer x, record f { items = xs })
serve_from [] true f = (interrupted, record f { lost = 0 })
serve_from [] false f = (waiting, f)

unfoldable pub serve : (ended : Bool) → Fifo → Reply × Fifo
serve ended f = serve_from f.items ended f

unfoldable pub act : Event → Fifo → Reply × Fifo
unfolding arrive serve
act (interrupt rb) f = (done, arrive rb f)
act read_starts f = (done, if f.off then empty true else f)
act (read_ends ended) f = serve ended f
act get_size f = (value (pos (length f.items)), f)
act get_overflow f = (value (pos f.lost), record f { lost = 0 })
act get_flag f = (value (flag_of f.off), f)
act (set_flag v) f = (done, record f { off = truth_of v })

unfoldable pub answers : List Event → Fifo → List Reply
unfolding act
answers [] f = []
answers (e ∷ es) f = let (r, f1) = act e f in r ∷ answers es f1
