-- ===== src/Skel/Tests.antt =====
-- A client that is interrupted 33 times, and reads.
use ht_drivers.Base.{ℕ, zero, suc, ◌≡◌, refl, true, false, List, [], ◌∷◌, ◌++◌, pos}
use ht_drivers.Skel.Queue.{
  ReadBuf, Reply, done, waiting, interrupted, buffer, value, Event, interrupt, read_starts,
  read_ends, get_size, get_overflow, set_flag, replies, client_init,
}
use ht_drivers.Skel.Fifo.{empty, answers}
use ht_drivers.Skel.Refines.{replies-answers}

abbrev entry : ℕ → ReadBuf
entry k = record { module_number = 1; con_mask = k; second = 0; nano_second = 0 }

abbrev interrupts : ℕ → List Event
interrupts zero = []
interrupts (suc n) = interrupts n ++ interrupt (entry n) ∷ []

-- 33 entries, of which the first is lost; then one read, the sizes, and a read with queueing off.
abbrev events : List Event
events =
    read_ends false ∷ interrupts 33
    ++ get_size
      ∷ read_starts
      ∷ read_ends false
      ∷ get_size
      ∷ get_overflow
      ∷ set_flag (pos 1)
      ∷ read_starts
      ∷ read_ends true
      ∷ []

abbrev dones : ℕ → List Reply
dones zero = []
dones (suc n) = done ∷ dones n

replies-answers_example : replies events client_init ≡ answers events (empty false)
replies-answers_example = replies-answers events

replies-events :
    replies events client_init
    ≡ waiting ∷ dones 33
      ++ value (pos 32)
        ∷ done
        ∷ buffer (entry 1)
        ∷ value (pos 31)
        ∷ value (pos 1)
        ∷ done
        ∷ done
        ∷ interrupted
        ∷ []
unfolding replies client_init
replies-events = refl
