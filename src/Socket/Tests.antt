-- ===== src/Socket/Tests.antt =====
-- The socket theorems at small buffers.
use tinyco.Prelude.{ℕ, ◌≤◌, ◌≡◌, refl, true, false, some, List, [], ◌∷◌, arith, take, pos, codes}
use tinyco.Http.Check.{as_int}
use tinyco.Socket.Kernel.{EvRes, SendReply}
use tinyco.Socket.Transfer.{send, send_loop}
use tinyco.Socket.Send.{send-prefix, send-finishes}

abbrev writable : EvRes
writable = record { ev_timeout = false; ev_read = false; ev_write = true; ev_closed = false }

-- Three bytes at a time, with a signal and a wait between.
abbrev slow_peer : List SendReply
slow_peer =
    SendReply.room 2
    ∷ SendReply.intr
    ∷ SendReply.again writable
    ∷ SendReply.room 2
    ∷ SendReply.room 9
    ∷ []

send_slow :
    ((send (codes "GET / HTTP") slow_peer).ret ≡ some (pos 10))
    × ((send (codes "GET / HTTP") slow_peer).waits ≡ 1)
unfolding send send_loop as_int
send_slow = (refl, refl)

send-prefix_example :
    (n : ℕ) × ((send (codes "GET /") slow_peer).taken ≡ take n (codes "GET /")) × (n ≤ 5)
send-prefix_example = send-prefix (codes "GET /") slow_peer

send-finishes_example : (send (codes "GET") slow_peer).ret ≡ some (pos 3)
send-finishes_example =
    send-finishes (codes "GET") slow_peer (tt, (tt, ((refl, refl), (tt, (tt, tt))))) (omega arith)
      (omega arith)
