-- ===== src/Transport/Queue.antt =====
-- What one direction of the transport promises: a queue of messages, oldest first, bounded by the
-- bytes that its packets take.
use icmsg_rs.Prelude.{ℕ, ◌+◌, ◌≡◌, List, [], ◌∷◌, ◌++◌, arith, ltb, if◌then◌else◌, length, drop}
use icmsg_rs.Machine.{Result, ok, err}
use icmsg_rs.Transport.Region.{
  padded_len, SendError, insufficient_capacity, RecvError, message_too_big, empty,
}

abbrev pub Queue : Type 0
Queue = List (List ℕ)

-- The bytes that a message takes: its header, and itself in whole words.
abbrev pub packet_size : ℕ → ℕ
packet_size n = 4 + padded_len n

abbrev pub footprint : Queue → ℕ
footprint [] = 0
footprint (m ∷ q) = packet_size (length m) + footprint q

-- One byte of the `size` stays free.
unfoldable pub send : ℕ → Queue → List ℕ → Queue × Result (Unit {0}) SendError
send size q msg =
    if ltb (footprint q + packet_size (length msg)) size
    then (q ++ (msg ∷ []), ok tt)
    else (q, err insufficient_capacity)

-- A message that is longer than the caller's buffer stays in the queue.
unfoldable pub try_recv : Queue → List ℕ → Queue × List ℕ × Result ℕ RecvError
try_recv [] buf = ([], buf, err empty)
try_recv (m ∷ q) buf =
    if ltb (length buf) (length m)
    then (m ∷ q, buf, err message_too_big)
    else (q, m ++ drop (length m) buf, ok (length m))

pub footprint-append :
    (q : Queue) (msg : List ℕ)
    → footprint (q ++ (msg ∷ [])) ≡ footprint q + packet_size (length msg)
footprint-append [] msg = omega arith
footprint-append (m ∷ q) msg = omega (arith, footprint-append q msg)
