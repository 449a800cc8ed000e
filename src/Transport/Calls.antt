-- ===== src/Transport/Calls.antt =====
-- Any sequence of calls on the two ends of one direction of the transport.
use icmsg_rs.Prelude.{ℕ, ◌^◌, ◌<◌, ◌≡◌, refl, List, [], ◌∷◌, length}
use icmsg_rs.Machine.{Exec, done, ◌>>=◌, Target, Result}
use icmsg_rs.Transport.Region.{SharedMemoryRegion, Notifier, SendError, RecvError}
use icmsg_rs.Transport.Queue
use icmsg_rs.Transport.Queue.{Queue}
use icmsg_rs.Transport.Sender
use icmsg_rs.Transport.Sender.{Sender}
use icmsg_rs.Transport.Receiver
use icmsg_rs.Transport.Receiver.{Receiver}
use icmsg_rs.Transport.Refine.{Represents, send_refines, try_recv_refines}

-- A call at either end: a message to send, or a buffer to receive into.
pub data Call : Type 0 where
  send : List ℕ → Call
  try_recv : List ℕ → Call

-- What the caller sees of it.
pub data Reply : Type 0 where
  sent : Result (Unit {0}) SendError → Reply
  received : List ℕ → Result ℕ RecvError → Reply

-- The messages are short enough for the 16 bits of the header.
abbrev pub AllShort : List Call → Type 0
AllShort [] = Unit
AllShort (send msg ∷ calls) = (length msg < 2 ^ 16) × AllShort calls
AllShort (try_recv buf ∷ calls) = AllShort calls

-- The queue's replies.
unfoldable pub run_queue : ℕ → Queue → List Call → List Reply
unfolding Queue.send Queue.try_recv
run_queue size q [] = []
run_queue size q (send msg ∷ calls) =
    let (q', res) = Queue.send size q msg in sent res ∷ run_queue size q' calls
run_queue size q (try_recv buf ∷ calls) =
    let (q', buf', res) = Queue.try_recv q buf in received buf' res ∷ run_queue size q' calls

module _ {ℓ} {M : Type ℓ} ⦃notifier : Notifier M⦄ (t : Target) where
  -- The transport's replies.
  unfoldable pub run : Sender M → SharedMemoryRegion → Receiver → List Call → Exec (List Reply)
  unfolding Sender.send Receiver.try_recv
  run s region r [] = done []
  run s region r (send msg ∷ calls) = do
    out ← Sender.send t s region msg
    rest ← run out.0 out.1 r calls
    done (sent out.2 ∷ rest)
  run s region r (try_recv buf ∷ calls) = do
    out ← Receiver.try_recv t r region buf
    rest ← run s out.1 out.0 calls
    done (received out.2 out.3 ∷ rest)

  -- No sequence of calls tells the transport from the queue, and none panics, overflows or leaves the
  -- data buffer. The messages are shorter than 2 ^ 16 bytes.
  pub run_refines :
      {size : ℕ} (calls : List Call) {s : Sender M} {region : SharedMemoryRegion} {r : Receiver}
      {q : Queue}
      → AllShort calls
      → Represents t size s region r q
      → run s region r calls ≡ done (run_queue size q calls)
  unfolding run run_queue
  run_refines [] short rep = refl
  run_refines {size} (send msg ∷ calls) short rep =
      let (s', region', sends, rep') = send_refines t msg short.0 rep in
      rw (sends, run_refines calls short.1 rep')
  run_refines (try_recv buf ∷ calls) {q} short rep =
      let (r', region', receives, rep') = try_recv_refines t q buf rep in
      rw (receives, run_refines calls short rep')
