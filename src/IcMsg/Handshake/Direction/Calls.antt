-- ===== src/IcMsg/Handshake/Direction/Calls.antt =====
-- `send` and `try_recv` go through in every phase of the other core, and keep what holds of the direction.
use icmsg_rs.Prelude.{
  ℕ, ◌+◌, arith, dec_lt, lt→ltb, le→not-ltb, ◌^◌, ◌<◌, ◌≡◌, refl, List, [], ◌∷◌, ◌++◌, length,
}
use mathlib.Core.Path.{subst}
use icmsg_rs.Machine.{done, Result, Target}
use icmsg_rs.Transport.Region.{SharedMemoryRegion, Notifier, SendError, RecvError}
use icmsg_rs.Transport.Queue.{Queue, footprint, packet_size}
use icmsg_rs.Transport.Queue
use icmsg_rs.Transport.Sender as TransportHalf
use icmsg_rs.Transport.Receiver as ReceivingHalf
use icmsg_rs.Transport.Sender.{Sender as TransportSender}
use icmsg_rs.Transport.Receiver.{Receiver as TransportReceiver}
use icmsg_rs.Transport.Refine.{Represents, send_refines, try_recv_refines}
use icmsg_rs.IcMsg.Defs.{magic, IcMsg}
use icmsg_rs.IcMsg.Handshake.{Phase, off, waiting, running, failed}
use icmsg_rs.IcMsg.Handshake.Direction.{fresh_receiver, IsOpen, Direction}

-- A message that is sent or refused leaves the first one where it is.
send-head :
    (size : ℕ) (m : List ℕ) (q : Queue) (msg : List ℕ)
    → (q' : Queue) × ((Queue.send size (m ∷ q) msg).0 ≡ m ∷ q')
unfolding Queue.send
send-head size m q msg = elim (dec_lt (footprint (m ∷ q) + packet_size (length msg)) size) [
  | yes fits ↦ rw (lt→ltb _ _ fits) (q ++ (msg ∷ []), refl)
  | no full ↦
      rw (le→not-ltb (footprint (m ∷ q) + packet_size (length msg)) size (omega arith)) (q, refl)
]

module _ {ℓ κ} {M : Type ℓ} {W : Type κ} (t : Target) (size : ℕ) where
  module _ ⦃notifier : Notifier M⦄ where
    abbrev Sends : TransportSender M → Phase M W → SharedMemoryRegion → List ℕ → Type ℓ
    Sends s to region msg =
        (s' : TransportSender M) × (region' : SharedMemoryRegion) × (res : Result (Unit {0})
          SendError)
        × (TransportHalf.send t s region msg ≡ done (s', region', res))
        × IsOpen t size s' to region'

    -- `send` goes through in every phase of the other core.
    pub send-IsOpen :
        (s : TransportSender M) (to : Phase M W) (region : SharedMemoryRegion) (msg : List ℕ)
        → length msg < 2 ^ 16
        → IsOpen t size s to region
        → Sends s to region msg
    send-IsOpen s off region msg short (q, rep) =
        let (s', region', e, rep') = send_refines t msg short rep in
        let (q', head) = send-head size magic q msg in
        (
          s',
          region',
          _,
          e,
          (q', subst (Represents t size s' region' (fresh_receiver size)) head rep'),
        )
    send-IsOpen s (waiting transport) region msg short (q, same, rep) =
        let (s', region', e, rep') = send_refines t msg short rep in
        let (q', head) = send-head size magic q msg in
        (
          s',
          region',
          _,
          e,
          (q', same, subst (Represents t size s' region' (fresh_receiver size)) head rep'),
        )
    send-IsOpen s (running icmsg) region msg short (q, rep) =
        let (s', region', e, rep') = send_refines t msg short rep in (s', region', _, e, (_, rep'))
    send-IsOpen s (failed e) region msg short open_ = absurd open_

  abbrev Receives : Phase M W → IcMsg M W → SharedMemoryRegion → List ℕ → Type 0
  Receives from icmsg region buf =
      (r' : TransportReceiver) × (region' : SharedMemoryRegion) × (buf' : List ℕ) × (res : Result ℕ
        RecvError)
      × (ReceivingHalf.try_recv t icmsg.receiver.transport region buf
          ≡ done (r', region', buf', res))
      × Direction t size from
          (running (record icmsg { receiver = record icmsg.receiver { transport = r' } })) region'

  -- So does `try_recv`.
  pub try_recv-Direction :
      (from : Phase M W) (icmsg : IcMsg M W) (region : SharedMemoryRegion) (buf : List ℕ)
      → Direction t size from (running icmsg) region
      → Receives from icmsg region buf
  try_recv-Direction off icmsg region buf d = absurd d.1
  try_recv-Direction (waiting other) icmsg region buf (q, rep) =
      let (r', region', e, rep') = try_recv_refines t q buf rep in (r', region', _, _, e, (_, rep'))
  try_recv-Direction (running other) icmsg region buf (q, rep) =
      let (r', region', e, rep') = try_recv_refines t q buf rep in (r', region', _, _, e, (_, rep'))
  try_recv-Direction (failed e) icmsg region buf d = absurd d
