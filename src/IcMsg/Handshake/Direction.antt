-- ===== src/IcMsg/Handshake/Direction.antt =====
-- What holds of one direction of the channel, by the phases of its two ends, and that every turn keeps it.
pub mod Calls
use icmsg_rs.Prelude.{
  ℕ, ◌+◌, arith, dec_lt, lt→ltb, le→not-ltb, ◌^◌, ◌<◌, ◌≡◌, refl, sym, List, [], ◌∷◌, ◌++◌, length,
}
use mathlib.Core.Path.{subst}
use icmsg_rs.Machine.{done, Result, ok, Target}
use icmsg_rs.Transport.Region.{SharedMemoryRegion, Notifier, SendError, RecvError}
use icmsg_rs.Transport.Queue.{Queue, footprint, packet_size}
use icmsg_rs.Transport.Queue
use icmsg_rs.Transport.Sender as TransportHalf
use icmsg_rs.Transport.Receiver as ReceivingHalf
use icmsg_rs.Transport.Sender.{Sender as TransportSender}
use icmsg_rs.Transport.Receiver.{Receiver as TransportReceiver}
use icmsg_rs.Transport.IcMsgTransport.{IcMsgTransport, Regions}
use icmsg_rs.Transport.Refine.{Represents, send_refines, try_recv_refines}
use icmsg_rs.IcMsg.Defs.{magic, IcMsg, Sender, bond, list_beq}
use icmsg_rs.IcMsg.Bonding.{Bonds, bonding, bond_refines}
use icmsg_rs.IcMsg.Bonding.Both.{Represents-mbox}
use icmsg_rs.IcMsg.Handshake.{Phase, off, waiting, running, failed}

abbrev pub fresh_receiver : ℕ → TransportReceiver
fresh_receiver size = record { recv_buffer_len = size; recv_rd_idx = 0 }

-- The core is behind `init`.
abbrev pub IsRunning {ℓ κ} : {M : Type ℓ} {W : Type κ} → Phase M W → Type 0
IsRunning off = ⊥
IsRunning (waiting transport) = ⊥
IsRunning (running icmsg) = Unit
IsRunning (failed e) = ⊥

module _ {ℓ κ} {M : Type ℓ} {W : Type κ} where
  -- The core has sent its magic word.
  abbrev pub IsAnnounced : Phase M W → Type 0
  IsAnnounced off = ⊥
  IsAnnounced (waiting transport) = Unit
  IsAnnounced (running icmsg) = Unit
  IsAnnounced (failed e) = ⊥

  -- The core has received nothing yet.
  abbrev pub IsUnbonded : ℕ → Phase M W → Type 0
  IsUnbonded size off = Unit
  IsUnbonded size (waiting transport) = transport.receiver ≡ fresh_receiver size
  IsUnbonded size (running icmsg) = ⊥
  IsUnbonded size (failed e) = ⊥

  module _ (t : Target) (size : ℕ) where
    -- The direction from the sender `s` to a core in this phase: the magic word comes first until that
    -- core has bonded.
    abbrev pub IsOpen : TransportSender M → Phase M W → SharedMemoryRegion → Type 0
    IsOpen s off region = (q : Queue) × Represents t size s region (fresh_receiver size) (magic ∷ q)
    IsOpen s (waiting transport) region =
        (q : Queue) × (transport.receiver ≡ fresh_receiver size)
        × Represents t size s region (fresh_receiver size) (magic ∷ q)
    IsOpen s (running icmsg) region =
        (q : Queue) × Represents t size s region icmsg.receiver.transport q
    IsOpen s (failed e) region = ⊥

    -- The direction from a core in the first phase to one in the second.
    abbrev pub Direction : Phase M W → Phase M W → SharedMemoryRegion → Type 0
    Direction off to region = (length region.bytes ≡ size) × IsUnbonded size to
    Direction (waiting transport) to region = IsOpen transport.sender to region
    Direction (running icmsg) to region = IsOpen icmsg.sender.transport to region
    Direction (failed e) to region = ⊥

    whole_open :
        (s : TransportSender M) (to : Phase M W) (region : SharedMemoryRegion)
        → IsOpen s to region
        → length region.bytes ≡ size
    whole_open s off region (q, rep) = rep.stored.whole
    whole_open s (waiting transport) region (q, same, rep) = rep.stored.whole
    whole_open s (running icmsg) region (q, rep) = rep.stored.whole
    whole_open s (failed e) region open_ = absurd open_

    pub whole :
        (from to : Phase M W) (region : SharedMemoryRegion)
        → Direction from to region
        → length region.bytes ≡ size
    whole off to region d = d.0
    whole (waiting transport) to region d = whole_open transport.sender to region d
    whole (running icmsg) to region d = whole_open icmsg.sender.transport to region d
    whole (failed e) to region d = absurd d

    -- A core has bonded only with one that has announced itself.
    pub Direction-IsAnnounced :
        (from to : Phase M W) (region : SharedMemoryRegion)
        → Direction from to region
        → IsRunning to
        → IsAnnounced from
    Direction-IsAnnounced off off region d r = absurd r
    Direction-IsAnnounced off (waiting transport) region d r = absurd r
    Direction-IsAnnounced off (running icmsg) region d r = absurd d.1
    Direction-IsAnnounced off (failed e) region d r = absurd r
    Direction-IsAnnounced (waiting transport) to region d r = tt
    Direction-IsAnnounced (running icmsg) to region d r = tt
    Direction-IsAnnounced (failed e) to region d r = absurd d

    -- A core announces itself.
    pub announce-IsOpen :
        {s : TransportSender M} (to : Phase M W) (region : SharedMemoryRegion)
        → IsUnbonded size to
        → Represents t size s region (fresh_receiver size) (magic ∷ [])
        → IsOpen s to region
    announce-IsOpen off region unbonded rep = ([], rep)
    announce-IsOpen (waiting transport) region unbonded rep = ([], unbonded, rep)
    announce-IsOpen (running icmsg) region unbonded rep = absurd unbonded
    announce-IsOpen (failed e) region unbonded rep = absurd unbonded

    pub announce-Direction :
        (from : Phase M W) (transport : IcMsgTransport M) (region : SharedMemoryRegion)
        → transport.receiver ≡ fresh_receiver size
        → Direction from off region
        → Direction from (waiting transport) region
    announce-Direction off transport region fresh d = (d.0, fresh)
    announce-Direction (waiting other) transport region fresh (q, rep) = (q, fresh, rep)
    announce-Direction (running icmsg) transport region fresh (q, rep) = (q, fresh, rep)
    announce-Direction (failed e) transport region fresh d = absurd d

    -- A notification changes the state of the notifier only.
    pub notify-IsOpen :
        (s : TransportSender M) (to : Phase M W) (region : SharedMemoryRegion) (mbox : M)
        → IsOpen s to region
        → IsOpen (record s { mbox = mbox }) to region
    notify-IsOpen s off region mbox (q, rep) = (q, Represents-mbox mbox rep)
    notify-IsOpen s (waiting transport) region mbox (q, same, rep) =
        (q, same, Represents-mbox mbox rep)
    notify-IsOpen s (running icmsg) region mbox (q, rep) = (q, Represents-mbox mbox rep)
    notify-IsOpen s (failed e) region mbox open_ = absurd open_

    -- The receiving end of a direction is the core's receiving half only.
    pub waiting-Direction :
        (from : Phase M W) (transport : IcMsgTransport M) (sender : TransportSender M)
        (region : SharedMemoryRegion)
        → Direction from (waiting transport) region
        → Direction from (waiting (record transport { sender = sender })) region
    waiting-Direction off transport sender region d = d
    waiting-Direction (waiting other) transport sender region d = d
    waiting-Direction (running icmsg) transport sender region d = d
    waiting-Direction (failed e) transport sender region d = d

    pub running-Direction :
        (from : Phase M W) (icmsg : IcMsg M W) (sender : Sender M) (region : SharedMemoryRegion)
        → Direction from (running icmsg) region
        → Direction from (running (record icmsg { sender = sender })) region
    running-Direction off icmsg sender region d = d
    running-Direction (waiting other) icmsg sender region d = d
    running-Direction (running icmsg') icmsg sender region d = d
    running-Direction (failed e) icmsg sender region d = d

    -- A core that has heard of the other one bonds.
    pub bond-Direction :
        (from : Phase M W) (transport : IcMsgTransport M) (waiter : W) (mem : Regions)
        → IsAnnounced from
        → Direction from (waiting transport) mem.recv_region
        → (icmsg : IcMsg M W) × (region : SharedMemoryRegion) × (bond t transport waiter mem
            ≡ done (ok (icmsg, record mem { recv_region = region })))
          × (icmsg.sender.transport ≡ transport.sender)
          × Direction from (running icmsg) region
    unfolding Bonds bonding list_beq
    bond-Direction off transport waiter mem heard d = absurd heard
    bond-Direction (waiting other) transport waiter mem heard (q, fresh, rep) =
        let (r', region', e, rep') = bond_refines t transport waiter mem (magic ∷ q) (
          subst (λ r. Represents t size other.sender mem.recv_region r (magic ∷ q)) (sym fresh)
            rep) in
        (_, region', e, refl, (q, rep'))
    bond-Direction (running icmsg) transport waiter mem heard (q, fresh, rep) =
        let (r', region', e, rep') = bond_refines t transport waiter mem (magic ∷ q) (
          subst (λ r. Represents t size icmsg.sender.transport mem.recv_region r (magic ∷ q))
            (sym fresh) rep) in
        (_, region', e, refl, (q, rep'))
    bond-Direction (failed e) transport waiter mem heard d = absurd heard
