-- ===== src/Interleaving/Delivery.antt =====
-- What holds in every reachable state of the interleaved ends.
use icmsg_rs.Prelude.{
  ℕ, ◌≡◌, ◌≢◌, refl, ◌∙◌, ap, Bool, true, inl, inr, List, [], ◌∷◌, ◌++◌, arith, dec_lt, append-nil,
  length, ◌+◌,
}
use mathlib.Core.Path.{subst}
use icmsg_rs.Machine.{done, Result, Target}
use icmsg_rs.Integer.{load}
use icmsg_rs.Transport.Region.{SharedMemoryRegion, SendError, RecvError}
use icmsg_rs.Transport.Cursor.Laws.{IsRing}
use icmsg_rs.Transport.Queue.{Queue, packet_size, footprint}
use icmsg_rs.Transport.Stream.{Stores}
use icmsg_rs.Transport.Stream.Sees.{Sees}
use icmsg_rs.Transport.Sender.{fill}
use icmsg_rs.Transport.Receiver.{take_packet}
use icmsg_rs.Transport.Refine.Fill.{fill-Stores, fill_refuses}
use icmsg_rs.Transport.Refine.Take.{take_packet-none, take_packet-long, take_packet-first}
use icmsg_rs.Interleaving.{
  SendPc, RecvPc, asleep, Waiter, unregistered, registered, fired, System, start, Reach, here, next,
  AllShort,
}
use icmsg_rs.Interleaving.Knowledge.{SenderKnows, ReceiverKnows, IsWoken}
use icmsg_rs.Interleaving.Packets.{Stores-seen}
use icmsg_rs.Interleaving.Invariant.{Inv, Step-Inv}

-- A region as `IcMsgTransport::new` leaves it.
pub record IsFresh (t : Target) (size : ℕ) (region : SharedMemoryRegion) : Type 0 where
  pub ring : IsRing size
  pub whole : length region.bytes ≡ size
  pub rd_zero : load t.endian region.rd_idx ≡ 0
  pub wr_zero : load t.endian region.wr_idx ≡ 0

start-Inv :
    {t : Target} {size : ℕ} {region : SharedMemoryRegion}
    → IsFresh t size region
    → Inv t size (start region)
start-Inv f = record {
  pending = [];
  log = refl;
  stores = record {
    ring = f.ring;
    whole = f.whole;
    reader = record { aligned = refl; in_ring = f.ring.nonempty };
    room = f.ring.nonempty;
    writer = let n = f.ring.nonempty in ground arith;
    holds = tt;
  };
  rd_shared = f.rd_zero;
  wr_shared = f.wr_zero;
  sender_knows = tt;
  receiver_knows = tt;
}

pub Reach-Inv :
    {t : Target} {size : ℕ} {region : SharedMemoryRegion} {s : System}
    → IsFresh t size region
    → (r : Reach t size region s) → AllShort r
    → Inv t size s
Reach-Inv f here all = start-Inv f
Reach-Inv f (next r st) (all, short) = Step-Inv st short (Reach-Inv f r all)

module _ {t : Target} {size : ℕ} {region : SharedMemoryRegion} {s : System}
    (f : IsFresh t size region) (r : Reach t size region s) (all : AllShort r) where
  -- However the two ends interleave from a fresh channel on, with messages shorter than 2 ^ 16 bytes, the
  -- messages received are those sent, in order, whole and once: the messages sent are the received ones and
  -- then those that the ring still stores.
  pub delivered_in_order :
      (pending : Queue) × (s.sent ≡ s.received ++ pending)
      × Stores size s.recv_rd_idx s.send_wr_idx s.region.bytes pending
  delivered_in_order = let inv = Reach-Inv f r all in (inv.pending, inv.log, inv.stores)

  none_pending :
      (waiter : Waiter) (pending : Queue)
      → s.sender ≡ SendPc.idle
      → waiter ≢ fired
      → IsWoken true waiter s.sender pending
      → pending ≡ []
  none_pending unregistered pending quiet not_fired w = absurd w
  none_pending registered pending quiet not_fired (inl e) = e
  none_pending registered pending quiet not_fired (inr e) = cc
  none_pending fired pending quiet not_fired w = absurd (not_fired refl)

  -- No wake-up is lost in a state that is reached with messages shorter than 2 ^ 16 bytes: when the receiver
  -- sleeps with no notification to wake it, and the sender is not inside `send`, every message that was sent
  -- has been received.
  pub no_lost_wakeup :
      s.receiver ≡ asleep → s.waiter ≢ fired → s.sender ≡ SendPc.idle → s.sent ≡ s.received
  no_lost_wakeup sleeping not_fired quiet =
      let inv = Reach-Inv f r all in
      let woken =
        subst (ReceiverKnows size s.recv_rd_idx inv.pending s.sender s.waiter) sleeping
          inv.receiver_knows in
      inv.log
      ∙ ap (λ l. s.received ++ l) (none_pending s.waiter inv.pending quiet not_fired woken)
      ∙ append-nil s.received

  -- The sender never gets stuck in a state that is reached with messages shorter than 2 ^ 16 bytes: its copy
  -- neither panics nor leaves the data buffer, however far the receiver has gone since the read index was
  -- loaded.
  pub fill-done :
      (rd_idx : ℕ) (msg : List ℕ)
      → s.sender ≡ SendPc.loaded rd_idx msg
      → (res : Result (ℕ × List ℕ) SendError) × (fill t size s.send_wr_idx rd_idx s.region.bytes msg
          ≡ done res)
  fill-done rd_idx msg e =
      let inv = Reach-Inv f r all in
      let (short, old, st, behind) =
        subst (SenderKnows size s.recv_rd_idx s.send_wr_idx s.region.bytes inv.pending) e
          inv.sender_knows in
      elim (dec_lt (footprint (old ++ inv.pending) + packet_size (length msg)) size) [
        | yes fits ↦ let (after, filled, rest) = fill-Stores t msg st short fits in (_, filled)
        | no full ↦ (_, fill_refuses t msg st (omega arith))
      ]

  take_packet-done_of :
      (q : Queue) (wr_idx : ℕ) (buf seen : List ℕ)
      → Stores size s.recv_rd_idx wr_idx seen q
      → (res : Result (ℕ × ℕ × List ℕ) RecvError) × (take_packet t size s.recv_rd_idx wr_idx seen
            buf
          ≡ done res)
  take_packet-done_of [] wr_idx buf seen st = (_, take_packet-none t buf st)
  take_packet-done_of (m ∷ q) wr_idx buf seen st = elim (dec_lt (length buf) (length m)) [
    | yes long ↦ (_, take_packet-long t buf st long)
    | no short ↦ (_, take_packet-first t buf st (omega arith))
  ]

  -- The receiver never gets stuck in a state that is reached with messages shorter than 2 ^ 16 bytes: its
  -- copy neither panics nor leaves the data buffer, however far the sender has gone since the write index was
  -- loaded, and whatever it sees of the data outside the packets in front of that index.
  pub take_packet-done :
      (pending : Bool) (buf seen : List ℕ) (wr_idx : ℕ)
      → s.receiver ≡ RecvPc.loaded pending buf wr_idx
      → Sees size s.recv_rd_idx wr_idx s.region.bytes seen
      → (res : Result (ℕ × ℕ × List ℕ) RecvError) × (take_packet t size s.recv_rd_idx wr_idx seen
            buf
          ≡ done res)
  take_packet-done pending buf view wr_idx e sees =
      let inv = Reach-Inv f r all in
      let (seen, unseen, split, at, woken) =
        subst (ReceiverKnows size s.recv_rd_idx inv.pending s.sender s.waiter) e
          inv.receiver_knows in
      take_packet-done_of seen wr_idx buf view (
        Stores-seen seen unseen
          (subst (Stores size s.recv_rd_idx s.send_wr_idx s.region.bytes) split inv.stores) at sees)
