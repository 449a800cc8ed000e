-- ===== src/Transport/Refine.antt =====
-- `send` and `try_recv` of src/transport.rs implement the queue: one call, and any sequence of calls.
pub mod Fill
pub mod Take
use icmsg_rs.Prelude.{
  ℕ, ◌+◌, ◌-◌, ◌^◌, ◌≤◌, ◌<◌, ◌≡◌, refl, sym, ap, List, [], ◌∷◌, ◌++◌, arith, dec_lt, ltb, lt→ltb,
  le→not-ltb, length, drop,
}
use icmsg_rs.Machine.{done, Target, Result, ok, err}
use icmsg_rs.Integer.{load, store}
use icmsg_rs.Integer.Laws.{load-store}
use icmsg_rs.Transport.Region.{
  SharedMemoryRegion, Notifier, SendError, RecvError, insufficient_capacity,
}
use icmsg_rs.Transport.Cursor.Laws.{wrap}
use icmsg_rs.Transport.Queue
use icmsg_rs.Transport.Queue.{Queue, packet_size, footprint}
use icmsg_rs.Transport.Stream.{Stores, Stores-tail, Stores-writer}
use icmsg_rs.Transport.Sender.{Sender, send}
use icmsg_rs.Transport.Receiver.{Receiver, try_recv}
use Fill.{end, fill-Stores, fill_refuses}
use Take.{take_packet-none, take_packet-long, take_packet-first}

-- A sender, the receiver at the other end and the region between them hold the queue `q`, and neither
-- is inside a call: the shared indices are those that each end remembers.
pub record Represents {ℓ} {M : Type ℓ} (t : Target) (size : ℕ) (s : Sender M)
    (region : SharedMemoryRegion) (r : Receiver) (q : Queue) : Type 0 where
  pub send_len : s.send_buffer_len ≡ size
  pub recv_len : r.recv_buffer_len ≡ size
  pub rd_shared : load t.endian region.rd_idx ≡ r.recv_rd_idx
  pub wr_shared : load t.endian region.wr_idx ≡ s.send_wr_idx
  pub stored : Stores size r.recv_rd_idx s.send_wr_idx region.bytes q

module _ {ℓ} {M : Type ℓ} ⦃notifier : Notifier M⦄ (t : Target) {size : ℕ} where
  module _ {s : Sender M} {region : SharedMemoryRegion} {r : Receiver} {q : Queue} (msg : List ℕ)
      (rep : Represents t size s region r q) where
    pub send-ok :
        length msg < 2 ^ 16
        → footprint q + packet_size (length msg) < size
        → (s' : Sender M) × (region' : SharedMemoryRegion) × (send t s region msg
            ≡ done (s', region', ok tt))
          × Represents t size s' region' r (q ++ (msg ∷ []))
    unfolding send
    send-ok short fits =
        let (after, filled, stored) = fill-Stores t msg rep.stored short fits in
        let index = (Stores-writer stored).in_ring in
        let small = stored.ring.small in
        let wr_idx = end t msg rep.stored in
        (
          record s { send_wr_idx = wr_idx; mbox = notifier.notify s.mbox },
          record region { wr_idx = store t.endian region.wr_idx wr_idx; bytes = after },
          rw (rep.send_len, rep.rd_shared, filled),
          record {
            send_len = rep.send_len;
            recv_len = rep.recv_len;
            rd_shared = rep.rd_shared;
            wr_shared = load-store t.endian region.wr_idx wr_idx (omega arith);
            stored = stored;
          },
        )

    pub send-full :
        size ≤ footprint q + packet_size (length msg)
        → send t s region msg ≡ done (s, region, err insufficient_capacity)
    unfolding send
    send-full h = rw (rep.send_len, rep.rd_shared, fill_refuses t msg rep.stored h)

  -- `send` returns what the queue returns, without a panic, an overflow or an access out of bounds, and
  -- the channel then represents the new queue. The message is shorter than 2 ^ 16 bytes.
  pub send_refines :
      {s : Sender M} {region : SharedMemoryRegion} {r : Receiver} {q : Queue} (msg : List ℕ)
      → length msg < 2 ^ 16
      → Represents t size s region r q
      → (s' : Sender M) × (region' : SharedMemoryRegion) × (send t s region msg
          ≡ done (s', region', (Queue.send size q msg).1))
        × Represents t size s' region' r (Queue.send size q msg).0
  unfolding Queue.send
  send_refines {s} {region} {r} {q} msg short rep =
      elim (dec_lt (footprint q + packet_size (length msg)) size) [
        | yes fits ↦ rw (lt→ltb _ _ fits) (send-ok msg rep short fits)
        | no full ↦
            rw (le→not-ltb (footprint q + packet_size (length msg)) size (omega arith))
              (s, region, send-full msg rep (omega arith), rep)
      ]

module _ {ℓ} {M : Type ℓ} (t : Target) {size : ℕ} {s : Sender M} {region : SharedMemoryRegion}
    {r : Receiver} where
  pub try_recv-none :
      (buf : List ℕ)
      → Represents t size s region r []
      → try_recv t r region buf ≡ done (r, region, buf, err RecvError.empty)
  unfolding try_recv
  try_recv-none buf rep = rw (rep.wr_shared, rep.recv_len, take_packet-none t buf rep.stored)

  module _ {m : List ℕ} {q : Queue} (buf : List ℕ)
      (rep : Represents t size s region r (m ∷ q)) where
    pub try_recv-long :
        length buf < length m
        → try_recv t r region buf ≡ done (r, region, buf, err RecvError.message_too_big)
    unfolding try_recv
    try_recv-long h = rw (rep.wr_shared, rep.recv_len, take_packet-long t buf rep.stored h)

    pub try_recv-first :
        length m ≤ length buf
        → (r' : Receiver) × (region' : SharedMemoryRegion) × (try_recv t r region buf
            ≡ done (r', region', m ++ drop (length m) buf, ok (length m)))
          × Represents t size s region' r' q
    unfolding try_recv
    try_recv-first h =
        let rest = Stores-tail rep.stored in
        let index = rest.reader.in_ring in
        let small = rest.ring.small in
        (
          _,
          _,
          rw (rep.wr_shared, rep.recv_len, take_packet-first t buf rep.stored h),
          record {
            send_len = rep.send_len;
            recv_len = rep.recv_len;
            rd_shared =
                load-store t.endian region.rd_idx
                  (wrap size (r.recv_rd_idx + packet_size (length m))) (omega arith);
            wr_shared = rep.wr_shared;
            stored = rest;
          },
        )

-- `try_recv` returns what the queue returns and leaves in the caller's buffer what the queue leaves
-- there, without a panic, an overflow or an access out of bounds, and the channel then represents the
-- queue that is left.
pub try_recv_refines {ℓ} :
    {M : Type ℓ} (t : Target) {size : ℕ} {s : Sender M} {region : SharedMemoryRegion} {r : Receiver}
    (q : Queue) (buf : List ℕ)
    → Represents t size s region r q
    → (r' : Receiver) × (region' : SharedMemoryRegion) × (try_recv t r region buf
        ≡ done (r', region', (Queue.try_recv q buf).1, (Queue.try_recv q buf).2))
      × Represents t size s region' r' (Queue.try_recv q buf).0
unfolding Queue.try_recv
try_recv_refines t {region} {r} [] buf rep = (r, region, try_recv-none t buf rep, rep)
try_recv_refines t {region} {r} (m ∷ q) buf rep = elim (dec_lt (length buf) (length m)) [
  | yes long ↦ rw (lt→ltb _ _ long) (r, region, try_recv-long t buf rep long, rep)
  | no short ↦
      rw (le→not-ltb (length buf) (length m) (omega arith)) (try_recv-first t buf rep (omega arith))
]
