-- ===== src/Interleaving.antt =====
-- One direction of the channel with both ends at work at once: a step is one access to a shared index,
-- one copy of a packet, one notification or one poll of the waiter. The sender runs `Sender::send` of
-- src/transport.rs again and again, the receiver `Receiver::recv` of src/lib.rs.
pub mod Knowledge
pub mod Packets
pub mod Invariant
pub mod Delivery
pub mod Progress
mod Tests
use icmsg_rs.Prelude.{ℕ, ◌^◌, ◌<◌, ◌≡◌, ◌≢◌, Bool, true, false, List, [], ◌∷◌, ◌++◌, length, take}
use icmsg_rs.Machine.{done, ok, err, Target}
use icmsg_rs.Integer.{load, store}
use icmsg_rs.Transport.Region.{SharedMemoryRegion, SendError, RecvError, empty}
use icmsg_rs.Transport.Queue.{Queue}
use icmsg_rs.Transport.Stream.Sees.{Sees}
use icmsg_rs.Transport.Sender.{fill}
use icmsg_rs.Transport.Receiver.{take_packet}

-- Where `send` stands, with its local variables.
pub data SendPc : Type 0 where
  idle : SendPc
  loaded : (rd_idx : ℕ) (msg : List ℕ) → SendPc
  filled : (wr_idx : ℕ) (msg : List ℕ) → SendPc
  stored : SendPc  -- before `self.notify()`

-- Where `recv` stands; `pending` is what the poll of the waiter answered.
pub data RecvPc : Type 0 where
  idle : RecvPc
  polled : (pending : Bool) (buf : List ℕ) → RecvPc
  loaded : (pending : Bool) (buf : List ℕ) (wr_idx : ℕ) → RecvPc
  taken : (n rd_idx : ℕ) (buf : List ℕ) → RecvPc
  asleep : RecvPc  -- in `wait_fut.await`

-- The future of `wait_for_notify`. A notification completes it from its first poll on; one that comes
-- when no future is registered may be lost.
pub data Waiter : Type 0 where
  unregistered registered fired : Waiter

abbrev pub fire : Waiter → Waiter
fire unregistered = unregistered
fire registered = fired
fire fired = fired

-- `sent` and `received` are the messages published and taken so far.
pub record System : Type 0 where
  pub region : SharedMemoryRegion
  pub send_wr_idx : ℕ
  pub recv_rd_idx : ℕ
  pub sender : SendPc
  pub receiver : RecvPc
  pub waiter : Waiter
  pub sent : Queue
  pub received : Queue

-- After a call that found nothing: `if r.is_pending() { wait_fut.await; }`.
abbrev pub after_empty : Bool → RecvPc
after_empty true = asleep
after_empty false = RecvPc.idle

-- The poll of a new future.
abbrev pub after_poll : Bool → Waiter
after_poll true = registered
after_poll false = unregistered

-- A step of either end, on a ring of `size` bytes. The copy of the receiver sees what was published when it
-- loaded the write index, and anything elsewhere: the bytes that the sender writes meanwhile, in any
-- order and in part.
pub data Step (t : Target) (size : ℕ) (s : System) : System → Type 0 where
  load_rd :
      (msg : List ℕ)
      → s.sender ≡ SendPc.idle
      → Step t size s (record s { sender = SendPc.loaded (load t.endian s.region.rd_idx) msg })
  fill_ok :
      {rd_idx wr_idx : ℕ} {msg bytes : List ℕ}
      → s.sender ≡ SendPc.loaded rd_idx msg
      → fill t size s.send_wr_idx rd_idx s.region.bytes msg ≡ done (ok (wr_idx, bytes))
      → Step t size s
          (record s { region = record s.region { bytes = bytes }; sender = filled wr_idx msg })
  fill_err :
      {rd_idx : ℕ} {msg : List ℕ} {e : SendError}
      → s.sender ≡ SendPc.loaded rd_idx msg
      → fill t size s.send_wr_idx rd_idx s.region.bytes msg ≡ done (err e)
      → Step t size s (record s { sender = SendPc.idle })
  store_wr :
      {wr_idx : ℕ} {msg : List ℕ}
      → s.sender ≡ filled wr_idx msg
      → Step t size s (record s {
        region = record s.region { wr_idx = store t.endian s.region.wr_idx wr_idx };
        send_wr_idx = wr_idx;
        sender = stored;
        sent = s.sent ++ (msg ∷ []);
      })
  notify :
      s.sender ≡ stored → Step t size s (record s { sender = SendPc.idle; waiter = fire s.waiter })
  poll :
      (pending : Bool) (buf : List ℕ)
      → s.receiver ≡ RecvPc.idle
      → Step t size s (record s { receiver = polled pending buf; waiter = after_poll pending })
  load_wr :
      {pending : Bool} {buf : List ℕ}
      → s.receiver ≡ polled pending buf
      → Step t size s
          (record s { receiver = RecvPc.loaded pending buf (load t.endian s.region.wr_idx) })
  take_ok :
      {pending : Bool} {buf buf' seen : List ℕ} {wr_idx n rd_idx : ℕ}
      → s.receiver ≡ RecvPc.loaded pending buf wr_idx
      → Sees size s.recv_rd_idx wr_idx s.region.bytes seen
      → take_packet t size s.recv_rd_idx wr_idx seen buf ≡ done (ok (n, rd_idx, buf'))
      → Step t size s (record s { receiver = taken n rd_idx buf' })
  take_empty :
      {pending : Bool} {buf seen : List ℕ} {wr_idx : ℕ}
      → s.receiver ≡ RecvPc.loaded pending buf wr_idx
      → Sees size s.recv_rd_idx wr_idx s.region.bytes seen
      → take_packet t size s.recv_rd_idx wr_idx seen buf ≡ done (err empty)
      → Step t size s (record s { receiver = after_empty pending })
  take_err :
      {pending : Bool} {buf seen : List ℕ} {wr_idx : ℕ} {e : RecvError}
      → s.receiver ≡ RecvPc.loaded pending buf wr_idx
      → Sees size s.recv_rd_idx wr_idx s.region.bytes seen
      → take_packet t size s.recv_rd_idx wr_idx seen buf ≡ done (err e)
      → e ≢ empty
      → Step t size s (record s { receiver = RecvPc.idle })
  store_rd :
      {n rd_idx : ℕ} {buf : List ℕ}
      → s.receiver ≡ taken n rd_idx buf
      → Step t size s (record s {
        region = record s.region { rd_idx = store t.endian s.region.rd_idx rd_idx };
        recv_rd_idx = rd_idx;
        receiver = RecvPc.idle;
        received = s.received ++ (take n buf ∷ []);
      })
  wake :
      s.receiver ≡ asleep → s.waiter ≡ fired → Step t size s (record s { receiver = RecvPc.idle })

-- What can be reached from a fresh channel over the region `region`.
abbrev pub start : SharedMemoryRegion → System
start region = record {
  region = region;
  send_wr_idx = 0;
  recv_rd_idx = 0;
  sender = SendPc.idle;
  receiver = RecvPc.idle;
  waiter = unregistered;
  sent = [];
  received = [];
}

pub data Reach (t : Target) (size : ℕ) (region : SharedMemoryRegion) : System → Type 0 where
  here : Reach t size region (start region)
  next : {s s' : System} → Reach t size region s → Step t size s s' → Reach t size region s'

-- The step does not begin a `send` of 2 ^ 16 bytes or more, whose length the header of a packet would
-- truncate.
abbrev pub IsShort : {t : Target} {size : ℕ} {s s' : System} → Step t size s s' → Type 0
IsShort (load_rd msg e) = length msg < 2 ^ 16
IsShort _ = Unit

-- Nor does any of the steps so far.
abbrev pub AllShort :
    {t : Target} {size : ℕ} {region : SharedMemoryRegion} {s : System}
    → Reach t size region s
    → Type 0
AllShort here = Unit
AllShort (next r step) = AllShort r × IsShort step
