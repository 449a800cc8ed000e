-- ===== src/Example/Cores.antt =====
-- The two cores of examples/trouble-sdc-nrf5340 behind their start: the host's `MyTransport` on the application
-- core, `receive_task` and the loop of `main` on the network core. They take turns in any order, and those of
-- the network core share its sender.
pub mod Simulates
pub mod Received
pub mod Refine
pub mod Start
pub mod Drain
pub mod Settle
use icmsg_rs.Prelude.{
  ℕ, Bool, true, false, Option, none, some, List, [], ◌∷◌, ltb, if◌then◌else◌, length, take,
}
use icmsg_rs.Machine.{Exec, done, panicked, ◌>>=◌, Result, ok, err, map_err, Target}
use icmsg_rs.Transport.Region.{SharedMemoryRegion, SendError, RecvError, Notifier}
use icmsg_rs.Transport.Queue
use icmsg_rs.Transport.Queue.{Queue}
use icmsg_rs.IcMsg.Defs.{Sender, Receiver}
use icmsg_rs.IcMsg.Recv.{Round, recv}
use icmsg_rs.Example.MyTransport.{TransportError, io_error, send_kind, read_answer, read, write}
use icmsg_rs.Example.Hci.{PacketKind, HeaderLengths, CmdErr, exec_h4_to_sdc}
use icmsg_rs.Example.Hci.Forward.{Packet, answer, frame, send_loop}
use icmsg_rs.Example.Hci.Replies.{Channel, DataPath, packet_reply, packet_executed, net_controller}
use icmsg_rs.Example.Hci.Answers.{queue_after}
use icmsg_rs.Example.Dispatch.{CommandSet}
use icmsg_rs.Example.EndToEnd.{HostPacket, bytes_of}

-- What the two cores take from other crates.
pub record Parts (C E P : Type 0) : Type 0 where
  pub set : CommandSet C E
  pub path : DataPath C E
  pub lengths : HeaderLengths
  pub kind_byte : PacketKind → ℕ
  pub parse : List ℕ → Option P

-- A turn of one of the four: the host writes a packet, `receive_task` is polled, the controller has a packet
-- for `main`, and the host's read is polled with its buffer.
pub data Turn : Type 0 where
  host_write : HostPacket → Turn
  net_recv : Turn
  net_send : Packet → Turn
  host_read : List ℕ → Turn

-- The four ends, the regions in the two directions, the controller, the buffer of `receive_task` and whether
-- it has returned, and what the host's calls have answered, the newest first.
pub record Cores (M W C P : Type 0) : Type 0 where
  pub host_sender : Sender M
  pub net_receiver : Receiver W
  pub forth : SharedMemoryRegion
  pub net_sender : Sender M
  pub host_receiver : Receiver W
  pub home : SharedMemoryRegion
  pub controller : C
  pub buf : List ℕ
  pub returned : Bool
  pub written : List (Result (Unit {0}) TransportError)
  pub heard : List (Result P TransportError)

-- A poll of a `recv` that waits if there is nothing.
abbrev pub now : Round
now = record { peer = λ region. region; pending = true; woken = false }

module _ {M W C E P : Type 0} ⦃notifier : Notifier M⦄ (t : Target) (parts : Parts C E P) where
  -- Behind `exec_h4_to_sdc`, whose error is only logged.
  unfoldable after_exec :
      Cores M W C P → (C × Channel M) × Result (Unit {0}) (CmdErr E) → Exec (Cores M W C P)
  after_exec cores ((controller, ch), res) = do
    out ← ch
    done (record cores { controller = controller; net_sender = out.0; home = out.1 })

  -- Behind a poll of `recv` in `receive_task`.
  unfoldable on_recv :
      Cores M W C P
      → Option (Receiver W × SharedMemoryRegion × List ℕ × Result ℕ RecvError)
      → Exec (Cores M W C P)
  unfolding after_exec exec_h4_to_sdc net_controller
  on_recv cores none = done cores
  on_recv cores (some (r, region, buf, ok n)) =
      after_exec (record cores { net_receiver = r; forth = region; buf = buf })
        (exec_h4_to_sdc (net_controller t parts.set parts.path)
          (cores.controller, done (cores.net_sender, cores.home)) (take n buf))
  on_recv cores (some (r, region, buf, err e)) =
      done (record cores { net_receiver = r; forth = region; buf = buf; returned = true })

  -- Behind a poll of the host's `read`.
  unfoldable on_read :
      Cores M W C P
      → Option (Receiver W × SharedMemoryRegion × Result P TransportError)
      → Cores M W C P
  on_read cores none = cores
  on_read cores (some (r, region, res)) = record cores {
    host_receiver = r;
    home = region;
    heard = res ∷ cores.heard;
  }

  unfoldable take_turn : Cores M W C P → Turn → Exec (Cores M W C P)
  unfolding on_recv on_read write read recv send_loop
  take_turn cores (host_write p) = do
    out ← write t p.size p.srcs cores.host_sender cores.forth
    done (record cores { host_sender = out.0; forth = out.1; written = out.2 ∷ cores.written })
  take_turn cores net_recv =
      if cores.returned
      then done cores
      else (do out ← recv t cores.net_receiver (now ∷ []) cores.forth cores.buf; on_recv cores out)
  take_turn cores (net_send p) = do
    out ←
        send_loop t parts.lengths parts.kind_byte {E = E} cores.net_sender cores.home
          (answer p ∷ [])
    done (record cores { net_sender = out.0; home = out.1 })
  take_turn cores (host_read rx) = do
    out ← read parts.parse t cores.host_receiver (now ∷ []) cores.home rx
    done (on_read cores out)

  unfoldable pub take_turns : Cores M W C P → List Turn → Exec (Cores M W C P)
  unfolding take_turn
  take_turns cores [] = done cores
  take_turns cores (turn ∷ turns) = do cores' ← take_turn cores turn; take_turns cores' turns

-- The specification: the controller between two queues.
pub record Queues (C P : Type 0) : Type 0 where
  pub to_net : Queue
  pub to_host : Queue
  pub controller : C
  pub returned : Bool
  pub written : List (Result (Unit {0}) TransportError)
  pub heard : List (Result P TransportError)

module _ {C E P : Type 0} (parts : Parts C E P) (size back buf_len : ℕ) where
  -- A frame that there is no room for is a panic of the network core, which ends the run.
  unfoldable framed : Queues C P → Queue × Result (Unit {0}) SendError → Exec (Queues C P)
  framed qs (q, ok _) = done (record qs { to_host = q })
  framed qs (q, err e) = panicked

  unfoldable execute : Queues C P → Queue → Queues C P
  unfolding packet_reply packet_executed
  execute qs [] = qs
  execute qs (m ∷ q) = if ltb buf_len (length m) then record qs { returned = true } else record qs {
    to_net = q;
    to_host = queue_after back qs.to_host (packet_reply parts.set parts.path qs.controller m);
    controller = packet_executed parts.set parts.path qs.controller m;
  }

  unfoldable hear : Queues C P → List ℕ → Queue → Queues C P
  unfolding Queue.try_recv read_answer
  hear qs rx [] = qs
  hear qs rx (m ∷ q) =
      let (q', rx', res) = Queue.try_recv (m ∷ q) rx in
      record qs { to_host = q'; heard = read_answer parts.parse rx' res ∷ qs.heard }

  unfoldable turn_queues : Queues C P → Turn → Exec (Queues C P)
  unfolding framed execute hear Queue.send
  turn_queues qs (host_write p) =
      let (q', res) = Queue.send size qs.to_net (bytes_of p) in
      done (record qs {
        to_net = q';
        written = map_err (λ e. io_error (send_kind e)) res ∷ qs.written;
      })
  turn_queues qs net_recv = done (if qs.returned then qs else execute qs qs.to_net)
  turn_queues qs (net_send p) = framed qs (Queue.send back qs.to_host (frame parts.kind_byte p))
  turn_queues qs (host_read rx) = done (hear qs rx qs.to_host)

  unfoldable pub run_queues : Queues C P → List Turn → Exec (Queues C P)
  unfolding turn_queues
  run_queues qs [] = done qs
  run_queues qs (turn ∷ turns) = do qs' ← turn_queues qs turn; run_queues qs' turns
