-- ===== src/Example/Cores/Simulates.antt =====
-- That the cores of Cores stand where the queues do, and that the turns other than those of `receive_task` keep
-- them there.
use icmsg_rs.Prelude.{
  ℕ, ◌+◌, ◌≡◌, refl, ap, List, [], ◌∷◌, arith, dec_lt, lt→ltb, le→not-ltb, length,
}
use mathlib.Core.Path.{subst}
use icmsg_rs.Machine.{Exec, done, panicked, map_err, Target}
use icmsg_rs.Transport.Region.{Notifier}
use icmsg_rs.Transport.Queue
use icmsg_rs.Transport.Queue.{Queue, packet_size, footprint}
use icmsg_rs.Transport.Refine.{Represents, send_refines}
use icmsg_rs.IcMsg.Recv.{recv-waits, recv-ready}
use icmsg_rs.IcMsg.Methods.{send_half}
use icmsg_rs.Example.MyTransport.{io_error, send_kind, write_result, write_lem, read, read_answer}
use icmsg_rs.Example.Hci.Forward.{Packet, IsWhole, frame, send_loop_refines, send_loop_full}
use icmsg_rs.Example.EndToEnd.{HostPacket, IsSmall, bytes_of}
use icmsg_rs.Example.Cores.{
  Parts, Turn, host_write, net_recv, net_send, host_read, Cores, now, on_read, take_turn, Queues,
  framed, hear, turn_queues,
}

-- What is documented of a packet that a turn brings.
abbrev pub IsGoodTurn : {C E P : Type 0} → Parts C E P → Turn → Type 0
IsGoodTurn parts (host_write p) = IsSmall p
IsGoodTurn parts net_recv = Unit
IsGoodTurn parts (net_send p) = IsWhole parts.lengths p
IsGoodTurn parts (host_read rx) = Unit

abbrev pub AllGoodTurns : {C E P : Type 0} → Parts C E P → List Turn → Type 0
AllGoodTurns parts [] = Unit
AllGoodTurns parts (turn ∷ turns) = IsGoodTurn parts turn × AllGoodTurns parts turns

-- The cores stand where the queues do.
pub record Simulates {M W C P : Type 0} (t : Target) (size back buf_len : ℕ) (cores : Cores M W C P)
    (qs : Queues C P) : Type 0 where
  pub forth :
      Represents t size cores.host_sender.transport cores.forth cores.net_receiver.transport
        qs.to_net
  pub home :
      Represents t back cores.net_sender.transport cores.home cores.host_receiver.transport
        qs.to_host
  pub controller : cores.controller ≡ qs.controller
  pub buf : length cores.buf ≡ buf_len
  pub returned : cores.returned ≡ qs.returned
  pub written : cores.written ≡ qs.written
  pub heard : cores.heard ≡ qs.heard

-- Both runs end well, or both panic.
abbrev pub Matches :
    {M W C P : Type 0} → Target → ℕ → ℕ → ℕ → Exec (Cores M W C P) → Exec (Queues C P) → Type 0
Matches t size back buf_len (done cores) (done qs) = Simulates t size back buf_len cores qs
Matches t size back buf_len panicked panicked = Unit
Matches t size back buf_len _ _ = ⊥

module _ {M W C E P : Type 0} ⦃notifier : Notifier M⦄ (t : Target) (parts : Parts C E P)
    (size back buf_len : ℕ) where
  pub host_write-Simulates :
      (p : HostPacket) (cores : Cores M W C P) (qs : Queues C P)
      → IsSmall p
      → Simulates t size back buf_len cores qs
      → Matches t size back buf_len
          (take_turn t parts cores (host_write p))
          (turn_queues parts size back buf_len qs (host_write p))
  unfolding take_turn turn_queues write_result send_half
  host_write-Simulates p cores qs small sim =
      let (s', region', sent, rep) =
        send_refines t (bytes_of p) (omega (arith, small.small, small.whole)) sim.forth in
      rw (write_lem t p.size p.srcs cores.host_sender cores.forth small.small small.whole, sent)
        (record {
          forth = rep;
          home = sim.home;
          controller = sim.controller;
          buf = sim.buf;
          returned = sim.returned;
          written =
              ap
                (λ w.
                  map_err (λ e. io_error (send_kind e)) (Queue.send size qs.to_net (bytes_of p)).1
                  ∷ w)
                sim.written;
          heard = sim.heard;
        })

  pub net_send-Simulates :
      (p : Packet) (cores : Cores M W C P) (qs : Queues C P)
      → IsWhole parts.lengths p
      → Simulates t size back buf_len cores qs
      → Matches t size back buf_len
          (take_turn t parts cores (net_send p))
          (turn_queues parts size back buf_len qs (net_send p))
  unfolding take_turn turn_queues framed Queue.send
  net_send-Simulates p cores qs whole sim =
      elim (dec_lt (footprint qs.to_host + packet_size (length (frame parts.kind_byte p))) back) [
        | yes room ↦
            let (s', region', sends, rep) =
              send_loop_refines t parts.lengths parts.kind_byte E (p ∷ []) (whole, tt) (omega arith)
                sim.home in
            rw
              (
                sends,
                lt→ltb (footprint qs.to_host + packet_size (length (frame parts.kind_byte p))) back
                    room,
              )
              (record {
                forth = sim.forth;
                home = rep;
                controller = sim.controller;
                buf = sim.buf;
                returned = sim.returned;
                written = sim.written;
                heard = sim.heard;
              })
        | no full ↦
            rw
              (
                send_loop_full t parts.lengths parts.kind_byte E p [] whole (omega arith) sim.home,
                le→not-ltb (footprint qs.to_host + packet_size (length (frame parts.kind_byte p)))
                    back (omega arith),
              )
              tt
      ]

  pub host_read-Simulates :
      (rx : List ℕ) (q : Queue) (cores : Cores M W C P) (qs : Queues C P)
      → qs.to_host ≡ q
      → Simulates t size back buf_len cores qs
      → Matches t size back buf_len
          (take_turn t parts cores (host_read rx))
          (done (hear parts size back buf_len qs rx q))
  unfolding take_turn hear on_read read
  host_read-Simulates rx [] cores qs e sim =
      rw
        (recv-waits t cores.host_receiver now rx
          (subst
            (Represents t back cores.net_sender.transport cores.home cores.host_receiver.transport)
            e sim.home)
          refl refl)
        sim
  host_read-Simulates rx (m ∷ q) cores qs e sim =
      let (r', region', finds, rep) =
        recv-ready t cores.host_receiver {region = cores.home} m q now [] rx (
          subst
            (Represents t back cores.net_sender.transport cores.home cores.host_receiver.transport)
            e sim.home) in
      rw finds (record {
        forth = sim.forth;
        home = rep;
        controller = sim.controller;
        buf = sim.buf;
        returned = sim.returned;
        written = sim.written;
        heard =
            ap
              (λ l.
                read_answer parts.parse (Queue.try_recv (m ∷ q) rx).1 (Queue.try_recv (m ∷ q) rx).2
                ∷ l)
              sim.heard;
      })
