-- ===== src/Example/Cores/Received.antt =====
-- The turns of `receive_task` in Cores keep the cores where the queues stand.
use icmsg_rs.Prelude.{
  ℕ, ◌≤◌, ◌≡◌, refl, ap, List, [], ◌∷◌, arith, dec_lt, lt→ltb, le→not-ltb, length, drop,
  take-append, length-append, length-drop,
}
use mathlib.Core.Path.{subst}
use icmsg_rs.Machine.{done, ◌>>=◌, Target}
use icmsg_rs.Transport.Region.{Notifier}
use icmsg_rs.Transport.Queue.{Queue}
use icmsg_rs.Transport.Refine.{Represents}
use icmsg_rs.IcMsg.Recv.{recv, recv-waits, recv-found, recv-long}
use icmsg_rs.Example.Hci.Replies.{packet_reply, packet_executed}
use icmsg_rs.Example.Hci.Answers.{queue_after, exec_h4_to_sdc_refines}
use icmsg_rs.Example.Hci.Short.{IsSized, packet_reply-short}
use icmsg_rs.Example.Cores.Simulates.{Simulates, Matches}
use icmsg_rs.Example.Cores.{Parts, Cores, now, on_recv, after_exec, Queues, execute}

module _ {M W C E P : Type 0} ⦃notifier : Notifier M⦄ (t : Target) (parts : Parts C E P)
    (size back buf_len : ℕ) (sized : IsSized parts.set) where
  -- A packet that fits is executed.
  executed-Simulates :
      (m : List ℕ) (q : Queue) (cores : Cores M W C P) (qs : Queues C P)
      → length m ≤ buf_len
      → qs.to_net ≡ m ∷ q
      → Simulates t size back buf_len cores qs
      → Matches t size back buf_len
          (recv t cores.net_receiver (now ∷ []) cores.forth cores.buf >>= on_recv t parts cores)
          (done (execute parts size back buf_len qs (m ∷ q)))
  unfolding on_recv after_exec execute
  executed-Simulates m q cores qs fits e sim =
      let (half, forth', finds, rep) =
        recv-found t cores.net_receiver {region = cores.forth} now [] cores.buf
          (subst
            (Represents t size cores.host_sender.transport cores.forth cores.net_receiver.transport)
            e sim.forth)
          (omega (arith, sim.buf, fits)) in
      let (s', home', runs, rep', answered) =
        exec_h4_to_sdc_refines t parts.set parts.path {s = cores.net_sender} cores.controller m
          (packet_reply-short parts.set sized parts.path cores.controller m) sim.home in
      rw
        (
          finds,
          take-append m (drop (length m) cores.buf),
          runs,
          le→not-ltb buf_len (length m) (omega (arith, fits)),
        )
        (record {
          forth = rep;
          home =
              subst
                (λ c.
                  Represents t back s'.transport home' cores.host_receiver.transport
                    (queue_after back qs.to_host (packet_reply parts.set parts.path c m)))
                sim.controller rep';
          controller = ap (λ c. packet_executed parts.set parts.path c m) sim.controller;
          buf = omega (
            arith,
            sim.buf,
            fits,
            length-append m (drop (length m) cores.buf),
            length-drop (length m) cores.buf,
          );
          returned = sim.returned;
          written = sim.written;
          heard = sim.heard;
        })

  pub received-Simulates :
      (q : Queue) (cores : Cores M W C P) (qs : Queues C P)
      → qs.to_net ≡ q
      → Simulates t size back buf_len cores qs
      → Matches t size back buf_len
          (recv t cores.net_receiver (now ∷ []) cores.forth cores.buf >>= on_recv t parts cores)
          (done (execute parts size back buf_len qs q))
  unfolding on_recv execute
  received-Simulates [] cores qs e sim =
      rw
        (recv-waits t cores.net_receiver now cores.buf
          (subst
            (Represents t size cores.host_sender.transport cores.forth cores.net_receiver.transport)
            e sim.forth)
          refl refl)
        sim
  received-Simulates (m ∷ q) cores qs e sim = elim (dec_lt buf_len (length m)) [
    | no fits ↦ executed-Simulates m q cores qs (omega arith) e sim
    | yes long ↦
        let found =
          subst
            (Represents t size cores.host_sender.transport cores.forth cores.net_receiver.transport)
            e sim.forth in
        rw
          (
            recv-long t cores.net_receiver {region = cores.forth} now [] cores.buf found
                (omega (arith, sim.buf)),
            lt→ltb buf_len (length m) long,
          )
          (record {
            forth = sim.forth;
            home = sim.home;
            controller = sim.controller;
            buf = sim.buf;
            returned = refl;
            written = sim.written;
            heard = sim.heard;
          })
  ]
