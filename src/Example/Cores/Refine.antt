-- ===== src/Example/Cores/Refine.antt =====
-- The two cores of Cores implement the controller between two queues, in any order of turns.
use icmsg_rs.Prelude.{ℕ, ◌≡◌, refl, Bool, true, false, List, [], ◌∷◌, if◌then◌else◌}
use icmsg_rs.Machine.{Exec, done, panicked, undefined, ◌>>=◌, Target}
use icmsg_rs.Transport.Region.{Notifier}
use icmsg_rs.IcMsg.Recv.{recv}
use icmsg_rs.Example.Hci.Short.{IsSized}
use icmsg_rs.Example.Cores.Simulates.{
  IsGoodTurn, AllGoodTurns, Simulates, Matches, host_write-Simulates, net_send-Simulates,
  host_read-Simulates,
}
use icmsg_rs.Example.Cores.Received.{received-Simulates}
use icmsg_rs.Example.Cores.{
  Parts, Turn, host_write, net_recv, net_send, host_read, Cores, now, on_recv, take_turn,
  take_turns, Queues, execute, turn_queues, run_queues,
}

module _ {M W C E P : Type 0} ⦃notifier : Notifier M⦄ (t : Target) (parts : Parts C E P)
    (size back buf_len : ℕ) (sized : IsSized parts.set) where
  Matches-if :
      (b b' : Bool) (cores cores' : Exec (Cores M W C P)) (qs qs' : Queues C P)
      → b ≡ b'
      → Matches t size back buf_len cores (done qs)
      → Matches t size back buf_len cores' (done qs')
      → Matches t size back buf_len (if b then cores else cores') (done (if b' then qs else qs'))
  Matches-if true true cores cores' qs qs' e ended goes_on = ended
  Matches-if false false cores cores' qs qs' e ended goes_on = goes_on
  Matches-if true false cores cores' qs qs' e ended goes_on = absurd cc
  Matches-if false true cores cores' qs qs' e ended goes_on = absurd cc

  turn-Simulates :
      (turn : Turn) (cores : Cores M W C P) (qs : Queues C P)
      → IsGoodTurn parts turn
      → Simulates t size back buf_len cores qs
      → Matches t size back buf_len
          (take_turn t parts cores turn)
          (turn_queues parts size back buf_len qs turn)
  unfolding take_turn turn_queues
  turn-Simulates (host_write p) cores qs good sim =
      host_write-Simulates t parts size back buf_len p cores qs good sim
  turn-Simulates net_recv cores qs good sim =
      Matches-if cores.returned qs.returned (done cores)
        (recv t cores.net_receiver (now ∷ []) cores.forth cores.buf >>= on_recv t parts cores) qs
        (execute parts size back buf_len qs qs.to_net) sim.returned sim
        (received-Simulates t parts size back buf_len sized qs.to_net cores qs refl sim)
  turn-Simulates (net_send p) cores qs good sim =
      net_send-Simulates t parts size back buf_len p cores qs good sim
  turn-Simulates (host_read rx) cores qs good sim =
      host_read-Simulates t parts size back buf_len rx qs.to_host cores qs refl sim

  Matches-bind :
      (cores : Exec (Cores M W C P)) (qs : Exec (Queues C P))
      (next : Cores M W C P → Exec (Cores M W C P)) (spec : Queues C P → Exec (Queues C P))
      → Matches t size back buf_len cores qs
      → ((cores : Cores M W C P) (qs : Queues C P)
          → Simulates t size back buf_len cores qs
          → Matches t size back buf_len (next cores) (spec qs))
      → Matches t size back buf_len (cores >>= next) (qs >>= spec)
  Matches-bind (done cores) (done qs) next spec sim h = h cores qs sim
  Matches-bind panicked panicked next spec sim h = tt
  Matches-bind (done cores) panicked next spec sim h = absurd sim
  Matches-bind (done cores) undefined next spec sim h = absurd sim
  Matches-bind panicked (done qs) next spec sim h = absurd sim
  Matches-bind panicked undefined next spec sim h = absurd sim
  Matches-bind undefined qs next spec sim h = absurd sim

  -- Two cores with a channel in each direction implement the controller between two bounded queues, whatever
  -- order the host's writes and reads, the packets from the host and the controller's own packets take: they
  -- answer what the queues answer, execute what they execute, and panic only where they panic, when a packet
  -- of the controller finds no room; they never leave a region. The host's packets have fewer than 1024
  -- bytes, and their pieces are their bytes and their indicators; the headers of the controller's packets
  -- state their lengths, which are below 2 ^ 16 with the indicator, and its return values have their commands'
  -- lengths, at most 251 bytes.
  pub take_turns_refine :
      (turns : List Turn) (cores : Cores M W C P) (qs : Queues C P)
      → AllGoodTurns parts turns
      → Simulates t size back buf_len cores qs
      → Matches t size back buf_len
          (take_turns t parts cores turns)
          (run_queues parts size back buf_len qs turns)
  unfolding take_turns run_queues
  take_turns_refine [] cores qs good sim = sim
  take_turns_refine (turn ∷ turns) cores qs (good, rest) sim =
      Matches-bind (take_turn t parts cores turn) (turn_queues parts size back buf_len qs turn)
        (λ c. take_turns t parts c turns) (λ q. run_queues parts size back buf_len q turns)
        (turn-Simulates turn cores qs good sim)
        (λ cores' qs' sim'. take_turns_refine turns cores' qs' rest sim')
