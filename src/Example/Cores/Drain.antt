-- ===== src/Example/Cores/Drain.antt =====
-- The two cores of Cores come to rest: turns of `receive_task` and of the host's reads alone empty both channels.
use icmsg_rs.Prelude.{
  ℕ, ◌≤◌, ◌<◌, ◌≡◌, ◌∙◌, refl, sym, false, List, [], ◌∷◌, ◌++◌, arith, length, replicate,
  length-replicate, drop, take-append, le→not-ltb,
}
use mathlib.Core.Path.{subst}
use icmsg_rs.Machine.{Exec, done, panicked, undefined, ◌>>=◌, Result, Target}
use icmsg_rs.Transport.Region.{Notifier}
use icmsg_rs.Transport.Queue
use icmsg_rs.Transport.Queue.{Queue, packet_size, footprint}
use icmsg_rs.Example.MyTransport.{TransportError, parsed, read_answer}
use icmsg_rs.Example.Hci.Receive.{AllFit}
use icmsg_rs.Example.Hci.Replies.{packet_reply, packet_executed}
use icmsg_rs.Example.Hci.Task.{listed, queue_after-room, all_executed, replies}
use icmsg_rs.Example.Hci.Short.{IsSized}
use icmsg_rs.Example.Cores.{
  Parts, Turn, net_recv, host_read, Cores, take_turns, Queues, execute, hear, turn_queues,
  run_queues,
}
use icmsg_rs.Example.Cores.Simulates.{AllGoodTurns, Simulates, Matches}
use icmsg_rs.Example.Cores.Refine.{take_turns_refine}

bind-eq {ℓ} :
    {A B D : Type ℓ} {f : A → Exec D} (g : A → Exec B) (h : B → Exec D) (x : Exec A)
    → ((a : A) → f a ≡ (g a >>= h))
    → (x >>= f) ≡ ((x >>= g) >>= h)
bind-eq g h (done a) e = e a
bind-eq g h panicked e = refl
bind-eq g h undefined e = refl

-- A read for each message, with a buffer of its length.
abbrev pub reads : Queue → List Turn
reads [] = []
reads (m ∷ q) = host_read (replicate (length m) 0) ∷ reads q

module _ {C E P : Type 0} (parts : Parts C E P) where
  -- What the host has heard behind these messages.
  abbrev pub hear_all : Queue → List (Result P TransportError) → List (Result P TransportError)
  hear_all [] heard = heard
  hear_all (m ∷ q) heard = hear_all q (parsed (parts.parse m) ∷ heard)

  hear_all-append :
      (q q' : Queue) (heard : List (Result P TransportError))
      → hear_all (q ++ q') heard ≡ hear_all q' (hear_all q heard)
  hear_all-append [] q' heard = refl
  hear_all-append (m ∷ q) q' heard = hear_all-append q q' (parsed (parts.parse m) ∷ heard)

  -- For each packet on the way a turn of `receive_task`, and a read if it has an answer.
  unfoldable answers : C → Queue → List Turn
  unfolding packet_reply packet_executed
  answers controller [] = []
  answers controller (m ∷ q) =
      net_recv
      ∷ (reads (listed (packet_reply parts.set parts.path controller m))
          ++ answers (packet_executed parts.set parts.path controller m) q)

  -- The answers on the way to the host are read first.
  unfoldable pub drain : Queues C P → List Turn
  unfolding answers
  drain qs = reads qs.to_host ++ answers qs.controller qs.to_net

  -- The ring has room for each answer by itself.
  abbrev pub AllRoom : ℕ → C → Queue → Type 0
  AllRoom back controller [] = Unit
  AllRoom back controller (m ∷ q) =
      (footprint (listed (packet_reply parts.set parts.path controller m)) < back)
      × AllRoom back (packet_executed parts.set parts.path controller m) q

  -- The queues at rest.
  abbrev pub drained : Queues C P → Queues C P
  drained qs = record qs {
    to_net = [];
    to_host = [];
    controller = all_executed parts.set parts.path qs.controller qs.to_net;
    heard =
        hear_all (replies parts.set parts.path qs.controller qs.to_net)
          (hear_all qs.to_host qs.heard);
  }

  module _ (size back buf_len : ℕ) where
    run_queues-append :
        (turns turns' : List Turn) (qs : Queues C P)
        → run_queues parts size back buf_len qs (turns ++ turns') ≡ (do
          qs' ← run_queues parts size back buf_len qs turns
          run_queues parts size back buf_len qs' turns')
    unfolding run_queues
    run_queues-append [] turns' qs = refl
    run_queues-append (turn ∷ turns) turns' qs =
        bind-eq (λ qs'. run_queues parts size back buf_len qs' turns)
          (λ qs'. run_queues parts size back buf_len qs' turns')
          (turn_queues parts size back buf_len qs turn) (run_queues-append turns turns')

    hear-first :
        (m : List ℕ) (q : Queue) (qs : Queues C P)
        → hear parts size back buf_len qs (replicate (length m) 0) (m ∷ q)
          ≡ record qs { to_host = q; heard = parsed (parts.parse m) ∷ qs.heard }
    unfolding hear Queue.try_recv read_answer
    hear-first m q qs = rw (
      le→not-ltb (length {A = ℕ} (replicate (length m) 0)) (length m)
          (omega (arith, length-replicate {A = ℕ} (length m) 0)),
      take-append m (drop (length m) (replicate (length m) 0)),
    )

    run_queues-reads :
        (q : Queue) (qs : Queues C P)
        → run_queues parts size back buf_len (record qs { to_host = q }) (reads q)
          ≡ done (record qs { to_host = []; heard = hear_all q qs.heard })
    unfolding run_queues turn_queues
    run_queues-reads [] qs = refl
    run_queues-reads (m ∷ q) qs =
        rw (hear-first m q (record qs { to_host = m ∷ q }))
          (run_queues-reads q (record qs { heard = parsed (parts.parse m) ∷ qs.heard }))

    -- `receive_task` executes the first packet, and the host reads its answer.
    run_queues-net_recv :
        (m : List ℕ) (q : Queue) (turns : List Turn) (qs : Queues C P)
        → length m ≤ buf_len
        → footprint (listed (packet_reply parts.set parts.path qs.controller m)) < back
        → run_queues parts size back buf_len
            (record qs { to_net = m ∷ q; to_host = []; returned = false })
            (net_recv ∷ turns)
          ≡ run_queues parts size back buf_len
              (record qs {
                to_net = q;
                to_host = listed (packet_reply parts.set parts.path qs.controller m);
                controller = packet_executed parts.set parts.path qs.controller m;
                returned = false;
              })
              turns
    unfolding run_queues turn_queues execute
    run_queues-net_recv m q turns qs fits room = rw (
      le→not-ltb buf_len (length m) fits,
      queue_after-room back [] (packet_reply parts.set parts.path qs.controller m)
          (omega (arith, room)),
    )

    run_queues-answers :
        (q : Queue) (qs : Queues C P)
        → AllFit buf_len q
        → AllRoom back qs.controller q
        → run_queues parts size back buf_len
            (record qs { to_net = q; to_host = []; returned = false })
            (answers qs.controller q)
          ≡ done (record qs {
            to_net = [];
            to_host = [];
            controller = all_executed parts.set parts.path qs.controller q;
            returned = false;
            heard = hear_all (replies parts.set parts.path qs.controller q) qs.heard;
          })
    unfolding run_queues answers all_executed replies
    run_queues-answers [] qs fits room = refl
    run_queues-answers (m ∷ q) qs (fits, later) (room, rest) =
        let reply = listed (packet_reply parts.set parts.path qs.controller m) in
        let controller = packet_executed parts.set parts.path qs.controller m in
        let executed = record qs { to_net = q; controller = controller; returned = false } in
        run_queues-net_recv m q (reads reply ++ answers controller q) qs fits room
        ∙ run_queues-append (reads reply) (answers controller q)
            (record executed { to_host = reply })
        ∙ rw
            (
              run_queues-reads reply executed,
              hear_all-append reply (replies parts.set parts.path controller q) qs.heard,
            )
            (run_queues-answers q (record executed { heard = hear_all reply qs.heard }) later rest)

    run_queues-drain :
        (qs : Queues C P)
        → qs.returned ≡ false
        → AllFit buf_len qs.to_net
        → AllRoom back qs.controller qs.to_net
        → run_queues parts size back buf_len qs (drain qs) ≡ done (drained qs)
    unfolding drain
    run_queues-drain qs running fits room =
        run_queues-append (reads qs.to_host) (answers qs.controller qs.to_net) qs
        ∙ rw (run_queues-reads qs.to_host qs) (
            rw running (
              run_queues-answers qs.to_net (record qs { heard = hear_all qs.to_host qs.heard }) fits
                room))

module _ {M W C P : Type 0} (t : Target) (size back buf_len : ℕ) where
  Matches-done :
      (cores : Exec (Cores M W C P)) (qs : Queues C P)
      → Matches t size back buf_len cores (done qs)
      → (cores' : Cores M W C P) × (cores ≡ done cores') × Simulates t size back buf_len cores' qs
  Matches-done (done cores) qs sim = (cores, refl, sim)
  Matches-done panicked qs sim = absurd sim
  Matches-done undefined qs sim = absurd sim

module _ {C E P : Type 0} (parts : Parts C E P) where
  AllGoodTurns-reads :
      (q : Queue) (turns : List Turn)
      → AllGoodTurns parts turns
      → AllGoodTurns parts (reads q ++ turns)
  AllGoodTurns-reads [] turns good = good
  AllGoodTurns-reads (m ∷ q) turns good = (tt, AllGoodTurns-reads q turns good)

  AllGoodTurns-answers :
      (controller : C) (q : Queue) → AllGoodTurns parts (answers parts controller q)
  unfolding answers
  AllGoodTurns-answers controller [] = tt
  AllGoodTurns-answers controller (m ∷ q) = (
    tt,
    AllGoodTurns-reads (listed (packet_reply parts.set parts.path controller m)) _
        (AllGoodTurns-answers (packet_executed parts.set parts.path controller m) q),
  )

module _ {M W C E P : Type 0} ⦃notifier : Notifier M⦄ (t : Target) (parts : Parts C E P)
    (size back buf_len : ℕ) (sized : IsSized parts.set) where
  -- Wherever the cores stand, as long as `receive_task` has not returned, turns of `receive_task` and of the
  -- host's reads alone empty both channels, without a panic: `receive_task` executes every packet on its way,
  -- each once and in order, and the host hears every message on its way and then the answers to the packets,
  -- each once and in order. The packets on the way fit into the buffer of `receive_task`, the ring has room
  -- for each of their answers, and the return values have their commands' lengths, at most 251 bytes.
  pub take_turns-drain :
      (cores : Cores M W C P) (qs : Queues C P)
      → Simulates t size back buf_len cores qs
      → cores.returned ≡ false
      → AllFit buf_len qs.to_net
      → AllRoom parts back qs.controller qs.to_net
      → (cores' : Cores M W C P) × (take_turns t parts cores (drain parts qs) ≡ done cores')
        × Simulates t size back buf_len cores' (drained parts qs)
  unfolding drain
  take_turns-drain cores qs sim running fits room =
      Matches-done t size back buf_len (take_turns t parts cores (drain parts qs))
        (drained parts qs)
        (subst (Matches t size back buf_len (take_turns t parts cores (drain parts qs)))
          (run_queues-drain parts size back buf_len qs (sym sim.returned ∙ running) fits room)
          (take_turns_refine t parts size back buf_len sized (drain parts qs) cores qs
            (AllGoodTurns-reads parts qs.to_host (answers parts qs.controller qs.to_net)
              (AllGoodTurns-answers parts qs.controller qs.to_net))
            sim))
