-- ===== src/Example/Cores/Settle.antt =====
-- The two cores of Cores never get stuck: `receive_task` goes on as long as the host's packets fit into its buffer.
use icmsg_rs.Prelude.{
  ℕ, ◌≤◌, ◌<◌, ◌≡◌, ◌∙◌, Bool, true, false, List, [], ◌∷◌, ◌++◌, arith, ◌+◌, dec_lt, lt→ltb,
  le→not-ltb, if◌then◌else◌, length,
}
use mathlib.Core.Path.{subst}
use icmsg_rs.Machine.{Exec, done, panicked, undefined, ◌>>=◌, Result, ok, err, Target}
use icmsg_rs.Transport.Region.{SendError, Notifier}
use icmsg_rs.Transport.Queue
use icmsg_rs.Transport.Queue.{Queue, packet_size, footprint}
use icmsg_rs.Example.Hci.Forward.{frame}
use icmsg_rs.Example.Hci.Receive.{AllFit}
use icmsg_rs.Example.Hci.Replies.{packet_executed}
use icmsg_rs.Example.Hci.Short.{IsSized, packet_reply-room}
use icmsg_rs.Example.EndToEnd.{bytes_of}
use icmsg_rs.Example.Cores.{
  Parts, Turn, host_write, net_recv, net_send, host_read, Cores, take_turns, Queues, framed,
  execute, hear, turn_queues, run_queues,
}
use icmsg_rs.Example.Cores.Simulates.{AllGoodTurns, Simulates, Matches}
use icmsg_rs.Example.Cores.Refine.{take_turns_refine}
use icmsg_rs.Example.Cores.Drain.{AllRoom, drain, drained, take_turns-drain}

-- The packets that the host writes fit into a buffer of this length.
abbrev pub AllFitting : ℕ → List Turn → Type 0
AllFitting buf_len [] = Unit
AllFitting buf_len (host_write p ∷ turns) =
    (length (bytes_of p) ≤ buf_len) × AllFitting buf_len turns
AllFitting buf_len (net_recv ∷ turns) = AllFitting buf_len turns
AllFitting buf_len (net_send p ∷ turns) = AllFitting buf_len turns
AllFitting buf_len (host_read rx ∷ turns) = AllFitting buf_len turns

-- `receive_task` goes on, and what is on its way fits.
pub record IsRunning {C P : Type 0} (buf_len : ℕ) (qs : Queues C P) : Type 0 where
  pub running : qs.returned ≡ false
  pub fits : AllFit buf_len qs.to_net

abbrev EndsRunning : {C P : Type 0} → ℕ → Exec (Queues C P) → Type 0
EndsRunning buf_len (done qs) = IsRunning buf_len qs
EndsRunning buf_len _ = Unit

AllFit-append :
    (n : ℕ) (q : Queue) (m : List ℕ) → AllFit n q → length m ≤ n → AllFit n (q ++ (m ∷ []))
AllFit-append n [] m fits small = (small, tt)
AllFit-append n (m' ∷ q) m (first, fits) small = (first, AllFit-append n q m fits small)

AllFit-send :
    (n size : ℕ) (q : Queue) (m : List ℕ)
    → AllFit n q
    → length m ≤ n
    → AllFit n (Queue.send size q m).0
unfolding Queue.send
AllFit-send n size q m fits small = elim (dec_lt (footprint q + packet_size (length m)) size) [
  | yes room ↦
      rw (lt→ltb (footprint q + packet_size (length m)) size room) (AllFit-append n q m fits small)
  | no full ↦ rw (le→not-ltb (footprint q + packet_size (length m)) size (omega arith)) fits
]

EndsRunning-bind :
    {C P : Type 0} (n : ℕ) (next : Queues C P → Exec (Queues C P)) (x : Exec (Queues C P))
    → EndsRunning n x
    → ((qs : Queues C P) → IsRunning n qs → EndsRunning n (next qs))
    → EndsRunning n (x >>= next)
EndsRunning-bind n next (done qs) r follows = follows qs r
EndsRunning-bind n next panicked r follows = tt
EndsRunning-bind n next undefined r follows = tt

IsRunning-if :
    {C P : Type 0} (n : ℕ) (b : Bool) (qs qs' : Queues C P)
    → IsRunning n qs
    → IsRunning n qs'
    → IsRunning n (if b then qs else qs')
IsRunning-if n true qs qs' r r' = r
IsRunning-if n false qs qs' r r' = r'

module _ {C E P : Type 0} (parts : Parts C E P) (size back buf_len : ℕ) where
  execute-IsRunning :
      (q : Queue) (qs : Queues C P)
      → qs.returned ≡ false
      → AllFit buf_len qs.to_net
      → AllFit buf_len q
      → IsRunning buf_len (execute parts size back buf_len qs q)
  unfolding execute
  execute-IsRunning [] qs running fits later = record { running = running; fits = fits }
  execute-IsRunning (m ∷ q) qs running fits (first, later) =
      rw (le→not-ltb buf_len (length m) first) (record { running = running; fits = later })

  framed-EndsRunning :
      (qs : Queues C P) (sent : Queue × Result (Unit {0}) SendError)
      → IsRunning buf_len qs
      → EndsRunning buf_len (framed parts size back buf_len qs sent)
  unfolding framed
  framed-EndsRunning qs (q, ok _) r = record { running = r.running; fits = r.fits }
  framed-EndsRunning qs (q, err e) r = tt

  hear-IsRunning :
      (rx : List ℕ) (q : Queue) (qs : Queues C P)
      → IsRunning buf_len qs
      → IsRunning buf_len (hear parts size back buf_len qs rx q)
  unfolding hear
  hear-IsRunning rx [] qs r = r
  hear-IsRunning rx (m ∷ q) qs r = record { running = r.running; fits = r.fits }

  run_queues-EndsRunning :
      (turns : List Turn) (qs : Queues C P)
      → AllFitting buf_len turns
      → IsRunning buf_len qs
      → EndsRunning buf_len (run_queues parts size back buf_len qs turns)
  unfolding run_queues turn_queues Queue.send
  run_queues-EndsRunning [] qs fitting r = r
  run_queues-EndsRunning (host_write p ∷ turns) qs (small, fitting) r =
      run_queues-EndsRunning turns _ fitting (record {
        running = r.running;
        fits = AllFit-send buf_len size qs.to_net (bytes_of p) r.fits small;
      })
  run_queues-EndsRunning (net_recv ∷ turns) qs fitting r = run_queues-EndsRunning turns _ fitting (
      IsRunning-if buf_len qs.returned qs (execute parts size back buf_len qs qs.to_net) r
        (execute-IsRunning qs.to_net qs r.running r.fits r.fits))
  run_queues-EndsRunning (net_send p ∷ turns) qs fitting r =
      EndsRunning-bind buf_len (λ qs'. run_queues parts size back buf_len qs' turns)
        (framed parts size back buf_len qs (Queue.send back qs.to_host (frame parts.kind_byte p)))
        (framed-EndsRunning qs (Queue.send back qs.to_host (frame parts.kind_byte p)) r)
        (λ qs' r'. run_queues-EndsRunning turns qs' fitting r')
  run_queues-EndsRunning (host_read rx ∷ turns) qs fitting r =
      run_queues-EndsRunning turns _ fitting (hear-IsRunning rx qs.to_host qs r)

  AllRoom-large :
      IsSized parts.set
      → 264 < back
      → (controller : C) (q : Queue) → AllRoom parts back controller q
  AllRoom-large sized large controller [] = tt
  AllRoom-large sized large controller (m ∷ q) = (
    packet_reply-room parts.set sized parts.path controller m large,
    AllRoom-large sized large (packet_executed parts.set parts.path controller m) q,
  )

module _ {M W C E P : Type 0} ⦃notifier : Notifier M⦄ (t : Target) (parts : Parts C E P)
    (size back buf_len : ℕ) (sized : IsSized parts.set) where
  Matches-IsRunning :
      (cores : Cores M W C P) (qs : Exec (Queues C P))
      → Matches t size back buf_len (done cores) qs
      → EndsRunning buf_len qs
      → (qs' : Queues C P) × Simulates t size back buf_len cores qs' × IsRunning buf_len qs'
  Matches-IsRunning cores (done qs) sim r = (qs, sim, r)
  Matches-IsRunning cores panicked sim r = absurd sim
  Matches-IsRunning cores undefined sim r = absurd sim

  -- The cores never get stuck: wherever turns without a panic have led them from two channels whose messages
  -- fit, turns of `receive_task` and of the host's reads alone then empty both channels, without a panic:
  -- every packet on its way is executed and every message on its way, and every answer, is heard, once and in
  -- order. The host's packets have fewer than 1024 bytes and fit, with their indicators, into the buffer of
  -- `receive_task`, their pieces are their bytes and their indicators, the ring on the way back has more than
  -- 264 bytes, the headers of the controller's packets state their lengths, which are below 2 ^ 16 with the
  -- indicator, and its return values have their commands' lengths, at most 251 bytes.
  pub take_turns-settle :
      (turns : List Turn) (cores cores' : Cores M W C P) (qs : Queues C P)
      → 264 < back
      → AllGoodTurns parts turns
      → AllFitting buf_len turns
      → Simulates t size back buf_len cores qs
      → IsRunning buf_len qs
      → take_turns t parts cores turns ≡ done cores'
      → (qs' : Queues C P) × Simulates t size back buf_len cores' qs'
        × (cores'' : Cores M W C P) × (take_turns t parts cores' (drain parts qs') ≡ done cores'')
        × Simulates t size back buf_len cores'' (drained parts qs')
  take_turns-settle turns cores cores' qs large good fitting sim r e =
      let (qs', sim', r') =
        Matches-IsRunning cores' (run_queues parts size back buf_len qs turns)
          (subst (λ x. Matches t size back buf_len x (run_queues parts size back buf_len qs turns))
            e (take_turns_refine t parts size back buf_len sized turns cores qs good sim))
          (run_queues-EndsRunning parts size back buf_len turns qs fitting r) in
      let (cores'', drains, sim'') =
        take_turns-drain t parts size back buf_len sized cores' qs' sim'
          (sim'.returned ∙ r'.running) r'.fits
          (AllRoom-large parts size back buf_len sized large qs'.controller qs'.to_net) in
      (qs', sim', cores'', drains, sim'')
