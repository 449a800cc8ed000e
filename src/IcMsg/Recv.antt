-- ===== src/IcMsg/Recv.antt =====
-- `Receiver::recv` of src/lib.rs. Each turn of its loop is a round: what the peer does to the shared
-- region before `try_recv`, whether the poll of the waiter was pending, and whether the `await` behind
-- it comes to an end.
use icmsg_rs.Prelude.{
  ◌≤◌, ◌<◌, drop, ℕ, ◌≡◌, ◌≢◌, refl, Bool, true, false, not, ◌&&◌, Option, none, some, List, [],
  ◌∷◌, ◌++◌, arith, dec_lt, lt→ltb, le→not-ltb, if◌then◌else◌, length,
}
use icmsg_rs.Machine.{Exec, done, panicked, undefined, ◌>>=◌, Result, ok, err, Target}
use icmsg_rs.Transport.Region.{
  SharedMemoryRegion, RecvError, message_too_big, empty, invalid_message,
}
use icmsg_rs.Transport.Queue
use icmsg_rs.Transport.Queue.{Queue}
use icmsg_rs.Transport.Sender.{Sender as TransportSender}
use icmsg_rs.Transport.Receiver as TransportHalf
use icmsg_rs.Transport.Refine.{Represents, try_recv-none, try_recv-long, try_recv-first}
use icmsg_rs.IcMsg.Defs.{Receiver}

pub record Round : Type 0 where
  pub peer : SharedMemoryRegion → SharedMemoryRegion
  pub pending : Bool
  pub woken : Bool

if-avoids {ℓ} : {A : Type ℓ} (b : Bool) {x y z : A} → x ≢ z → y ≢ z → (if b then x else y) ≢ z
if-avoids true hx hy = hx
if-avoids false hx hy = hy

if-never {ℓ} : {A : Type ℓ} (b : Bool) (x y : A) → (if b && false then x else y) ≡ y
if-never true x y = refl
if-never false x y = refl

module _ {ℓ} {W : Type ℓ} where
  -- `Receiver::try_recv`
  unfoldable pub try_recv :
      Target
      → Receiver W
      → SharedMemoryRegion
      → List ℕ
      → Exec (Receiver W × SharedMemoryRegion × List ℕ × Result ℕ RecvError)
  try_recv t r region msg = do
    out ← TransportHalf.try_recv t r.transport region msg
    done (record r { transport = out.0 }, out.1, out.2, out.3)

  -- What follows the call of `try_recv` in a round; `rest` is the rest of the loop.
  unfoldable settle :
      Round
      → Exec (Option (Receiver W × SharedMemoryRegion × List ℕ × Result ℕ RecvError))
      → Receiver W × SharedMemoryRegion × List ℕ × Result ℕ RecvError
      → Exec (Option (Receiver W × SharedMemoryRegion × List ℕ × Result ℕ RecvError))
  settle round rest (r, region, msg, ok n) = done (some (r, region, msg, ok n))
  settle round rest (r, region, msg, err empty) =
      if round.pending && not round.woken then done none else rest
  settle round rest (r, region, msg, err message_too_big) =
      done (some (r, region, msg, err message_too_big))
  settle round rest (r, region, msg, err invalid_message) =
      done (some (r, region, msg, err invalid_message))

  -- `Receiver::recv`, with what it leaves; `none` while it waits.
  unfoldable pub recv :
      Target
      → Receiver W
      → List Round
      → SharedMemoryRegion
      → List ℕ
      → Exec (Option (Receiver W × SharedMemoryRegion × List ℕ × Result ℕ RecvError))
  unfolding try_recv settle
  recv t r [] region msg = done none
  recv t r (round ∷ rounds) region msg = do
    out ← try_recv t r (round.peer region) msg
    settle round (recv t out.0 rounds out.1 out.2) out

  settle-answer :
      (round : Round)
      (rest : Exec (Option (Receiver W × SharedMemoryRegion × List ℕ × Result ℕ RecvError)))
      (out : Receiver W × SharedMemoryRegion × List ℕ × Result ℕ RecvError) {r' : Receiver W}
      {region' : SharedMemoryRegion} {msg' : List ℕ}
      → rest ≢ done (some (r', region', msg', err empty))
      → settle round rest out ≢ done (some (r', region', msg', err empty))
  unfolding settle
  settle-answer round rest (r, region, msg, ok n) h e = cc
  settle-answer round rest (r, region, msg, err empty) h e =
      if-avoids (round.pending && not round.woken) (λ h'. cc) h e
  settle-answer round rest (r, region, msg, err message_too_big) h e = cc
  settle-answer round rest (r, region, msg, err invalid_message) h e = cc

  settled-answer :
      (round : Round)
      (rest : Receiver W × SharedMemoryRegion × List ℕ × Result ℕ RecvError
        → Exec (Option (Receiver W × SharedMemoryRegion × List ℕ × Result ℕ RecvError)))
      (out : Exec (Receiver W × SharedMemoryRegion × List ℕ × Result ℕ RecvError)) {r' : Receiver W}
      {region' : SharedMemoryRegion} {msg' : List ℕ}
      → ((out : Receiver W × SharedMemoryRegion × List ℕ × Result ℕ RecvError)
          → rest out ≢ done (some (r', region', msg', err empty)))
      → (out >>= λ out. settle round (rest out) out) ≢ done (some (r', region', msg', err empty))
  settled-answer round rest (done out) h = settle-answer round (rest out) out (h out)
  settled-answer round rest panicked h = λ e. cc
  settled-answer round rest undefined h = λ e. cc

  -- `recv` never answers that the channel is empty, whatever the peer writes, the polls answer and the
  -- buffer holds: it goes round its loop instead.
  pub recv-answers :
      (t : Target) (r : Receiver W) (rounds : List Round) (region : SharedMemoryRegion)
      (msg : List ℕ) {r' : Receiver W} {region' : SharedMemoryRegion} {msg' : List ℕ}
      → recv t r rounds region msg ≢ done (some (r', region', msg', err empty))
  unfolding recv
  recv-answers t r [] region msg = λ e. cc
  recv-answers t r (round ∷ rounds) region msg =
      settled-answer round (λ out. recv t out.0 rounds out.1 out.2)
        (try_recv t r (round.peer region) msg) (λ out. recv-answers t out.0 rounds out.1 out.2)

-- Rounds in which the peer leaves the region alone and each await ends.
abbrev pub IsQuiet : SharedMemoryRegion → List Round → Type 0
IsQuiet region [] = Unit
IsQuiet region (round ∷ rounds) =
    (round.peer region ≡ region) × (round.woken ≡ true) × IsQuiet region rounds

module _ {ℓ κ} {M : Type ℓ} {W : Type κ} (t : Target) {size : ℕ} (r : Receiver W)
    {region : SharedMemoryRegion} where
  -- A round that finds nothing leaves everything as it was.
  recv-quiet :
      {s : TransportSender M} (quiet rounds : List Round) (msg : List ℕ)
      → Represents t size s region r.transport []
      → IsQuiet region quiet
      → recv t r (quiet ++ rounds) region msg ≡ recv t r rounds region msg
  unfolding recv settle try_recv
  recv-quiet [] rounds msg rep q = refl
  recv-quiet (round ∷ quiet) rounds msg rep (still, woken, q) =
      rw (still, try_recv-none t msg rep, woken, recv-quiet quiet rounds msg rep q)
        (if-never round.pending _ _)

  -- A call waits if its only round finds nothing and its poll is pending.
  pub recv-waits :
      {s : TransportSender M} (round : Round) (msg : List ℕ)
      → Represents t size s (round.peer region) r.transport []
      → round.pending ≡ true
      → round.woken ≡ false
      → recv t r (round ∷ []) region msg ≡ done none
  unfolding recv settle try_recv
  recv-waits round msg rep pending asleep = rw (try_recv-none t msg rep, pending, asleep)

  -- A round that finds a message ends the call.
  module _ {s : TransportSender M} {m : List ℕ} {q : Queue} (round : Round) (later : List Round)
      (msg : List ℕ) (rep : Represents t size s (round.peer region) r.transport (m ∷ q)) where
    pub recv-found :
        length m ≤ length msg
        → (r' : TransportHalf.Receiver) × (region' : SharedMemoryRegion) × (recv t r
              (round ∷ later)
              region
              msg
            ≡ done (
                some
                  (record r { transport = r' }, region', m ++ drop (length m) msg, ok (length m))))
          × Represents t size s region' r' q
    unfolding recv settle try_recv
    recv-found h =
        let (r', region', e, rep') = try_recv-first t msg rep h in (r', region', rw e, rep')

    pub recv-long :
        length msg < length m
        → recv t r (round ∷ later) region msg
          ≡ done (some (r, round.peer region, msg, err message_too_big))
    unfolding recv settle try_recv
    recv-long h = rw (try_recv-long t msg rep h)

  pub recv-ready :
      {s' : TransportSender M} (m : List ℕ) (q : Queue) (round : Round) (later : List Round)
      (msg : List ℕ)
      → Represents t size s' (round.peer region) r.transport (m ∷ q)
      → (r' : TransportHalf.Receiver) × (region' : SharedMemoryRegion) × (recv t r
            (round ∷ later)
            region
            msg
          ≡ done (
              some (
                record r { transport = r' },
                region',
                (Queue.try_recv (m ∷ q) msg).1,
                (Queue.try_recv (m ∷ q) msg).2,
              )))
        × Represents t size s' region' r' (Queue.try_recv (m ∷ q) msg).0
  unfolding Queue.try_recv
  recv-ready m q round later msg rep = elim (dec_lt (length msg) (length m)) [
    | yes long ↦
        rw (lt→ltb _ _ long)
          (r.transport, round.peer region, recv-long round later msg rep long, rep)
    | no short ↦
        rw (le→not-ltb (length msg) (length m) (omega arith))
          (recv-found round later msg rep (omega arith))
  ]

  -- On an empty channel `recv` goes on through rounds in which nothing comes; in the first round whose
  -- `try_recv` finds messages, the ones that the peer has sent by then, it answers what the queue of
  -- these answers, and the channel represents what is left of them.
  pub recv_refines :
      {s s' : TransportSender M} (m : List ℕ) (q : Queue) (quiet : List Round) (round : Round)
      (later : List Round) (msg : List ℕ)
      → Represents t size s region r.transport []
      → IsQuiet region quiet
      → Represents t size s' (round.peer region) r.transport (m ∷ q)
      → (r' : TransportHalf.Receiver) × (region' : SharedMemoryRegion) × (recv t r
            (quiet ++ (round ∷ later))
            region
            msg
          ≡ done (
              some (
                record r { transport = r' },
                region',
                (Queue.try_recv (m ∷ q) msg).1,
                (Queue.try_recv (m ∷ q) msg).2,
              )))
        × Represents t size s' region' r' (Queue.try_recv (m ∷ q) msg).0
  recv_refines m q quiet round later msg none_yet still some_now =
      rw (recv-quiet quiet (round ∷ later) msg none_yet still)
        (recv-ready m q round later msg some_now)
