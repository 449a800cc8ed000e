-- ===== src/Example/Zephyr/Tasks.antt =====
-- The two loops of embassy-zephyr-nrf5340/app-core/src/main.rs: the messages that `main` sends, and the
-- task `receive`, which logs what comes.
use icmsg_rs.Prelude.{
  ℕ, ◌+◌, ◌<◌, ◌^◌, ◌≡◌, refl, sym, Bool, true, false, Option, none, some, List, [], ◌∷◌, ◌++◌,
  arith, length, take, drop, replicate, append_assoc, append-nil, take-append, length-append,
  length-drop,
}
use mathlib.Core.Path.{subst}
use icmsg_rs.Machine.{Exec, done, ◌>>=◌, Result, ok, err, Target}
use icmsg_rs.Transport.Region.{SharedMemoryRegion, Notifier, RecvError}
use icmsg_rs.Transport.Queue.{Queue, footprint, footprint-append}
use icmsg_rs.Transport.Receiver as TransportHalf
use icmsg_rs.Transport.Sender.{Sender as TransportSender}
use icmsg_rs.Transport.Refine.{Represents, send-ok}
use icmsg_rs.IcMsg.Defs.{Sender, Receiver}
use icmsg_rs.IcMsg.Recv.{Round, recv, recv-found}
use icmsg_rs.IcMsg.Methods.{send_half}
use icmsg_rs.Example.Hci.Receive.{IsPrompt, AllFit, AllFit-eq}

-- `msgs`, in ASCII.
abbrev pub msgs : List (List ℕ)
msgs =
    (48 ∷ [])
    ∷ (48 ∷ 49 ∷ [])
    ∷ (48 ∷ 49 ∷ 50 ∷ [])
    ∷ (48 ∷ 49 ∷ 50 ∷ 51 ∷ [])
    ∷ (48 ∷ 49 ∷ 50 ∷ 51 ∷ 52 ∷ [])
    ∷ (48 ∷ 49 ∷ 50 ∷ 51 ∷ 52 ∷ 53 ∷ [])
    ∷ (48 ∷ 49 ∷ 50 ∷ 51 ∷ 52 ∷ 53 ∷ 54 ∷ [])
    ∷ []

abbrev pub AllShort : Queue → Type 0
AllShort [] = Unit
AllShort (m ∷ q) = (length m < 2 ^ 16) × AllShort q

pub AllFit-AllShort : (q : Queue) → AllFit 128 q → AllShort q
AllFit-AllShort [] h = tt
AllFit-AllShort (m ∷ q) (fits, rest) = (omega (arith, fits), AllFit-AllShort q rest)

pub msgs-AllFit : AllFit 128 msgs
msgs-AllFit = (
  omega arith,
  (omega arith, (omega arith, (omega arith, (omega arith, (omega arith, (omega arith, tt)))))),
)

module _ {ℓ} {M : Type ℓ} ⦃notifier : Notifier M⦄ (t : Target) where
  -- `for msg in msgs { let _ = send.send(msg); .. }`
  unfoldable pub send_each :
      List (List ℕ) → Sender M → SharedMemoryRegion → Exec (Sender M × SharedMemoryRegion)
  unfolding send_half
  send_each [] s region = done (s, region)
  send_each (msg ∷ later) s region = do out ← send_half t s region msg; send_each later out.0 out.1

  pub send_each_refines :
      {size : ℕ} {r : TransportHalf.Receiver} (ms : List (List ℕ)) {s : Sender M}
      {region : SharedMemoryRegion} {q : Queue}
      → AllShort ms
      → footprint q + footprint ms < size
      → Represents t size s.transport region r q
      → (s' : Sender M) × (region' : SharedMemoryRegion) × (send_each ms s region
          ≡ done (s', region'))
        × Represents t size s'.transport region' r (q ++ ms)
  unfolding send_each send_half
  send_each_refines {size} {r} [] {s} {region} {q} short room rep =
      (s, region, refl, subst (Represents t size s.transport region r) (sym (append-nil q)) rep)
  send_each_refines {size} {r} (m ∷ ms) {s} {region} {q} (short, rest) room rep =
      let (s1, region1, sent, rep1) = send-ok t m rep (omega (arith, short)) (omega arith) in
      let (s', region', sends, rep') =
        send_each_refines ms {s = record { transport = s1 }} rest
          (omega (arith, footprint-append q m)) rep1 in
      (
        s',
        region',
        rw sent sends,
        subst (Represents t size s'.transport region' r) (append_assoc q (m ∷ []) ms) rep',
      )

-- What `receive` has logged, and whether it has returned.
pub record ReceiveState {ℓ} (W : Type ℓ) : Type ℓ where
  pub log : List (List ℕ)
  pub returned : Bool
  pub receiver : Receiver W
  pub region : SharedMemoryRegion

module _ {ℓ} {W : Type ℓ} (t : Target) where
  -- The match on what `recv` answers, and the next turn.
  unfoldable received :
      (Receiver W → SharedMemoryRegion → List ℕ → Exec (ReceiveState W))
      → ReceiveState W
      → Option (Receiver W × SharedMemoryRegion × List ℕ × Result ℕ RecvError)
      → Exec (ReceiveState W)
  received again st none = done st
  received again st (some (r, region, buf, err e)) =
      done (record st { returned = true; receiver = r; region = region })
  received again st (some (r, region, buf, ok n)) = do
    rest ← again r region buf
    done (record rest { log = take n buf ∷ rest.log })

  -- The loop of `receive`, with the rounds that each call of `recv` goes through; it waits for ever behind
  -- the last call.
  unfoldable pub receive_from :
      List (List Round) → Receiver W → SharedMemoryRegion → List ℕ → Exec (ReceiveState W)
  unfolding received
  receive_from [] r region buf =
      done (record { log = []; returned = false; receiver = r; region = region })
  receive_from (rounds ∷ calls) r region buf = do
    out ← recv t r rounds region buf
    received (receive_from calls)
        (record { log = []; returned = false; receiver = r; region = region }) out

  -- `receive`
  unfoldable pub receive :
      List (List Round) → Receiver W → SharedMemoryRegion → Exec (ReceiveState W)
  unfolding receive_from
  receive calls r region = receive_from calls r region (replicate 128 0)

  module _ {κ} {M : Type κ} {size : ℕ} {s : TransportSender M} where
    pub receive_from_refines :
        (q : Queue) (calls : List (List Round)) (r : Receiver W) (region : SharedMemoryRegion)
        (buf : List ℕ)
        → IsPrompt q calls
        → AllFit (length buf) q
        → Represents t size s region r.transport q
        → (r' : Receiver W) × (region' : SharedMemoryRegion) × (receive_from calls r region buf
            ≡ done (record { log = q; returned = false; receiver = r'; region = region' }))
          × Represents t size s region' r'.transport []
    unfolding receive_from received
    receive_from_refines [] [] r region buf prompt fits rep = (r, region, refl, rep)
    receive_from_refines [] (call ∷ calls) r region buf prompt fits rep = absurd prompt
    receive_from_refines (m ∷ q) [] r region buf prompt fits rep = absurd prompt
    receive_from_refines (m ∷ q) ([] ∷ calls) r region buf prompt fits rep = absurd prompt
    receive_from_refines (m ∷ q) ((round ∷ later) ∷ calls) r region buf (still, prompt) (fits, rest)
          rep =
        let now = subst (λ x. Represents t size s x r.transport (m ∷ q)) (sym (still region)) rep in
        let (half, region1, e, rep1) = recv-found t r round later buf now fits in
        let (r', region', es, rep') =
          receive_from_refines q calls (record r { transport = half }) region1
            (m ++ drop (length m) buf) prompt
            (AllFit-eq (length buf) (length (m ++ drop (length m) buf)) q
              (omega (arith, length-append m (drop (length m) buf), length-drop (length m) buf))
              rest)
            rep1 in
        (r', region', rw (e, take-append m (drop (length m) buf), es), rep')
