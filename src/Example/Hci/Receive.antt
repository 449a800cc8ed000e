-- ===== src/Example/Hci/Receive.antt =====
-- `receive_task` of net-core/src/main.rs over the channel: what the host sends reaches the controller.
use icmsg_rs.Prelude.{
  ℕ, ◌≤◌, ◌<◌, ◌≡◌, refl, sym, Bool, true, false, Option, none, some, List, [], ◌∷◌, ◌++◌, arith,
  length, take, drop, length-append, length-drop, take-append, map,
}
use mathlib.Core.Path.{subst}
use icmsg_rs.Machine.{Exec, done, ◌>>=◌, Result, ok, err, Target}
use icmsg_rs.Transport.Region.{SharedMemoryRegion, RecvError}
use icmsg_rs.Transport.Queue.{Queue}
use icmsg_rs.Transport.Sender.{Sender as TransportSender}
use icmsg_rs.Transport.Refine.{Represents}
use icmsg_rs.IcMsg.Defs.{Receiver}
use icmsg_rs.IcMsg.Recv.{Round, recv, recv-found, recv-long}
use icmsg_rs.Example.Hci.{Controller, exec_h4_to_sdc, receive_task}

-- Where the task stands: the controller, whether the task has returned, and its end of the channel.
pub record TaskState {ℓ} (C : Type 0) (W : Type ℓ) : Type ℓ where
  pub controller : C
  pub returned : Bool
  pub receiver : Receiver W
  pub region : SharedMemoryRegion

module _ {ℓ} {C E : Type 0} {W : Type ℓ} (ctl : Controller C E) (t : Target) where
  -- The match on what `recv` answers; `again` is the next turn of the loop.
  unfoldable after_recv :
      (Receiver W → SharedMemoryRegion → List ℕ → C → Exec (TaskState C W))
      → TaskState C W
      → Option (Receiver W × SharedMemoryRegion × List ℕ × Result ℕ RecvError)
      → Exec (TaskState C W)
  unfolding exec_h4_to_sdc
  after_recv again st none = done st
  after_recv again st (some (r, region, buf, ok n)) =
      again r region buf (exec_h4_to_sdc ctl st.controller (take n buf)).0
  after_recv again st (some (r, region, buf, err e)) =
      done (record st { returned = true; receiver = r; region = region })

  -- `receive_task`, with the rounds that each call of `recv` goes through; it waits for ever behind the
  -- last call.
  unfoldable pub receive_loop :
      List (List Round) → Receiver W → SharedMemoryRegion → List ℕ → C → Exec (TaskState C W)
  unfolding after_recv
  receive_loop [] r region buf c =
      done (record { controller = c; returned = false; receiver = r; region = region })
  receive_loop (rounds ∷ calls) r region buf c = do
    out ← recv t r rounds region buf
    after_recv (receive_loop calls)
        (record { controller = c; returned = false; receiver = r; region = region }) out

-- Each call finds its message in its first round.
abbrev pub IsPrompt : Queue → List (List Round) → Type 0
IsPrompt [] [] = Unit
IsPrompt (m ∷ q) ((round ∷ later) ∷ calls) =
    ((region : SharedMemoryRegion) → round.peer region ≡ region) × IsPrompt q calls
IsPrompt _ _ = ⊥

abbrev pub AllFit : ℕ → Queue → Type 0
AllFit n [] = Unit
AllFit n (m ∷ q) = (length m ≤ n) × AllFit n q

pub AllFit-eq : (n k : ℕ) (q : Queue) → n ≡ k → AllFit n q → AllFit k q
AllFit-eq n k [] e h = tt
AllFit-eq n k (m ∷ q) e (fits, rest) = (omega arith, AllFit-eq n k q e rest)

module _ {ℓ κ} {C E : Type 0} {M : Type ℓ} {W : Type κ} (ctl : Controller C E) (t : Target)
    {size : ℕ} {s : TransportSender M} where
  -- The messages that the channel holds are executed in order, each once, and the channel is then empty,
  -- if none of them is longer than the buffer.
  pub receive_loop_refines :
      (q : Queue) (calls : List (List Round)) (r : Receiver W) (region : SharedMemoryRegion)
      (buf : List ℕ) (c : C)
      → IsPrompt q calls
      → AllFit (length buf) q
      → Represents t size s region r.transport q
      → (r' : Receiver W) × (region' : SharedMemoryRegion) × (receive_loop ctl t calls r region buf
            c
          ≡ done (record {
            controller = (receive_task ctl c (map ok q)).0;
            returned = false;
            receiver = r';
            region = region';
          }))
        × Represents t size s region' r'.transport []
  unfolding receive_loop receive_task after_recv
  receive_loop_refines [] [] r region buf c prompt fits rep = (r, region, refl, rep)
  receive_loop_refines [] (call ∷ calls) r region buf c prompt fits rep = absurd prompt
  receive_loop_refines (m ∷ q) [] r region buf c prompt fits rep = absurd prompt
  receive_loop_refines (m ∷ q) ([] ∷ calls) r region buf c prompt fits rep = absurd prompt
  receive_loop_refines (m ∷ q) ((round ∷ later) ∷ calls) r region buf c (still, prompt) (fits, rest)
        rep =
      let now = subst (λ x. Represents t size s x r.transport (m ∷ q)) (sym (still region)) rep in
      let (half, region1, e, rep1) = recv-found t r round later buf now fits in
      let (r', region', es, rep') =
        receive_loop_refines q calls (record r { transport = half }) region1
          (m ++ drop (length m) buf) (exec_h4_to_sdc ctl c m).0 prompt
          (AllFit-eq (length buf) (length (m ++ drop (length m) buf)) q
            (omega (arith, length-append m (drop (length m) buf), length-drop (length m) buf)) rest)
          rep1 in
      (r', region', rw (e, take-append m (drop (length m) buf)) es, rep')

  -- A message that is longer than the buffer, and that the first round of a call of `recv` finds, ends
  -- the task for good, with no byte executed.
  pub receive_loop_long :
      (m : List ℕ) (q : Queue) (round : Round) (later : List Round) (calls : List (List Round))
      (r : Receiver W) (region : SharedMemoryRegion) (buf : List ℕ) (c : C)
      → length buf < length m
      → Represents t size s (round.peer region) r.transport (m ∷ q)
      → receive_loop ctl t ((round ∷ later) ∷ calls) r region buf c
        ≡ done
            (record { controller = c; returned = true; receiver = r; region = round.peer region })
  unfolding receive_loop after_recv
  receive_loop_long m q round later calls r region buf c long rep =
      rw (recv-long t r round later buf rep long)
