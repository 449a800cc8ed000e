-- ===== src/IcMsg/Handshake.antt =====
-- Two cores from power-up on, in any order of turns: a turn is one phase of `IcMsg::init` of src/lib.rs, one
-- round of its waiting loop, or one call on the channel behind it. A notification is a flag at the core
-- that it is for, and it may be lost.
pub mod Direction
pub mod Sound
pub mod Turns
pub mod Live
pub mod Safety
pub mod Liveness
use icmsg_rs.Prelude.{ℕ, ◌^◌, ◌<◌, ◌≡◌, Bool, true, false, ◌||◌, List, [], ◌∷◌, ◌++◌, length}
use icmsg_rs.Machine.{Exec, done, ◌>>=◌, Result, ok, err, Target}
use icmsg_rs.Transport.Region.{SharedMemoryRegion, Notifier, SendError, RecvError}
use icmsg_rs.Transport.Queue.{Queue}
use icmsg_rs.Transport.Sender.{Sender as TransportSender}
use icmsg_rs.Transport.Receiver.{Receiver as TransportReceiver}
use icmsg_rs.Transport.IcMsgTransport
use icmsg_rs.Transport.IcMsgTransport.{IcMsgTransport, Regions}
use icmsg_rs.Transport.Refine.{Represents}
use icmsg_rs.IcMsg.Defs.{magic, MemoryConfig, InitError, IcMsg, announce, bond}
use icmsg_rs.IcMsg.Methods.{send, try_recv}
use icmsg_rs.IcMsg.Duplex.{Core, core_a, core_b}
use icmsg_rs.IcMsg.Bonding.Both.{mirrored}

-- Where a core stands: before `init`, in its waiting loop, behind it, or after an error of `init`.
pub data Phase {ℓ κ} (M : Type ℓ) (W : Type κ) : Type (ℓ ⊔ κ) where
  off : Phase M W
  waiting : IcMsgTransport M → Phase M W
  running : IcMsg M W → Phase M W
  failed : InitError → Phase M W

-- What makes a core take a turn: it starts, its timer ends, its notification comes or is lost, or its
-- program calls `send` or `try_recv`.
pub data Event : Type 0 where
  boot timer wake lose : Event
  send_msg : List ℕ → Event
  recv_into : List ℕ → Event

-- A core with its view of the memory. `raised` is the notification for it, and `signals` says whether the
-- last turn notified the other core.
pub record Local {ℓ κ} (M : Type ℓ) (W : Type κ) : Type (ℓ ⊔ κ) where
  pub phase : Phase M W
  pub mem : Regions
  pub raised : Bool
  pub signals : Bool

module _ {ℓ κ} {M : Type ℓ} {W : Type κ} where
  -- `init` behind `announce`.
  unfoldable announced : Local M W → Result (IcMsgTransport M × Regions) InitError → Local M W
  announced l (ok (transport, mem)) = record l {
    phase = waiting transport;
    mem = mem;
    signals = true;
  }
  announced l (err e) = record l { phase = failed e }

  -- `init` behind the waiting loop; the notification is used up.
  unfoldable bonded : Local M W → Result (IcMsg M W × Regions) InitError → Local M W
  bonded l (ok (icmsg, mem)) = record l {
    phase = running icmsg;
    mem = mem;
    raised = false;
    signals = true;
  }
  bonded l (err e) = record l { phase = failed e; raised = false; signals = true }

  -- A message that was sent is notified.
  unfoldable after_send : Local M W → IcMsg M W × Regions × Result (Unit {0}) SendError → Local M W
  after_send l (icmsg, mem, ok _) = record l { phase = running icmsg; mem = mem; signals = true }
  after_send l (icmsg, mem, err e) = record l { phase = running icmsg; mem = mem }

  unfoldable after_try_recv :
      Local M W → IcMsg M W × Regions × List ℕ × Result ℕ RecvError → Local M W
  after_try_recv l (icmsg, mem, buf, res) = record l { phase = running icmsg; mem = mem }

module _ {ℓ κ} {M : Type ℓ} {W : Type κ} ⦃notifier : Notifier M⦄ (t : Target) (align : ℕ)
    (config : MemoryConfig) (mbox : M) (waiter : W) where
  -- What each event does in each phase; it leaves a core alone in a phase that it does not concern.
  unfoldable on_boot : Local M W → Phase M W → Exec (Local M W)
  unfolding announced
  on_boot l off = do out ← announce t align config mbox l.mem; done (announced l out)
  on_boot l (waiting transport) = done l
  on_boot l (running icmsg) = done l
  on_boot l (failed e) = done l

  unfoldable on_timer : Local M W → Phase M W → Exec (Local M W)
  unfolding IcMsgTransport.notify
  on_timer l off = done l
  on_timer l (waiting transport) =
      done (record l { phase = waiting (IcMsgTransport.notify transport); signals = true })
  on_timer l (running icmsg) = done l
  on_timer l (failed e) = done l

  unfoldable on_wake : Local M W → Phase M W → Bool → Exec (Local M W)
  unfolding bonded IcMsgTransport.notify
  on_wake l phase false = done l
  on_wake l off true = done l
  on_wake l (waiting transport) true = do
    out ← bond t (IcMsgTransport.notify transport) waiter l.mem
    done (bonded l out)
  on_wake l (running icmsg) true = done l
  on_wake l (failed e) true = done l

  unfoldable on_send : Local M W → Phase M W → List ℕ → Exec (Local M W)
  unfolding after_send
  on_send l off msg = done l
  on_send l (waiting transport) msg = done l
  on_send l (running icmsg) msg = do out ← send t icmsg l.mem msg; done (after_send l out)
  on_send l (failed e) msg = done l

  unfoldable on_recv : Local M W → Phase M W → List ℕ → Exec (Local M W)
  unfolding after_try_recv
  on_recv l off buf = done l
  on_recv l (waiting transport) buf = done l
  on_recv l (running icmsg) buf = do out ← try_recv t icmsg l.mem buf; done (after_try_recv l out)
  on_recv l (failed e) buf = done l

  -- A turn.
  unfoldable pub turn : Local M W → Event → Exec (Local M W)
  unfolding on_boot on_timer on_wake on_send on_recv
  turn l boot = on_boot l l.phase
  turn l timer = on_timer l l.phase
  turn l wake = on_wake l l.phase l.raised
  turn l lose = done (record l { raised = false })
  turn l (send_msg msg) = on_send l l.phase msg
  turn l (recv_into buf) = on_recv l l.phase buf

-- Both cores, the region that core a sends on and the one that core b sends on.
pub record World {ℓ κ} (M : Type ℓ) (W : Type κ) : Type (ℓ ⊔ κ) where
  pub phase_a : Phase M W
  pub phase_b : Phase M W
  pub a : SharedMemoryRegion
  pub b : SharedMemoryRegion
  pub raised_a : Bool
  pub raised_b : Bool

module _ {ℓ κ} {M : Type ℓ} {W : Type κ} where
  abbrev pub view_a : World M W → Local M W
  view_a w = record {
    phase = w.phase_a;
    mem = record { send_region = w.a; recv_region = w.b };
    raised = w.raised_a;
    signals = false;
  }

  abbrev pub view_b : World M W → Local M W
  view_b w = record {
    phase = w.phase_b;
    mem = record { send_region = w.b; recv_region = w.a };
    raised = w.raised_b;
    signals = false;
  }

  abbrev pub with_a : World M W → Local M W → World M W
  with_a w l = record {
    phase_a = l.phase;
    phase_b = w.phase_b;
    a = l.mem.send_region;
    b = l.mem.recv_region;
    raised_a = l.raised;
    raised_b = w.raised_b || l.signals;
  }

  abbrev pub with_b : World M W → Local M W → World M W
  with_b w l = record {
    phase_a = w.phase_a;
    phase_b = l.phase;
    a = l.mem.recv_region;
    b = l.mem.send_region;
    raised_a = w.raised_a || l.signals;
    raised_b = l.raised;
  }

module _ {ℓ κ} {M : Type ℓ} {W : Type κ} ⦃notifier : Notifier M⦄ (t : Target) (align : ℕ)
    (config : MemoryConfig) (mbox_a mbox_b : M) (waiter_a waiter_b : W) where
  unfoldable pub step : World M W → Core × Event → Exec (World M W)
  unfolding turn
  step w (core_a, event) = do
    l ← turn t align config mbox_a waiter_a (view_a w) event
    done (with_a w l)
  step w (core_b, event) = do
    l ← turn t align (mirrored config) mbox_b waiter_b (view_b w) event
    done (with_b w l)

  -- The turns of a schedule.
  unfoldable pub run : World M W → List (Core × Event) → Exec (World M W)
  unfolding step
  run w [] = done w
  run w (turn ∷ schedule) = do w' ← step w turn; run w' schedule
