-- ===== src/IcMsg/Handshake/Turns.antt =====
-- Every turn of a core keeps what holds of it beside the other one.
use icmsg_rs.Prelude.{ℕ, ◌^◌, ◌<◌, ◌≡◌, refl, sym, Bool, true, false, List, length, ◌⊎◌, inl, inr}
use mathlib.Core.Path.{subst}
use icmsg_rs.Machine.{Exec, done, Result, ok, err, Target}
use icmsg_rs.Transport.Region.{SharedMemoryRegion, Notifier, SendError}
use icmsg_rs.Transport.IcMsgTransport
use icmsg_rs.Transport.IcMsgTransport.{IcMsgTransport, Regions}
use icmsg_rs.IcMsg.Defs.{MemoryConfig, IcMsg}
use icmsg_rs.IcMsg.Bonding.Both.{IsGood, IsGood-whole, announce-ok}
use icmsg_rs.IcMsg.Methods.{send_half, send, try_recv}
use icmsg_rs.IcMsg.Handshake.{
  Phase, off, waiting, running, failed, Event, boot, timer, wake, lose, send_msg, recv_into, Local,
  announced, bonded, after_send, after_try_recv, on_boot, on_timer, on_wake, on_send, on_recv, turn,
}
use icmsg_rs.IcMsg.Handshake.Direction.{
  IsAnnounced, IsOpen, Direction, whole, announce-IsOpen, announce-Direction, notify-IsOpen,
  waiting-Direction, running-Direction, bond-Direction,
}
use icmsg_rs.IcMsg.Handshake.Direction.Calls.{send-IsOpen, try_recv-Direction}
use icmsg_rs.IcMsg.Handshake.Sound.{IsSound, IsKept, IsShort, IsLost}
use icmsg_rs.IcMsg.Handshake.Direction.{IsRunning}

module _ {ℓ κ} {M : Type ℓ} {W : Type κ} ⦃notifier : Notifier M⦄ (t : Target) (align : ℕ)
    (config : MemoryConfig) (mbox : M) (waiter : W) {mem0 : Regions}
    (good : IsGood align config mem0) (other : Phase M W) where
  abbrev pub Turned : Type 0 → Local M W → Exec (Local M W) → Type (ℓ ⊔ κ)
  Turned lost l out = (l' : Local M W) × (out ≡ done l') × IsKept t config other lost l l'

  unchanged : (l : Local M W) → l.signals ≡ false → IsSound t config other l → Turned ⊥ l (done l)
  unchanged l quiet sound = (
    l,
    refl,
    record {
      sound = sound;
      announced_still = λ x. x;
      announced_first = λ e. absurd cc;
      running_still = λ x. x;
      running_first = λ x. inl x;
      raised_still = inl refl;
    },
  )

  -- A core that has announced itself, when it keeps its view of the other one.
  kept :
      {l l' : Local M W}
      → IsAnnounced l'.phase
      → Direction t config.send_buffer_len l'.phase other l'.mem.send_region
      → Direction t config.recv_buffer_len other l'.phase l'.mem.recv_region
      → (l'.raised ≡ true → IsAnnounced other)
      → (IsRunning l.phase → IsRunning l'.phase)
      → (IsRunning l'.phase → IsRunning l.phase ⊎ (l'.signals ≡ true))
      → ((l'.raised ≡ l.raised) ⊎ (IsRunning l'.phase ⊎ ⊥))
      → IsKept t config other ⊥ l l'
  kept there forth back heard still first_ raised = record {
    sound = record { forth = forth; back = back; heard = heard };
    announced_still = λ x. there;
    announced_first = λ x. there;
    running_still = still;
    running_first = first_;
    raised_still = raised;
  }

  module _ (l : Local M W) (quiet : l.signals ≡ false) (sound : IsSound t config other l) where
    forth_at :
        {p : Phase M W} → l.phase ≡ p → Direction t config.send_buffer_len p other l.mem.send_region
    forth_at at =
        subst (λ p. Direction t config.send_buffer_len p other l.mem.send_region) at sound.forth

    back_at :
        {p : Phase M W} → l.phase ≡ p → Direction t config.recv_buffer_len other p l.mem.recv_region
    back_at at =
        subst (λ p. Direction t config.recv_buffer_len other p l.mem.recv_region) at sound.back

    on_boot_lem :
        (p : Phase M W) → l.phase ≡ p → Turned ⊥ l (on_boot t align config mbox waiter l p)
    unfolding on_boot announced
    on_boot_lem off at =
        let back = back_at at in
        let now =
          IsGood-whole {mem' = l.mem} good (forth_at at).0
            (whole t config.recv_buffer_len other off l.mem.recv_region back) in
        let (s', region', e, rep) = announce-ok t mbox now in
        let transport : IcMsgTransport M = record {
          sender = s';
          receiver = record { recv_buffer_len = config.recv_buffer_len; recv_rd_idx = 0 };
        } in
        (
          announced l (ok (transport, record l.mem { send_region = region' })),
          rw e,
          kept tt (announce-IsOpen t config.send_buffer_len other region' (forth_at at).1 rep)
              (announce-Direction t config.recv_buffer_len other transport l.mem.recv_region refl
                back)
              sound.heard (λ x. subst IsRunning at x) (λ x. inr refl) (inl refl),
        )
    on_boot_lem (waiting transport) at = unchanged l quiet sound
    on_boot_lem (running icmsg) at = unchanged l quiet sound
    on_boot_lem (failed e) at = unchanged l quiet sound

    on_timer_lem :
        (p : Phase M W) → l.phase ≡ p → Turned ⊥ l (on_timer t align config mbox waiter l p)
    unfolding on_timer IcMsgTransport.notify icmsg_rs.Transport.Sender.notify
    on_timer_lem off at = unchanged l quiet sound
    on_timer_lem (waiting transport) at = (
      _,
      refl,
      kept tt
          (notify-IsOpen t config.send_buffer_len transport.sender other l.mem.send_region
            (notifier.notify transport.sender.mbox) (forth_at at))
          (waiting-Direction t config.recv_buffer_len other transport
            (record transport.sender { mbox = notifier.notify transport.sender.mbox })
            l.mem.recv_region (back_at at))
          sound.heard (λ x. absurd (subst IsRunning at x)) (λ x. inr refl) (inl refl),
    )
    on_timer_lem (running icmsg) at = unchanged l quiet sound
    on_timer_lem (failed e) at = unchanged l quiet sound

    -- A waiting core that is notified bonds.
    woken :
        (transport : IcMsgTransport M)
        → l.phase ≡ waiting transport
        → l.raised ≡ true
        → (icmsg : IcMsg M W) × (region' : SharedMemoryRegion) × (on_wake t align config mbox waiter
              l
              (waiting transport)
              true
            ≡ done (bonded l (ok (icmsg, record l.mem { recv_region = region' }))))
          × IsOpen t config.send_buffer_len icmsg.sender.transport other l.mem.send_region
          × Direction t config.recv_buffer_len other (running icmsg) region'
    unfolding on_wake bonded IcMsgTransport.notify icmsg_rs.Transport.Sender.notify
    woken transport at up =
        let mbox' : M = notifier.notify transport.sender.mbox in
        let (icmsg, region', e, same, back) =
          bond-Direction t config.recv_buffer_len other (IcMsgTransport.notify transport) waiter
            l.mem (sound.heard up)
            (waiting-Direction t config.recv_buffer_len other transport
              (record transport.sender { mbox = mbox' }) l.mem.recv_region (back_at at)) in
        (
          icmsg,
          region',
          rw e,
          subst (λ s. IsOpen t config.send_buffer_len s other l.mem.send_region) (sym same)
              (notify-IsOpen t config.send_buffer_len transport.sender other l.mem.send_region mbox'
                (forth_at at)),
          back,
        )

    on_wake_lem :
        (p : Phase M W) (raised : Bool)
        → l.phase ≡ p
        → l.raised ≡ raised
        → Turned ⊥ l (on_wake t align config mbox waiter l p raised)
    unfolding on_wake bonded
    on_wake_lem p false at up = unchanged l quiet sound
    on_wake_lem off true at up = unchanged l quiet sound
    on_wake_lem (waiting transport) true at up =
        let (icmsg, region', e, forth, back) = woken transport at up in
        (
          bonded l (ok (icmsg, record l.mem { recv_region = region' })),
          e,
          kept tt forth back (λ x. absurd cc) (λ x. tt) (λ x. inr refl) (inr (inl tt)),
        )
    on_wake_lem (running icmsg) true at up = unchanged l quiet sound
    on_wake_lem (failed e) true at up = unchanged l quiet sound

    -- So its next turn on a notification leaves it behind `init`, and one that is there stays there.
    wakes_in :
        (p : Phase M W) (raised : Bool)
        → l.phase ≡ p
        → l.raised ≡ raised
        → IsAnnounced p
        → IsRunning p ⊎ (raised ≡ true)
        → (l' : Local M W) × (on_wake t align config mbox waiter l p raised ≡ done l')
          × IsRunning l'.phase
    unfolding on_wake bonded
    wakes_in off raised at up there ready = absurd there
    wakes_in (waiting transport) true at up there ready =
        let (icmsg, region', e, _, _) = woken transport at up in
        (bonded l (ok (icmsg, record l.mem { recv_region = region' })), e, tt)
    wakes_in (waiting transport) false at up there (inl r) = absurd r
    wakes_in (waiting transport) false at up there (inr e) = absurd cc
    wakes_in (running icmsg) true at up there ready = (l, refl, subst IsRunning (sym at) tt)
    wakes_in (running icmsg) false at up there ready = (l, refl, subst IsRunning (sym at) tt)
    wakes_in (failed e) raised at up there ready = absurd there

    pub wakes :
        IsAnnounced l.phase
        → IsRunning l.phase ⊎ (l.raised ≡ true)
        → (l' : Local M W) × (turn t align config mbox waiter l wake ≡ done l') × IsRunning l'.phase
    unfolding turn
    wakes = wakes_in l.phase l.raised refl refl

    after_send_lem :
        (icmsg : IcMsg M W) (mem : Regions) (res : Result (Unit {0}) SendError)
        → IsRunning l.phase
        → Direction t config.send_buffer_len (running icmsg) other mem.send_region
        → Direction t config.recv_buffer_len other (running icmsg) mem.recv_region
        → IsKept t config other ⊥ l (after_send l (icmsg, mem, res))
    unfolding after_send
    after_send_lem icmsg mem (ok _) was forth back =
        kept tt forth back sound.heard (λ x. tt) (λ x. inl was) (inl refl)
    after_send_lem icmsg mem (err e) was forth back =
        kept tt forth back sound.heard (λ x. tt) (λ x. inl was) (inl refl)

    on_send_lem :
        (p : Phase M W) (msg : List ℕ)
        → length msg < 2 ^ 16
        → l.phase ≡ p
        → Turned ⊥ l (on_send t align config mbox waiter l p msg)
    unfolding on_send send send_half
    on_send_lem off msg short at = unchanged l quiet sound
    on_send_lem (waiting transport) msg short at = unchanged l quiet sound
    on_send_lem (running icmsg) msg short at =
        let (s', region', res, e, open') =
          send-IsOpen t config.send_buffer_len icmsg.sender.transport other l.mem.send_region msg
            short (forth_at at) in
        (
          after_send l (
            record icmsg { sender = record { transport = s' } },
            record l.mem { send_region = region' },
            res,
          ),
          rw e,
          after_send_lem _ _ res (subst IsRunning (sym at) tt) open' (
              running-Direction t config.recv_buffer_len other icmsg (record { transport = s' })
                l.mem.recv_region (back_at at)),
        )
    on_send_lem (failed e) msg short at = unchanged l quiet sound

    on_recv_lem :
        (p : Phase M W) (buf : List ℕ)
        → l.phase ≡ p
        → Turned ⊥ l (on_recv t align config mbox waiter l p buf)
    unfolding on_recv after_try_recv try_recv icmsg_rs.IcMsg.Recv.try_recv
    on_recv_lem off buf at = unchanged l quiet sound
    on_recv_lem (waiting transport) buf at = unchanged l quiet sound
    on_recv_lem (running icmsg) buf at =
        let (r', region', buf', res, e, back) =
          try_recv-Direction t config.recv_buffer_len other icmsg l.mem.recv_region buf
            (back_at at) in
        (
          record l {
            phase = running (record icmsg { receiver = record icmsg.receiver { transport = r' } });
            mem = record l.mem { recv_region = region' };
          },
          rw e,
          kept tt (forth_at at) back sound.heard (λ x. tt) (λ x. inl (subst IsRunning (sym at) tt))
              (inl refl),
        )
    on_recv_lem (failed e) buf at = unchanged l quiet sound

    lost_lem : Turned Unit l (done (record l { raised = false }))
    lost_lem = (
      _,
      refl,
      record {
        sound = record { forth = sound.forth; back = sound.back; heard = λ e. absurd cc };
        announced_still = λ x. x;
        announced_first = λ e. absurd cc;
        running_still = λ x. x;
        running_first = λ x. inl x;
        raised_still = inr (inr tt);
      },
    )

    pub turn_lem :
        (event : Event)
        → IsShort event
        → Turned (IsLost event) l (turn t align config mbox waiter l event)
    unfolding turn
    turn_lem boot short = on_boot_lem l.phase refl
    turn_lem timer short = on_timer_lem l.phase refl
    turn_lem wake short = on_wake_lem l.phase l.raised refl refl
    turn_lem lose short = lost_lem
    turn_lem (send_msg msg) short = on_send_lem l.phase msg short refl
    turn_lem (recv_into buf) short = on_recv_lem l.phase buf refl
