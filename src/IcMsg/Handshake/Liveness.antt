-- ===== src/IcMsg/Handshake/Liveness.antt =====
-- No core is left behind in the handshake unless a notification is lost.
use icmsg_rs.Prelude.{ℕ, ◌≡◌, refl, List}
use icmsg_rs.Machine.{done, Target}
use icmsg_rs.Transport.Region.{SharedMemoryRegion, Notifier}
use icmsg_rs.Transport.IcMsgTransport.{Regions}
use icmsg_rs.IcMsg.Defs.{MemoryConfig}
use icmsg_rs.IcMsg.Bonding.Both.{IsGood, IsGood-mirrored, mirrored}
use icmsg_rs.IcMsg.Duplex.{Core, core_a, core_b}
use icmsg_rs.IcMsg.Handshake.{Event, wake, World, view_a, view_b, with_a, with_b, step, run}
use icmsg_rs.IcMsg.Handshake.Direction.{Direction-IsAnnounced}
use icmsg_rs.IcMsg.Handshake.Direction.{IsRunning}
use icmsg_rs.IcMsg.Handshake.Turns.{wakes}
use icmsg_rs.IcMsg.Handshake.Live.{IsLive}
use icmsg_rs.IcMsg.Handshake.Safety.{
  power_up, IsSafe, AllShort, NoneLost, run_from_lem, power_up-IsSafe,
}

module _ {ℓ κ} {M : Type ℓ} {W : Type κ} ⦃notifier : Notifier M⦄ (t : Target) (align : ℕ)
    (config : MemoryConfig) (mbox_a mbox_b : M) (waiter_a waiter_b : W) where
  -- The core's turn on a notification leaves it behind `init`.
  abbrev pub JoinsA : World M W → Type (ℓ ⊔ κ)
  JoinsA w =
      (w' : World M W) × (step t align config mbox_a mbox_b waiter_a waiter_b w (core_a, wake)
        ≡ done w')
      × IsRunning w'.phase_a

  abbrev pub JoinsB : World M W → Type (ℓ ⊔ κ)
  JoinsB w =
      (w' : World M W) × (step t align config mbox_a mbox_b waiter_a waiter_b w (core_b, wake)
        ≡ done w')
      × IsRunning w'.phase_b

  module _ {mem0 : Regions} (good : IsGood align config mem0) (w : World M W)
      (safe : IsSafe t config w) (live : IsLive w) where
    joins_a : IsRunning w.phase_b → JoinsA w
    unfolding step
    joins_a behind =
        let (l', e, r) =
          wakes t align config mbox_a waiter_a good w.phase_b (view_a w) refl
            (record { forth = safe.forth; back = safe.back; heard = safe.heard_a })
            (Direction-IsAnnounced t config.send_buffer_len w.phase_a w.phase_b w.a safe.forth
              behind)
            (live.live_a behind) in
        (with_a w l', rw e, r)

    joins_b : IsRunning w.phase_a → JoinsB w
    unfolding step
    joins_b behind =
        let (l', e, r) =
          wakes t align (mirrored config) mbox_b waiter_b
            (IsGood-mirrored {a' = mem0.send_region} good good.config_good.send_whole) w.phase_a
            (view_b w) refl (record { forth = safe.back; back = safe.forth; heard = safe.heard_b })
            (Direction-IsAnnounced t config.recv_buffer_len w.phase_b w.phase_a w.b safe.back
              behind)
            (live.live_b behind) in
        (with_b w l', rw e, r)

-- If no notification is lost, then in every state that the turns reach from power-up, under the same
-- conditions, neither core is left behind: once one of them is behind `init`, the other one's next turn on a
-- notification leaves it behind `init` too.
pub handshake_completes {ℓ κ} :
    {M : Type ℓ} {W : Type κ} ⦃notifier : Notifier M⦄ (t : Target) (align : ℕ)
    (config : MemoryConfig) (mbox_a mbox_b : M) (waiter_a waiter_b : W) (a b : SharedMemoryRegion)
    (schedule : List (Core × Event))
    → IsGood align config (record { send_region = a; recv_region = b })
    → AllShort schedule
    → NoneLost schedule
    → (w : World M W) × (run t align config mbox_a mbox_b waiter_a waiter_b (power_up a b) schedule
        ≡ done w)
      × (IsRunning w.phase_b → JoinsA t align config mbox_a mbox_b waiter_a waiter_b w)
      × (IsRunning w.phase_a → JoinsB t align config mbox_a mbox_b waiter_a waiter_b w)
handshake_completes t align config mbox_a mbox_b waiter_a waiter_b a b schedule good short none =
    let (w, e, safe, keeps) =
      run_from_lem t align config mbox_a mbox_b waiter_a waiter_b good schedule (power_up a b) short
        (power_up-IsSafe t good) in
    let live = keeps none (record { live_a = λ x. absurd x; live_b = λ x. absurd x }) in
    (
      w,
      e,
      joins_a t align config mbox_a mbox_b waiter_a waiter_b good w safe live,
      joins_b t align config mbox_a mbox_b waiter_a waiter_b good w safe live,
    )
