-- ===== src/IcMsg/Handshake/Safety.antt =====
-- No order of turns makes bonding fail or a call panic.
use icmsg_rs.Prelude.{ℕ, ◌≡◌, refl, Bool, true, false, ◌||◌, List, [], ◌∷◌}
use icmsg_rs.Machine.{done, Target}
use icmsg_rs.Transport.Region.{SharedMemoryRegion, Notifier}
use icmsg_rs.Transport.IcMsgTransport.{Regions}
use icmsg_rs.IcMsg.Defs.{MemoryConfig}
use icmsg_rs.IcMsg.Bonding.Both.{IsGood, IsGood-mirrored, mirrored}
use icmsg_rs.IcMsg.Duplex.{Core, core_a, core_b}
use icmsg_rs.IcMsg.Handshake.{
  Phase, off, waiting, running, failed, Event, World, view_a, view_b, with_a, with_b, step, run,
}
use icmsg_rs.IcMsg.Handshake.Direction.{IsAnnounced, Direction}
use icmsg_rs.IcMsg.Handshake.Sound.{IsLost, IsShort}
use icmsg_rs.IcMsg.Handshake.Turns.{turn_lem}
use icmsg_rs.IcMsg.Handshake.Live.{IsLive, live_other, live_self}

-- Both cores before `init`, over the regions of the two directions.
abbrev pub power_up {ℓ κ} :
    {M : Type ℓ} {W : Type κ} → SharedMemoryRegion → SharedMemoryRegion → World M W
power_up a b = record {
  phase_a = off;
  phase_b = off;
  a = a;
  b = b;
  raised_a = false;
  raised_b = false;
}

module _ {ℓ κ} {M : Type ℓ} {W : Type κ} where
  abbrev pub IsAlive : Phase M W → Type 0
  IsAlive off = Unit
  IsAlive (waiting transport) = Unit
  IsAlive (running icmsg) = Unit
  IsAlive (failed e) = ⊥

  -- Neither core's `init` has failed. Each direction is as the phases of its ends demand: in particular,
  -- once both cores are running, it represents a queue. A notification comes from a core that has sent its
  -- magic word.
  pub record IsSafe (t : Target) (config : MemoryConfig) (w : World M W) : Type 0 where
    pub forth : Direction t config.send_buffer_len w.phase_a w.phase_b w.a
    pub back : Direction t config.recv_buffer_len w.phase_b w.phase_a w.b
    pub alive_a : IsAlive w.phase_a
    pub alive_b : IsAlive w.phase_b
    pub heard_a : w.raised_a ≡ true → IsAnnounced w.phase_b
    pub heard_b : w.raised_b ≡ true → IsAnnounced w.phase_a

  Direction-IsAlive :
      (t : Target) (size : ℕ) (from to : Phase M W) (region : SharedMemoryRegion)
      → Direction t size from to region
      → IsAlive from
  Direction-IsAlive t size off to region d = tt
  Direction-IsAlive t size (waiting transport) to region d = tt
  Direction-IsAlive t size (running icmsg) to region d = tt
  Direction-IsAlive t size (failed e) to region d = absurd d

either_raised : {P : Type 0} (x y : Bool) → (x ≡ true → P) → (y ≡ true → P) → (x || y) ≡ true → P
either_raised true y p q e = p refl
either_raised false y p q e = q e

abbrev pub NoneLost : List (Core × Event) → Type 0
NoneLost [] = Unit
NoneLost ((core, event) ∷ schedule) = (IsLost event → ⊥) × NoneLost schedule

abbrev pub AllShort : List (Core × Event) → Type 0
AllShort [] = Unit
AllShort ((core, event) ∷ schedule) = IsShort event × AllShort schedule

module _ {ℓ κ} {M : Type ℓ} {W : Type κ} ⦃notifier : Notifier M⦄ (t : Target) (align : ℕ)
    (config : MemoryConfig) (mbox_a mbox_b : M) (waiter_a waiter_b : W) {mem0 : Regions}
    (good : IsGood align config mem0) where
  step_lem :
      (w : World M W) (core : Core) (event : Event)
      → IsShort event
      → IsSafe t config w
      → (w' : World M W) × (step t align config mbox_a mbox_b waiter_a waiter_b w (core, event)
          ≡ done w')
        × IsSafe t config w'
        × ((IsLost event → ⊥) → IsLive w → IsLive w')
  unfolding step
  step_lem w core_a event short safe =
      let (l', e, kept) =
        turn_lem t align config mbox_a waiter_a good w.phase_b (view_a w) refl
          (record { forth = safe.forth; back = safe.back; heard = safe.heard_a }) event short in
      (
        with_a w l',
        rw e,
        record {
          forth = kept.sound.forth;
          back = kept.sound.back;
          alive_a =
              Direction-IsAlive t config.send_buffer_len l'.phase w.phase_b l'.mem.send_region
                kept.sound.forth;
          alive_b = safe.alive_b;
          heard_a = kept.sound.heard;
          heard_b =
              either_raised w.raised_b l'.signals (λ up. kept.announced_still (safe.heard_b up))
                kept.announced_first;
        },
        λ none_lost live. record {
          live_a =
              live_self w.raised_a l'.raised kept.running_still kept.raised_still none_lost
                live.live_a;
          live_b = live_other w.raised_b l'.signals kept.running_first live.live_b;
        },
      )
  step_lem w core_b event short safe =
      let (l', e, kept) =
        turn_lem t align (mirrored config) mbox_b waiter_b
          (IsGood-mirrored {a' = mem0.send_region} good good.config_good.send_whole) w.phase_a
          (view_b w) refl (record { forth = safe.back; back = safe.forth; heard = safe.heard_b })
          event short in
      (
        with_b w l',
        rw e,
        record {
          forth = kept.sound.back;
          back = kept.sound.forth;
          alive_a = safe.alive_a;
          alive_b =
              Direction-IsAlive t config.recv_buffer_len l'.phase w.phase_a l'.mem.send_region
                kept.sound.forth;
          heard_a =
              either_raised w.raised_a l'.signals (λ up. kept.announced_still (safe.heard_a up))
                kept.announced_first;
          heard_b = kept.sound.heard;
        },
        λ none_lost live. record {
          live_a = live_other w.raised_a l'.signals kept.running_first live.live_a;
          live_b =
              live_self w.raised_b l'.raised kept.running_still kept.raised_still none_lost
                live.live_b;
        },
      )

  pub run_from_lem :
      (schedule : List (Core × Event)) (w : World M W)
      → AllShort schedule
      → IsSafe t config w
      → (w' : World M W) × (run t align config mbox_a mbox_b waiter_a waiter_b w schedule ≡ done w')
        × IsSafe t config w'
        × (NoneLost schedule → IsLive w → IsLive w')
  unfolding run
  run_from_lem [] w short safe = (w, refl, safe, λ none live. live)
  run_from_lem ((core, event) ∷ schedule) w (short, rest) safe =
      let (w1, e1, safe1, live1) = step_lem w core event short safe in
      let (w', e, safe', live') = run_from_lem schedule w1 rest safe1 in
      (w', rw e1 e, safe', λ none live. live' none.1 (live1 none.0 live))

pub power_up-IsSafe {ℓ κ} :
    {M : Type ℓ} {W : Type κ} (t : Target) {align : ℕ} {config : MemoryConfig}
    {a b : SharedMemoryRegion}
    → IsGood align config (record { send_region = a; recv_region = b })
    → IsSafe {M = M} {W = W} t config (power_up a b)
power_up-IsSafe t good = record {
  forth = (good.config_good.send_whole, tt);
  back = (good.config_good.recv_whole, tt);
  alive_a = tt;
  alive_b = tt;
  heard_a = λ e. absurd cc;
  heard_b = λ e. absurd cc;
}

-- From power-up on, with mirrored good configurations and messages shorter than 2 ^ 16 bytes, whatever
-- order the two cores take their turns in, and whichever notifications are lost: no turn panics,
-- overflows or leaves a region, neither `init` fails, and once both are behind `init` each direction
-- represents a queue.
pub handshake-IsSafe {ℓ κ} :
    {M : Type ℓ} {W : Type κ} ⦃notifier : Notifier M⦄ (t : Target) (align : ℕ)
    (config : MemoryConfig) (mbox_a mbox_b : M) (waiter_a waiter_b : W) (a b : SharedMemoryRegion)
    (schedule : List (Core × Event))
    → IsGood align config (record { send_region = a; recv_region = b })
    → AllShort schedule
    → (w : World M W) × (run t align config mbox_a mbox_b waiter_a waiter_b (power_up a b) schedule
        ≡ done w)
      × IsSafe t config w
handshake-IsSafe t align config mbox_a mbox_b waiter_a waiter_b a b schedule good short =
    let (w, e, safe, _) =
      run_from_lem t align config mbox_a mbox_b waiter_a waiter_b good schedule (power_up a b) short
        (power_up-IsSafe t good) in
    (w, e, safe)
