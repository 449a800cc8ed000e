-- ===== src/IcMsg/Handshake/Sound.antt =====
-- What holds of a core beside the other one, and what a turn makes of it.
use icmsg_rs.Prelude.{◌^◌, ◌<◌, ◌≡◌, true, length, ◌⊎◌}
use icmsg_rs.Machine.{Target}
use icmsg_rs.IcMsg.Defs.{MemoryConfig}
use icmsg_rs.IcMsg.Handshake.{Phase, Event, lose, send_msg, Local}
use icmsg_rs.IcMsg.Handshake.Direction.{IsRunning, IsAnnounced, Direction}

-- A core beside one in the phase `other`.
pub record IsSound {ℓ κ} {M : Type ℓ} {W : Type κ} (t : Target) (config : MemoryConfig)
    (other : Phase M W) (l : Local M W) : Type 0 where
  pub forth : Direction t config.send_buffer_len l.phase other l.mem.send_region
  pub back : Direction t config.recv_buffer_len other l.phase l.mem.recv_region
  pub heard : l.raised ≡ true → IsAnnounced other

-- What a turn makes of it; `lost` says that the turn may lose the core's notification.
pub record IsKept {ℓ κ} {M : Type ℓ} {W : Type κ} (t : Target) (config : MemoryConfig)
    (other : Phase M W) (lost : Type 0) (l l' : Local M W) : Type 0 where
  pub sound : IsSound t config other l'
  pub announced_still : IsAnnounced l.phase → IsAnnounced l'.phase
  pub announced_first : l'.signals ≡ true → IsAnnounced l'.phase
  pub running_still : IsRunning l.phase → IsRunning l'.phase
  pub running_first : IsRunning l'.phase → IsRunning l.phase ⊎ (l'.signals ≡ true)
  pub raised_still : (l'.raised ≡ l.raised) ⊎ (IsRunning l'.phase ⊎ lost)

-- Only messages shorter than 2 ^ 16 bytes are sent.
abbrev pub IsShort : Event → Type 0
IsShort (send_msg msg) = length msg < 2 ^ 16
IsShort _ = Unit

abbrev pub IsLost : Event → Type 0
IsLost lose = Unit
IsLost _ = ⊥
