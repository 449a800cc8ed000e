-- ===== src/IcMsg/Handshake/Live.antt =====
-- What keeps a core from being left behind, and how a turn of either core keeps it.
use icmsg_rs.Prelude.{◌≡◌, refl, Bool, true, false, ◌||◌, ◌⊎◌, inl, inr, ◌∙◌}
use icmsg_rs.IcMsg.Handshake.{World}
use icmsg_rs.IcMsg.Handshake.Direction.{IsRunning}

-- A core that is behind `init` has left its notification with the other one, which is behind `init` too or
-- can take it.
pub record IsLive {ℓ κ} {M : Type ℓ} {W : Type κ} (w : World M W) : Type 0 where
  pub live_a : IsRunning w.phase_b → IsRunning w.phase_a ⊎ (w.raised_a ≡ true)
  pub live_b : IsRunning w.phase_a → IsRunning w.phase_b ⊎ (w.raised_b ≡ true)

-- The core that takes the turn goes on, and the other one may be behind it then.
pub live_other :
    {was now there : Type 0} (up signals : Bool)
    → (now → was ⊎ (signals ≡ true))
    → (was → there ⊎ (up ≡ true))
    → now
    → there ⊎ ((up || signals) ≡ true)
live_other true signals first_ live n = inr refl
live_other false signals first_ live n = elim (first_ n) [
  | inl w ↦ elim (live w) [ inl th ↦ inl th | inr e ↦ absurd cc ]
  | inr e ↦ inr e
]

pub live_self :
    {was now there lost : Type 0} (up up' : Bool)
    → (was → now)
    → (up' ≡ up) ⊎ (now ⊎ lost)
    → (lost → ⊥)
    → (there → was ⊎ (up ≡ true))
    → there
    → now ⊎ (up' ≡ true)
live_self up up' still raised none_lost live th = elim (live th) [
  | inl w ↦ inl (still w)
  | inr e ↦ elim raised [
    | inl same ↦ inr (same ∙ e)
    | inr (inl n) ↦ inl n
    | inr (inr gone) ↦ absurd (none_lost gone)
  ]
]
