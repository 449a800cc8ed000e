-- ===== src/IcMsg/HandshakeTests.antt =====
-- Orders of turns of two cores with rings of 24 bytes.
use icmsg_rs.Prelude.{ℕ, ◌≡◌, refl, List, [], ◌∷◌, arith}
use icmsg_rs.Machine.{done}
use icmsg_rs.Transport.Fixtures.{debug, counting, ring_24, blank}
use icmsg_rs.IcMsg.Defs.{MemoryConfig}
use icmsg_rs.IcMsg.Bonding.Both.{IsGood}
use icmsg_rs.IcMsg.Duplex.{Core, core_a, core_b}
use icmsg_rs.IcMsg.Handshake.{Event, boot, timer, wake, lose, send_msg, recv_into, World, run}
use icmsg_rs.IcMsg.Handshake.Direction.{IsRunning}
use icmsg_rs.IcMsg.Handshake.Liveness.{JoinsA, JoinsB, handshake_completes}
use icmsg_rs.IcMsg.Handshake.Safety.{power_up, IsSafe, handshake-IsSafe}

abbrev config : MemoryConfig
config = record {
  send_region = 4096;
  recv_region = 8192;
  send_buffer_len = 24;
  recv_buffer_len = 24;
}

config-IsGood : IsGood 4 config (record { send_region = blank; recv_region = blank })
unfolding icmsg_rs.Transport.Layout.header_layout
config-IsGood = record {
  config_good = record {
    send_ring = ring_24;
    recv_ring = ring_24;
    send_aligned = refl;
    recv_aligned = refl;
    send_whole = refl;
    recv_whole = refl;
  };
  send_large = omega arith;
  recv_large = omega arith;
}

-- Core b starts late and misses a notification; core a is behind `init` first and sends at once, before
-- core b has read its magic word.
abbrev schedule : List (Core × Event)
schedule =
    (core_a, boot)
    ∷ (core_b, lose)
    ∷ (core_a, timer)
    ∷ (core_b, boot)
    ∷ (core_a, wake)
    ∷ (core_a, send_msg (7 ∷ []))
    ∷ (core_b, wake)
    ∷ (core_b, recv_into (0 ∷ []))
    ∷ []

handshake-IsSafe_example :
    (w : World ℕ ℕ) × (run debug 4 config 0 0 5 6 (power_up blank blank) schedule ≡ done w)
    × IsSafe debug config w
handshake-IsSafe_example =
    handshake-IsSafe debug 4 config 0 0 5 6 blank blank schedule config-IsGood
      (tt, (tt, (tt, (tt, (tt, (omega arith, (tt, (tt, tt))))))))

-- Core a is behind `init`, and core b has yet to wake up.
abbrev half_way : List (Core × Event)
half_way = (core_a, boot) ∷ (core_b, boot) ∷ (core_a, wake) ∷ []

none_lost : ⊥ → ⊥
none_lost x = x

handshake_completes_example :
    (w : World ℕ ℕ) × (run debug 4 config 0 0 5 6 (power_up blank blank) half_way ≡ done w)
    × (IsRunning w.phase_b → JoinsA debug 4 config 0 0 5 6 w)
    × (IsRunning w.phase_a → JoinsB debug 4 config 0 0 5 6 w)
handshake_completes_example =
    handshake_completes debug 4 config 0 0 5 6 blank blank half_way config-IsGood
      (tt, (tt, (tt, tt))) (none_lost, (none_lost, (none_lost, tt)))
