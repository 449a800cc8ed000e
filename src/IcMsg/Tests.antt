-- ===== src/IcMsg/Tests.antt =====
-- The channel at concrete inputs: runs that can be followed in src/lib.rs, and an instance of each theorem
-- of the modules beside this one that has hypotheses.
use icmsg_rs.Prelude.{
  ℕ, ◌<◌, zero, suc, ◌≡◌, ◌≢◌, refl, true, false, some, [], ◌∷◌, get_or, replicate, length,
  length-replicate, Option, arith, List,
}
use icmsg_rs.Machine.{done, ok, err, Result}
use icmsg_rs.Integer
use icmsg_rs.Integer.{load, from_u16}
use icmsg_rs.Transport.Region.{SharedMemoryRegion, empty}
use icmsg_rs.Transport.Fixtures.{debug, counting, ring_24, blank}
use icmsg_rs.Transport.Fixtures.Holding.{sender_at, receiver_at, region_78, channel_78}
use icmsg_rs.Transport.Queue
use icmsg_rs.Transport.Receiver.{Receiver as TransportReceiver}
use icmsg_rs.Transport.IcMsgTransport.{IcMsgTransport, Regions}
use icmsg_rs.Transport.IcMsgTransport.New.{fresh-Represents}
use icmsg_rs.Transport.Refine.{Represents}
use icmsg_rs.IcMsg.Defs.{
  MemoryConfig, invalid_size, bonding_wrong_magic, IcMsg, InitError, Receiver, first, second,
  announce, bond, init, list_beq,
}
use icmsg_rs.IcMsg.Bonding.{Bonds, bonding, bond_refines}
use icmsg_rs.IcMsg.Bonding.Both.{IsGood, mirrored, cores_bond}
use icmsg_rs.IcMsg.Duplex.{Core, core_a, core_b, Link, run, run_queues, bonded_run}
use icmsg_rs.Transport.Calls.{Call}
use icmsg_rs.Transport.Calls
use icmsg_rs.IcMsg.Bonding.Ends.{answered, has_value, IsPeer, init-returns}
use icmsg_rs.IcMsg.Recv.{Round, recv, recv-answers, recv_refines}

abbrev regions : Regions
regions = record { send_region = blank; recv_region = region_78 }

abbrev transport : IcMsgTransport ℕ
transport = record { sender = sender_at 0; receiver = receiver_at 0 }

bond_refines_example : bond debug transport true regions ≡ done (err bonding_wrong_magic)
unfolding Bonds bonding list_beq
bond_refines_example = bond_refines debug transport true regions ((7 ∷ 8 ∷ []) ∷ []) channel_78

abbrev config : MemoryConfig
config = record {
  send_region = 4096;
  recv_region = 8192;
  send_buffer_len = 24;
  recv_buffer_len = 24;
}

abbrev blanks : Regions
blanks = record { send_region = blank; recv_region = blank }

config-IsGood : IsGood 4 config blanks
unfolding icmsg_rs.Transport.Layout.header_layout
config-IsGood = record {
  config_good = record {
    send_ring = ring_24;
    recv_ring = ring_24;
    send_aligned = refl;
    recv_aligned = refl;
    send_whole = refl;
    recv_whole = refl;
  };
  send_large = omega arith;
  recv_large = omega arith;
}

cores_bond_example :
    (chan_a chan_b : IcMsg ℕ ℕ) × (transport_a : IcMsgTransport ℕ) × (a' a'' b'
      b'' : SharedMemoryRegion)
    × (announce debug 4 config 0 blanks
        ≡ done (ok (transport_a, record { send_region = a'; recv_region = blank })))
    × (init debug 4
          (mirrored config)
          0
          6
          (second ∷ first ∷ [])
          (λ mem. mem)
          (record { send_region = blank; recv_region = a' })
        ≡ done (some (ok (chan_b, record { send_region = b'; recv_region = a'' }))))
    × (init debug 4 config 0 5
          (second ∷ second ∷ first ∷ [])
          (λ mem. record { send_region = a''; recv_region = b' })
          blanks
        ≡ done (some (ok (chan_a, record { send_region = a''; recv_region = b'' }))))
    × Represents debug 24 chan_a.sender.transport a'' chan_b.receiver.transport []
    × Represents debug 24 chan_b.sender.transport b'' chan_a.receiver.transport []
cores_bond_example = cores_bond debug 4 config 0 0 5 6 2 1 [] [] blank blank config-IsGood

-- A configuration that is odd and too small is refused for its size first.
odd_config :
    announce {M = ℕ} debug 4 (record config { send_buffer_len = 6 }) 0 blanks
    ≡ done (err invalid_size)
unfolding announce
odd_config = refl

fresh_channel : Represents debug 24 (sender_at 0) blank (receiver_at 0) []
unfolding Integer.new
fresh_channel = fresh-Represents debug 0 blank ring_24 refl

abbrev still_round : Round
still_round = record { peer = λ region. region; pending = true; woken = true }

abbrev sending_round : Round
sending_round = record { peer = λ region. region_78; pending = false; woken = false }

abbrev receiver : Receiver ℕ
receiver = record { transport = receiver_at 0; waiter = 5 }

recv_refines_example :
    (r' : TransportReceiver) × (region' : SharedMemoryRegion) × (recv debug receiver
        (still_round ∷ sending_round ∷ [])
        blank
        (0 ∷ 0 ∷ 1 ∷ [])
      ≡ done (
          some (
            record receiver { transport = r' },
            region',
            (Queue.try_recv ((7 ∷ 8 ∷ []) ∷ []) (0 ∷ 0 ∷ 1 ∷ [])).1,
            (Queue.try_recv ((7 ∷ 8 ∷ []) ∷ []) (0 ∷ 0 ∷ 1 ∷ [])).2,
          )))
    × Represents debug 24
        (sender_at 8)
        region'
        r'
        (Queue.try_recv ((7 ∷ 8 ∷ []) ∷ []) (0 ∷ 0 ∷ 1 ∷ [])).0
recv_refines_example =
    recv_refines debug receiver (7 ∷ 8 ∷ []) [] (still_round ∷ []) sending_round [] (0 ∷ 0 ∷ 1 ∷ [])
      fresh_channel (refl, refl, tt) channel_78

recv-answers_example :
    recv debug receiver (still_round ∷ []) blank (0 ∷ [])
    ≢ done (some (receiver, blank, 0 ∷ [], err empty))
recv-answers_example = recv-answers debug receiver (still_round ∷ []) blank (0 ∷ [])

-- Each core sends, and then each receives.
abbrev calls : List (Core × Call)
calls =
    (core_a, Calls.send (7 ∷ 8 ∷ []))
    ∷ (core_b, Calls.send (9 ∷ []))
    ∷ (core_b, Calls.try_recv (0 ∷ 0 ∷ []))
    ∷ (core_a, Calls.try_recv (0 ∷ []))
    ∷ []

bonded_run_example :
    (link : Link ℕ ℕ) × (transport_a : IcMsgTransport ℕ) × (a' b' : SharedMemoryRegion) × (announce
        debug 4 config 0 blanks
      ≡ done (ok (transport_a, record { send_region = a'; recv_region = blank })))
    × (init debug 4
          (mirrored config)
          0
          6
          (second ∷ first ∷ [])
          (λ mem. mem)
          (record { send_region = blank; recv_region = a' })
        ≡ done (some (ok (link.chan_b, record { send_region = b'; recv_region = link.a }))))
    × (init debug 4 config 0 5
          (second ∷ second ∷ first ∷ [])
          (λ mem. record { send_region = link.a; recv_region = b' })
          blanks
        ≡ done (some (ok (link.chan_a, record { send_region = link.a; recv_region = link.b }))))
    × (run debug link calls ≡ done (run_queues 24 24 (record { to_b = []; to_a = [] }) calls))
bonded_run_example =
    bonded_run debug 4 config 0 0 5 6 2 1 [] [] blank blank calls config-IsGood
      (omega arith, (omega arith, tt))

get_or-replicate : (n i : ℕ) → get_or (replicate n 255) i 0 < 256
get_or-replicate zero i = omega arith
get_or-replicate (suc n) zero = omega arith
get_or-replicate (suc n) (suc i) = get_or-replicate n i

-- A peer that fills its region with ones.
abbrev hostile : Regions → Regions
hostile mem = record mem {
  recv_region = record mem.recv_region { bytes = replicate (length mem.recv_region.bytes) 255 };
}

hostile-IsPeer : IsPeer hostile
hostile-IsPeer = record {
  keeps_length = λ mem. length-replicate (length mem.recv_region.bytes) 255;
  is_byte = λ mem i. get_or-replicate (length mem.recv_region.bytes) i;
}

init-returns_example :
    (answer : Option (Result (IcMsg ℕ ℕ × Regions) InitError)) × (init debug 4 config 0 5
        (second ∷ first ∷ [])
        hostile
        blanks
      ≡ done answer)
    × (has_value answer ≡ answered (second ∷ first ∷ []))
init-returns_example =
    init-returns debug 4 config 0 5 (second ∷ first ∷ []) hostile blanks config-IsGood
      hostile-IsPeer
