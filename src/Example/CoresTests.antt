-- ===== src/Example/CoresTests.antt =====
-- Turns of the two cores at a concrete input, over two channels and from power-up on.
use icmsg_rs.Prelude.{
  zero, suc, ◌+◌, ◌<◌, get_or, ℕ, ◌≡◌, refl, some, List, [], ◌∷◌, arith, replicate, length, ap, sym,
}
use icmsg_rs.Machine.{done, panicked, Result, ok, err}
use icmsg_rs.Transport.Region.{SharedMemoryRegion}
use icmsg_rs.Integer
use icmsg_rs.Integer.{load}
use icmsg_rs.Transport.IcMsgTransport.New.{fresh-Represents}
use icmsg_rs.Example.Cores.Settle.{take_turns-settle}
use icmsg_rs.Transport.Cursor.Laws.{wrap, IsRing}
use icmsg_rs.Transport.Refine.{Represents}
use icmsg_rs.Transport.Fixtures.{debug, counting, blank, ring_24}
use icmsg_rs.Transport.Fixtures.Holding.{sender_at, receiver_at, region_78, channel_78}
use icmsg_rs.Example.MyTransport.{parsed}
use icmsg_rs.Example.Cores.Drain.{AllRoom, drain, drained, take_turns-drain}
use icmsg_rs.Example.Hci.{PacketKind, event, CmdErr}
use icmsg_rs.Example.Hci.Forward.{Packet}
use icmsg_rs.Example.Hci.Short.{IsSized}
use icmsg_rs.Example.Start.{Connects}
use icmsg_rs.Example.Cores.{
  Parts, Turn, host_write, net_recv, net_send, host_read, Cores, take_turns, Queues, run_queues,
}
use icmsg_rs.Example.Cores.Simulates.{Simulates, AllGoodTurns, Matches}
use icmsg_rs.Example.Cores.Refine.{take_turns_refine}
use icmsg_rs.Example.Cores.Start.{started, empty_queues, connect-take_turns}
use icmsg_rs.Example.Fixtures.{
  set, path, rand_command, lengths, sender, receiver, fresh_channel, symbols, symbols-IsLinked,
  blank_72,
}

abbrev parts : Parts ℕ ℕ ℕ
parts = record {
  set = set;
  path = path;
  lengths = lengths;
  kind_byte = λ kind. 4;
  parse = λ bytes. some (length bytes);
}

abbrev returned_len : Result (List ℕ) (CmdErr ℕ) → ℕ
returned_len (ok ret) = length ret
returned_len (err e) = 0

set-IsSized : IsSized set
set-IsSized = record {
  fits = λ ctrl c payload ret e. ap returned_len (sym e);
  small = λ c. omega arith;
}

-- An event that the controller has by itself, and one that the ring has no room for.
abbrev event_packet : Packet
event_packet = record { kind = event; body = 14 ∷ 1 ∷ 5 ∷ []; spare = 170 ∷ [] }

abbrev long_packet : Packet
long_packet = record { kind = event; body = 14 ∷ 18 ∷ replicate 18 0; spare = [] }

-- The event crosses the command on its way.
abbrev turns : List Turn
turns =
    host_write (record { size = 3; srcs = rand_command ∷ [] })
    ∷ net_send event_packet
    ∷ host_read (replicate 16 0)
    ∷ net_recv
    ∷ net_recv
    ∷ host_read (replicate 16 0)
    ∷ host_read (replicate 16 0)
    ∷ []

abbrev cores : Cores ℕ ℕ ℕ ℕ
cores = started sender receiver blank sender receiver blank 0 (replicate 8 0)

abbrev queues : Queues ℕ ℕ
queues = empty_queues 0

-- The host hears the event and the answer of its command, and the third read waits.
both_heard :
    run_queues parts 24 24 8 queues turns
    ≡ done (record queues { controller = 1; written = ok tt ∷ []; heard = ok 15 ∷ ok 4 ∷ [] })
unfolding run_queues icmsg_rs.Example.Hci.Replies.packet_reply
    icmsg_rs.Example.Hci.Replies.packet_executed icmsg_rs.Example.Dispatch.Replies.arm_of
    icmsg_rs.Example.Dispatch.answer
both_heard = refl

no_room :
    run_queues parts 24 24 8 queues (net_send long_packet ∷ host_read (replicate 32 0) ∷ [])
    ≡ panicked
unfolding run_queues
no_room = refl

turns_good : AllGoodTurns parts turns
unfolding icmsg_rs.Example.Hci.packet_len
turns_good = (
  record { small = omega arith; whole = refl },
  (record { stated = refl; short = omega arith }, (tt, (tt, (tt, (tt, (tt, tt)))))),
)

take_turns_refine_example :
    Matches debug 24 24 8
      (take_turns debug parts cores turns)
      (run_queues parts 24 24 8 queues turns)
take_turns_refine_example =
    take_turns_refine debug parts 24 24 8 set-IsSized turns cores queues turns_good (record {
      forth = fresh_channel;
      home = fresh_channel;
      controller = refl;
      buf = refl;
      returned = refl;
      written = refl;
      heard = refl;
    })

connect-take_turns_example :
    Connects {M = ℕ} {W = ℕ} debug symbols 0 0 5 6 1 0 [] [] blank_72 blank
      (λ send_a recv_b forth send_b recv_a home.
        Matches debug 72 24 8
          (take_turns debug parts
            (started send_a recv_b forth send_b recv_a home 0 (replicate 8 0))
            turns)
          (run_queues parts 72 24 8 queues turns))
connect-take_turns_example =
    connect-take_turns debug parts set-IsSized symbols 0 0 5 6 1 0 [] [] blank_72 blank 0
      (replicate 8 0) turns symbols-IsLinked refl refl turns_good

-- The command on its way to the network core, at the start of the data buffer.
abbrev region_rand : SharedMemoryRegion
region_rand = record {
  rd_idx = record { raw = 0 };
  wr_idx = record { raw = 8 };
  bytes = 0 ∷ 4 ∷ 170 ∷ 170 ∷ 1 ∷ 24 ∷ 32 ∷ 0 ∷ replicate 16 0;
}

payload_rand :
    (i : ℕ) → i < 4 → get_or region_rand.bytes (wrap 24 (0 + (4 + i))) 0 ≡ get_or rand_command i 0
payload_rand zero h = refl
payload_rand (suc zero) h = refl
payload_rand (suc (suc zero)) h = refl
payload_rand (suc (suc (suc zero))) h = refl
payload_rand (suc (suc (suc (suc i)))) h = absurd (omega arith)

channel_rand : Represents debug 24 (sender_at 8) region_rand (receiver_at 0) (rand_command ∷ [])
unfolding load
channel_rand = record {
  send_len = refl;
  recv_len = refl;
  rd_shared = refl;
  wr_shared = refl;
  stored = record {
    ring = ring_24;
    whole = refl;
    reader = record { aligned = refl; in_ring = omega arith };
    room = omega arith;
    writer = refl;
    holds = (record { short = omega arith; high = refl; low = refl; payload = payload_rand }, tt);
  };
}

-- The command on its way, and a message of two bytes on the way back.
abbrev busy_cores : Cores ℕ ℕ ℕ ℕ
busy_cores = record cores {
  host_sender = record { transport = sender_at 8 };
  net_receiver = record { transport = receiver_at 0; waiter = 5 };
  forth = region_rand;
  net_sender = record { transport = sender_at 8 };
  host_receiver = record { transport = receiver_at 0; waiter = 5 };
  home = region_78;
}

abbrev busy_queues : Queues ℕ ℕ
busy_queues = record queues { to_net = rand_command ∷ []; to_host = (7 ∷ 8 ∷ []) ∷ [] }

room : AllRoom parts 24 0 (rand_command ∷ [])
unfolding icmsg_rs.Example.Hci.Replies.packet_reply icmsg_rs.Example.Dispatch.Replies.arm_of
    icmsg_rs.Example.Dispatch.answer
room = (omega arith, tt)

take_turns-drain_example :
    (cores' : Cores ℕ ℕ ℕ ℕ) × (take_turns debug parts busy_cores (drain parts busy_queues)
      ≡ done cores')
    × Simulates debug 24 24 8 cores' (drained parts busy_queues)
take_turns-drain_example =
    take_turns-drain debug parts 24 24 8 set-IsSized busy_cores busy_queues
      (record {
        forth = channel_rand;
        home = channel_78;
        controller = refl;
        buf = refl;
        returned = refl;
        written = refl;
        heard = refl;
      })
      refl (omega arith, tt) room

-- The host has then heard the message and the answer.
drained_heard : (drained parts busy_queues).heard ≡ ok 15 ∷ ok 2 ∷ []
unfolding icmsg_rs.Example.Hci.Task.replies icmsg_rs.Example.Hci.Replies.packet_reply
    icmsg_rs.Example.Hci.Replies.packet_executed icmsg_rs.Example.Dispatch.Replies.arm_of
    icmsg_rs.Example.Dispatch.answer parsed
drained_heard = refl

-- A ring of 272 bytes on the way back.
abbrev blank_272 : SharedMemoryRegion
blank_272 = record blank { bytes = replicate 272 0 }

ring_272 : IsRing 272
ring_272 = record { whole_words = refl; nonempty = omega arith; small = omega arith }

abbrev wide_cores : Cores ℕ ℕ ℕ ℕ
wide_cores =
    started sender receiver blank
      (record { transport = record { send_buffer_len = 272; mbox = 0; send_wr_idx = 0 } })
      (record { transport = record { recv_buffer_len = 272; recv_rd_idx = 0 }; waiter = 5 })
      blank_272 0 (replicate 8 0)

wide : Simulates debug 24 272 8 wide_cores queues
unfolding Integer.new
wide = record {
  forth = fresh_channel;
  home = fresh-Represents debug 0 blank_272 ring_272 refl;
  controller = refl;
  buf = refl;
  returned = refl;
  written = refl;
  heard = refl;
}

-- The command is written.
abbrev written_cores : Cores ℕ ℕ ℕ ℕ
written_cores = record wide_cores {
  host_sender = record { transport = record { send_buffer_len = 24; mbox = 1; send_wr_idx = 8 } };
  forth = region_rand;
  written = ok tt ∷ [];
}

writes_command :
    take_turns debug parts wide_cores
      (host_write (record { size = 3; srcs = rand_command ∷ [] }) ∷ [])
    ≡ done written_cores
unfolding take_turns icmsg_rs.Example.WriteBuf.write_inner icmsg_rs.Transport.Sender.send
    Integer.from_u16
writes_command = refl

take_turns-settle_example :
    (qs' : Queues ℕ ℕ) × Simulates debug 24 272 8 written_cores qs'
    × (cores'' : Cores ℕ ℕ ℕ ℕ) × (take_turns debug parts written_cores (drain parts qs')
        ≡ done cores'')
    × Simulates debug 24 272 8 cores'' (drained parts qs')
take_turns-settle_example =
    take_turns-settle debug parts 24 272 8 set-IsSized
      (host_write (record { size = 3; srcs = rand_command ∷ [] }) ∷ []) wide_cores written_cores
      queues (omega arith) (record { small = omega arith; whole = refl }, tt) (omega arith, tt) wide
      (record { running = refl; fits = tt }) writes_command
