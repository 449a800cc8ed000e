-- ===== src/Example/ChannelTests.antt =====
-- The packets of the example over a channel with a ring of 24 bytes, and the memory of its two cores, at
-- concrete inputs: Hci/Forward, Hci/Receive, MyTransport, Config and Spu.
use icmsg_rs.Prelude.{
  ◌+◌, ◌<◌, ◌⊎◌, ℕ, ◌-◌, ◌≡◌, ◌≤◌, ◌%◌, ◌^◌, refl, true, false, some, [], ◌∷◌, arith, replicate,
}
use icmsg_rs.Transport.Region.{SharedMemoryRegion}
use icmsg_rs.Transport.Refine.{Represents}
use icmsg_rs.IcMsg.Defs.{Sender}
use icmsg_rs.Machine.{ok, err, done, panicked, Target}
use icmsg_rs.Transport.Fixtures.{debug, counting, blank}
use icmsg_rs.Transport.Fixtures.Holding.{region_78, channel_78}
use icmsg_rs.IcMsg.Recv.{Round}
use icmsg_rs.Example.Hci.{PacketKind, acl_data, event, receive_task}
use icmsg_rs.Example.Hci.Forward.{Packet, answer, send_loop, send_loop_full}
use icmsg_rs.Example.Hci.Receive.{receive_loop, receive_loop_long}
use icmsg_rs.Example.MyTransport.{write, write_refines, io_error, write_zero}
use icmsg_rs.Example.Config.{LinkerSymbols, buffer_len, IsLinked, buffer_len_wraps}
use icmsg_rs.Example.Spu.{Spu, grant_spu, IsGranted, grant_spu-IsGranted, secure}
use icmsg_rs.Example.Fixtures.{recorder, lengths, sender, receiver, fresh_channel}

abbrev kind_byte : PacketKind → ℕ
kind_byte k = 4

-- The loop panics at an event that is longer than the ring.
abbrev long_packet : Packet
long_packet = record { kind = event; body = 14 ∷ 18 ∷ replicate 18 0; spare = [] }

forwards_long_packet :
    send_loop debug lengths kind_byte {E = ℕ} sender blank (answer long_packet ∷ []) ≡ panicked
unfolding icmsg_rs.Example.Hci.packet_len
forwards_long_packet =
    send_loop_full debug lengths kind_byte ℕ long_packet []
      (record { stated = refl; short = omega arith }) (omega arith) fresh_channel

abbrev round_78 : Round
round_78 = record { peer = λ region. region_78; pending = false; woken = false }

receive_loop_long_example :
    receive_loop recorder debug ((round_78 ∷ []) ∷ []) receiver blank (0 ∷ []) []
    ≡ done (record { controller = []; returned = true; receiver = receiver; region = region_78 })
receive_loop_long_example =
    receive_loop_long recorder debug (7 ∷ 8 ∷ []) [] round_78 [] [] receiver blank (0 ∷ []) []
      (omega arith) channel_78

write_refines_example :
    ((0 + 8 < 24)
      × (s' : Sender ℕ) × (region' : SharedMemoryRegion) × (write debug 2
            ((2 ∷ []) ∷ (7 ∷ 8 ∷ []) ∷ [])
            sender
            blank
          ≡ done (s', region', ok tt))
      × Represents debug 24 s'.transport region' receiver.transport ((2 ∷ 7 ∷ 8 ∷ []) ∷ []))
    ⊎ ((24 ≤ 0 + 8)
        × (write debug 2 ((2 ∷ []) ∷ (7 ∷ 8 ∷ []) ∷ []) sender blank
            ≡ done (sender, blank, err (io_error write_zero))))
write_refines_example =
    write_refines debug {r = receiver.transport} 2 ((2 ∷ []) ∷ (7 ∷ 8 ∷ []) ∷ []) sender blank
      (omega arith) refl fresh_channel

-- Two regions of 32 bytes at the end of the RAM of the application core.
abbrev symbols : LinkerSymbols
symbols = record {
  tx_start = 0x20070000;
  tx_end = 0x20070020;
  rx_start = 0x20078000;
  rx_end = 0x20078020;
}

symbols-IsLinked : IsLinked symbols
symbols-IsLinked = record {
  tx = record {
    aligned = refl;
    whole_words = refl;
    room = omega arith;
    small = omega arith;
    addressable = omega arith;
  };
  rx = record {
    aligned = refl;
    whole_words = refl;
    room = omega arith;
    small = omega arith;
    addressable = omega arith;
  };
}

abbrev release : Target
release = record debug { overflow_checks = false; debug_assertions = false }

-- A region of one word.
buffer_len_wraps_example :
    (n : ℕ) × (buffer_len release 0x20070000 0x20070004 ≡ done n) × (2 ^ 32 - 8 ≤ n) × (n % 4 ≡ 0)
buffer_len_wraps_example =
    buffer_len_wraps release 0x20070000 0x20070004 refl (omega arith) (omega arith) (omega arith)
      refl

-- Every region is closed before.
abbrev closed : Spu
closed = record {
  ramregion = λ i. record { read = true; write = true; execute = true; secattr = true };
  extdomain = λ i. secure;
}

grant_spu-IsGranted_example : IsGranted symbols (some 0) closed (grant_spu symbols (some 0) closed)
grant_spu-IsGranted_example =
    grant_spu-IsGranted symbols (some 0) closed (omega arith) (omega arith) (omega arith)
      (omega arith)
