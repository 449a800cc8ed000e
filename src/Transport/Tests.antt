-- ===== src/Transport/Tests.antt =====
-- The transport at concrete inputs: runs that can be followed in src/transport.rs, and an instance of
-- each theorem of the modules beside this one that has hypotheses.
use icmsg_rs.Prelude.{
  ℕ, zero, suc, ◌+◌, ◌%◌, ◌^◌, ◌<◌, ◌≡◌, refl, List, [], ◌∷◌, ◌++◌, length, replicate,
  length-replicate, get_or, arith, slice, splice,
}
use icmsg_rs.Machine.{done, undefined, Result, ok, err}
use icmsg_rs.Integer
use icmsg_rs.Integer.{load, from_u16}
use icmsg_rs.Transport.Region.{
  SharedMemoryRegion, SendError, RecvError, message_too_big, insufficient_capacity,
}
use icmsg_rs.Transport.Fixtures.{debug, counting, ring_24, blank}
use icmsg_rs.Transport.Cursor.Laws.{wrap}
use icmsg_rs.Transport.Queue
use icmsg_rs.Transport.Queue.{packet_size}
use icmsg_rs.Transport.Sender.{Sender, send}
use icmsg_rs.Transport.Receiver.{Receiver, try_recv}
use icmsg_rs.Transport.Refine.{Represents, send_refines, try_recv_refines}
use icmsg_rs.Transport.Calls
use icmsg_rs.Transport.Calls.{Call, run, run_queue, run_refines}
use icmsg_rs.Transport.Untrusted.Recv
use icmsg_rs.Transport.Untrusted.Recv.{Answers, verdict, try_recv_contained}
use icmsg_rs.Transport.Untrusted.Send
use icmsg_rs.Transport.Untrusted.Send.{send_contained}
use icmsg_rs.Transport.Untrusted.Overrun.{send-undefined}
use icmsg_rs.Transport.Truncation.{send_truncates}
use icmsg_rs.Transport.Layout.{rd_idx_offset, wr_idx_offset, header_layout, header_layout_lem}
use icmsg_rs.Transport.IcMsgTransport.New.{fresh-Represents}

abbrev sender_at : ℕ → Sender ℕ
sender_at i = record { send_buffer_len = 24; mbox = 0; send_wr_idx = i }

abbrev receiver_at : ℕ → Receiver
receiver_at i = record { recv_buffer_len = 24; recv_rd_idx = i }

-- The message 7, 8 at the end of the data buffer, its payload at the start.
abbrev region_78 : SharedMemoryRegion
region_78 = record {
  rd_idx = record { raw = 20 };
  wr_idx = record { raw = 4 };
  bytes = 7 ∷ 8 ∷ replicate 18 0 ++ (0 ∷ 2 ∷ 170 ∷ 170 ∷ []);
}

abbrev fresh_channel : Represents debug 24 (sender_at 0) blank (receiver_at 0) []
unfolding Integer.new
fresh_channel = fresh-Represents debug 0 blank ring_24 refl

payload_78 :
    (i : ℕ) → i < 2 → get_or region_78.bytes (wrap 24 (20 + (4 + i))) 0 ≡ get_or (7 ∷ 8 ∷ []) i 0
payload_78 zero h = refl
payload_78 (suc zero) h = refl
payload_78 (suc (suc i)) h = absurd (omega arith)

channel_78 : Represents debug 24 (sender_at 4) region_78 (receiver_at 20) ((7 ∷ 8 ∷ []) ∷ [])
unfolding load
channel_78 = record {
  send_len = refl;
  recv_len = refl;
  rd_shared = refl;
  wr_shared = refl;
  stored = record {
    ring = ring_24;
    whole = refl;
    reader = record { aligned = refl; in_ring = omega arith };
    room = omega arith;
    writer = refl;
    holds = (record { short = omega arith; high = refl; low = refl; payload = payload_78 }, tt);
  };
}

abbrev script : List Call
script =
    Calls.send (1 ∷ 2 ∷ 3 ∷ 4 ∷ 5 ∷ [])
    ∷ Calls.send (6 ∷ [])
    ∷ Calls.send (9 ∷ [])
    ∷ Calls.try_recv (0 ∷ [])
    ∷ Calls.try_recv (0 ∷ 0 ∷ 0 ∷ 0 ∷ 0 ∷ 0 ∷ [])
    ∷ Calls.send (9 ∷ [])
    ∷ Calls.try_recv (0 ∷ 0 ∷ [])
    ∷ Calls.try_recv (0 ∷ 0 ∷ [])
    ∷ Calls.try_recv (0 ∷ 0 ∷ [])
    ∷ []

run-script :
    run debug (sender_at 0) blank (receiver_at 0) script
    ≡ done (
        Calls.sent (ok tt)
        ∷ Calls.sent (ok tt)
        ∷ Calls.sent (err insufficient_capacity)
        ∷ Calls.received (0 ∷ []) (err message_too_big)
        ∷ Calls.received (1 ∷ 2 ∷ 3 ∷ 4 ∷ 5 ∷ 0 ∷ []) (ok 5)
        ∷ Calls.sent (ok tt)
        ∷ Calls.received (6 ∷ 0 ∷ []) (ok 1)
        ∷ Calls.received (9 ∷ 0 ∷ []) (ok 1)
        ∷ Calls.received (0 ∷ 0 ∷ []) (err RecvError.empty)
        ∷ [])
unfolding run slice splice from_u16
run-script = refl

layout_128 : (rd_idx_offset 128 ≡ 0) × (wr_idx_offset 128 ≡ 128)
unfolding rd_idx_offset wr_idx_offset
layout_128 = (refl, refl)

send_refines_example :
    (s' : Sender ℕ) × (region' : SharedMemoryRegion) × (send debug (sender_at 4) region_78 (9 ∷ [])
      ≡ done (s', region', (Queue.send 24 ((7 ∷ 8 ∷ []) ∷ []) (9 ∷ [])).1))
    × Represents debug 24 s' region' (receiver_at 20) (Queue.send 24 ((7 ∷ 8 ∷ []) ∷ []) (9 ∷ [])).0
send_refines_example = send_refines debug (9 ∷ []) (omega arith) channel_78

try_recv_refines_example :
    (r' : Receiver) × (region' : SharedMemoryRegion) × (try_recv debug
        (receiver_at 20)
        region_78
        (0 ∷ 0 ∷ 5 ∷ [])
      ≡ done (
        r',
        region',
        (Queue.try_recv ((7 ∷ 8 ∷ []) ∷ []) (0 ∷ 0 ∷ 5 ∷ [])).1,
        (Queue.try_recv ((7 ∷ 8 ∷ []) ∷ []) (0 ∷ 0 ∷ 5 ∷ [])).2,
      ))
    × Represents debug 24
        (sender_at 4)
        region'
        r'
        (Queue.try_recv ((7 ∷ 8 ∷ []) ∷ []) (0 ∷ 0 ∷ 5 ∷ [])).0
try_recv_refines_example = try_recv_refines debug ((7 ∷ 8 ∷ []) ∷ []) (0 ∷ 0 ∷ 5 ∷ []) channel_78

run_refines_example :
    run debug (sender_at 4) region_78 (receiver_at 20) script
    ≡ done (run_queue 24 ((7 ∷ 8 ∷ []) ∷ []) script)
run_refines_example = run_refines debug script (omega arith) channel_78

header_layout_example :
    (rd_idx_offset 4 ≡ 0)
    × (wr_idx_offset 4 ≡ 4)
    × ((header_layout 4).size ≡ 8)
    × ((header_layout 4).align ≡ 4)
header_layout_example = header_layout_lem 4 (omega arith)

-- The write index and the bytes are the peer's: the header at 20 states 65535 bytes.
abbrev hostile_region : SharedMemoryRegion
hostile_region = record {
  rd_idx = record { raw = 3 };
  wr_idx = record { raw = 4000000000 };
  bytes = replicate 20 0 ++ (255 ∷ 255 ∷ 0 ∷ 0 ∷ []);
}

abbrev AllBytes : List ℕ → Type 0
AllBytes [] = Unit
AllBytes (x ∷ xs) = (x < 256) × AllBytes xs

hostile_byte : (xs : List ℕ) (i : ℕ) → AllBytes xs → get_or xs i 0 < 256
hostile_byte [] i h = omega arith
hostile_byte (x ∷ xs) zero h = h.0
hostile_byte (x ∷ xs) (suc i) h = hostile_byte xs i h.1

hostile_ready : Recv.IsReady hostile_region (receiver_at 20)
hostile_ready = record {
  ring = ring_24;
  whole = refl;
  reader = record { aligned = refl; in_ring = omega arith };
  is_byte = λ i. hostile_byte hostile_region.bytes i (omega arith);
}

try_recv_contained_example :
    Answers debug
      (0 ∷ [])
      hostile_ready
      (verdict 4000000000 (receiver_at 20) hostile_region.bytes (0 ∷ []))
unfolding load
try_recv_contained_example = try_recv_contained debug (0 ∷ []) hostile_ready

sender_ready : Send.IsReady blank (sender_at 8)
sender_ready = record {
  ring = ring_24;
  whole = refl;
  writer = record { aligned = refl; in_ring = omega arith };
}

send_contained_example :
    (s' : Sender ℕ) × (region' : SharedMemoryRegion) × (res : Result (Unit {0}) SendError) × (send
        debug
        (sender_at 8)
        blank
        (9 ∷ [])
      ≡ done (s', region', res))
    × Send.IsReady region' s'
    × (region'.rd_idx ≡ blank.rd_idx)
unfolding load
send_contained_example = send_contained debug (9 ∷ []) sender_ready (omega arith)

-- A read index far outside the ring.
abbrev far_region : SharedMemoryRegion
far_region = record blank { rd_idx = record { raw = 1000 } }

send-undefined_example : send debug (sender_at 8) far_region (replicate 60 1) ≡ undefined
unfolding load
send-undefined_example =
    send-undefined debug (replicate 60 1)
      (record { ring = ring_24; whole = refl; writer = sender_ready.writer }) (omega arith)
      (omega arith)

-- Large data, kept shut.
unfoldable long_msg : List ℕ
long_msg = replicate 65537 1

unfoldable long_bytes : List ℕ
long_bytes = replicate 65600 0

length-long_msg : length long_msg ≡ 65537
unfolding long_msg
length-long_msg = length-replicate {A = ℕ} 65537 1

length-long_bytes : length long_bytes ≡ 65600
unfolding long_bytes
length-long_bytes = length-replicate {A = ℕ} 65600 0

abbrev long_region : SharedMemoryRegion
long_region = record blank { bytes = long_bytes }

long_channel :
    Represents {M = ℕ} debug 65600
      (record { send_buffer_len = 65600; mbox = 0; send_wr_idx = 0 })
      long_region
      (record { recv_buffer_len = 65600; recv_rd_idx = 0 })
      []
unfolding Integer.new
long_channel =
    fresh-Represents debug 0 long_region
      (record { whole_words = refl; nonempty = omega arith; small = omega arith }) length-long_bytes

send_truncates_example :
    (s' : Sender ℕ) × (region' : SharedMemoryRegion) × (send debug
        (record { send_buffer_len = 65600; mbox = 0; send_wr_idx = 0 })
        long_region
        long_msg
      ≡ done (s', region', ok tt))
    × ((r' : Receiver) × (region'' : SharedMemoryRegion) × (buf' : List ℕ) × (try_recv debug
            (record { recv_buffer_len = 65600; recv_rd_idx = 0 })
            region'
            long_msg
          ≡ done (r', region'', buf', ok (length long_msg % 2 ^ 16)))
        × (length long_msg % 2 ^ 16 < length long_msg))
send_truncates_example =
    send_truncates debug long_msg long_msg long_channel (omega (arith, length-long_msg))
      (omega (arith, length-long_msg)) (omega arith)
