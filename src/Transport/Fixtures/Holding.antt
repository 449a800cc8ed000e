-- ===== src/Transport/Fixtures/Holding.antt =====
-- A channel that holds one message, for the tests.
use icmsg_rs.Prelude.{ℕ, zero, suc, ◌+◌, ◌<◌, ◌≡◌, refl, [], ◌∷◌, get_or, replicate, arith}
use icmsg_rs.Integer.{load}
use icmsg_rs.Transport.Region.{SharedMemoryRegion}
use icmsg_rs.Transport.Cursor.Laws.{wrap}
use icmsg_rs.Transport.Sender.{Sender as TransportSender}
use icmsg_rs.Transport.Receiver.{Receiver as TransportReceiver}
use icmsg_rs.Transport.Refine.{Represents}
use icmsg_rs.Transport.Fixtures.{debug, ring_24}

abbrev pub sender_at : ℕ → TransportSender ℕ
sender_at i = record { send_buffer_len = 24; mbox = 0; send_wr_idx = i }

abbrev pub receiver_at : ℕ → TransportReceiver
receiver_at i = record { recv_buffer_len = 24; recv_rd_idx = i }

-- The message 7, 8 at the start of the data buffer.
abbrev pub region_78 : SharedMemoryRegion
region_78 = record {
  rd_idx = record { raw = 0 };
  wr_idx = record { raw = 8 };
  bytes = 0 ∷ 2 ∷ 170 ∷ 170 ∷ 7 ∷ 8 ∷ replicate 18 0;
}

payload_78 :
    (i : ℕ) → i < 2 → get_or region_78.bytes (wrap 24 (0 + (4 + i))) 0 ≡ get_or (7 ∷ 8 ∷ []) i 0
payload_78 zero h = refl
payload_78 (suc zero) h = refl
payload_78 (suc (suc i)) h = absurd (omega arith)

pub channel_78 : Represents debug 24 (sender_at 8) region_78 (receiver_at 0) ((7 ∷ 8 ∷ []) ∷ [])
unfolding load
channel_78 = record {
  send_len = refl;
  recv_len = refl;
  rd_shared = refl;
  wr_shared = refl;
  stored = record {
    ring = ring_24;
    whole = refl;
    reader = record { aligned = refl; in_ring = omega arith };
    room = omega arith;
    writer = refl;
    holds = (record { short = omega arith; high = refl; low = refl; payload = payload_78 }, tt);
  };
}
