-- ===== src/Transport/Untrusted/Send.antt =====
-- `send` with a read index that the peer has set to anything inside the ring.
use icmsg_rs.Prelude.{ℕ, ◌+◌, ◌-◌, ◌<◌, ◌≡◌, refl, List, arith, dec_lt, length, lt→ltb, le→not-ltb}
use icmsg_rs.Machine.{done, Target, Result, ok, err}
use icmsg_rs.Integer.{load, store}
use icmsg_rs.Transport.Region.{
  SharedMemoryRegion, Notifier, SendError, insufficient_capacity, padded_len,
}
use icmsg_rs.Transport.Cursor.Laws.{wrap, ahead, IsRing, IsIndex, free_space-eq, wrap-IsIndex}
use icmsg_rs.Transport.Sender.{Sender, fill, send}
use icmsg_rs.Transport.Sender.Fill.{write_packet_lem}

-- The data buffer is as long as the sender thinks, and the sender stands at a word of it.
pub record IsReady {ℓ} {M : Type ℓ} (region : SharedMemoryRegion) (s : Sender M) : Type 0 where
  pub ring : IsRing s.send_buffer_len
  pub whole : length region.bytes ≡ s.send_buffer_len
  pub writer : IsIndex s.send_buffer_len s.send_wr_idx

module _ {ℓ} {M : Type ℓ} ⦃notifier : Notifier M⦄ (t : Target) {s : Sender M} where
  -- If the read index lies inside the ring, right or wrong, then `send` returns: it does not panic and
  -- writes no byte outside the data buffer. It leaves the read index alone and the sender at a word of
  -- the ring.
  pub send_contained :
      {region : SharedMemoryRegion} (msg : List ℕ)
      → IsReady region s
      → load t.endian region.rd_idx < s.send_buffer_len
      → (s' : Sender M) × (region' : SharedMemoryRegion) × (res : Result (Unit {0}) SendError)
        × (send t s region msg ≡ done (s', region', res))
        × IsReady region' s'
        × (region'.rd_idx ≡ region.rd_idx)
  unfolding send fill
  send_contained {region} msg rd inside =
      let size = s.send_buffer_len in
      let rd_idx = load t.endian region.rd_idx in
      let used = ahead size rd_idx s.send_wr_idx in
      let n = length msg in
      let wr = rd.writer.in_ring in
      let free =
        free_space-eq t.overflow_checks rd.ring rd_idx s.send_wr_idx used inside (ground arith)
          (ground arith) in
      elim (dec_lt (size - used - 1) (padded_len n + 4)) [
        | yes full ↦ (s, region, err insufficient_capacity, rw (free, lt→ltb _ _ full), rd, refl)
        | no fits ↦
            let (after, wrote, written) =
              write_packet_lem t rd.ring s.send_wr_idx msg region.bytes rd.whole rd.writer
                (omega arith) in
            let next : IsIndex size (wrap size (s.send_wr_idx + 4)) =
              wrap-IsIndex s.send_wr_idx 4 rd.ring rd.writer (omega arith) refl in
            let behind = wrap size (wrap size (s.send_wr_idx + 4) + padded_len n) in
            (
              record s { send_wr_idx = behind; mbox = notifier.notify s.mbox },
              record region { wr_idx = store t.endian region.wr_idx behind; bytes = after },
              ok tt,
              rw (free, le→not-ltb (size - used - 1) (padded_len n + 4) (omega arith), wrote),
              record {
                ring = rd.ring;
                whole = written.keeps_length;
                writer =
                    wrap-IsIndex (wrap size (s.send_wr_idx + 4)) (padded_len n) rd.ring next
                      (omega arith) (omega arith);
              },
              refl,
            )
      ]
