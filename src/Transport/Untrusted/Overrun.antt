-- ===== src/Transport/Untrusted/Overrun.antt =====
-- `send` with a read index outside the ring: it is not checked, although `SendError::InvalidState` is
-- documented as the answer to it.
use icmsg_rs.Prelude.{
  ℕ, ◌+◌, ◌-◌, ◌<◌, ◌≡◌, refl, ◌∙◌, List, arith, length, take, drop, splice, length-take,
  length-drop, length-splice, lt→ltb, le→not-ltb,
}
use icmsg_rs.Machine.{done, undefined, Target, as_u16}
use icmsg_rs.Machine.Laws.{sub_u32-eq, split_at-eq, write_bytes-eq, write_bytes-undefined}
use icmsg_rs.Integer.{load}
use icmsg_rs.Transport.Region.{SharedMemoryRegion, Notifier, padded_len}
use icmsg_rs.Transport.Region.Laws.{header_bytes-new}
use icmsg_rs.Transport.Cursor.{free_space}
use icmsg_rs.Transport.Cursor.Laws.{wrap, IsIndex, after_header-eq, wrap-IsIndex}
use icmsg_rs.Transport.Queue.{packet_size}
use icmsg_rs.Transport.Sender.{Sender, copy_in, write_packet, fill, send}
use icmsg_rs.Transport.Sender.Fill.{packet_header}
use icmsg_rs.Transport.Untrusted.Send.{IsReady}

-- A payload that goes round the ring more than once.
copy_in-undefined :
    (t : Target) {size : ℕ} (start : ℕ) (msg before : List ℕ)
    → length before ≡ size
    → start < size
    → size + size < start + length msg
    → copy_in t size start before msg ≡ undefined
unfolding copy_in
copy_in-undefined t {size} start msg before e s h = rw (
  sub_u32-eq t.overflow_checks size start (omega arith),
  lt→ltb (size - start) (length msg) (omega arith),
  split_at-eq (size - start) msg (omega arith),
  write_bytes-eq before start front (omega (arith, length-front)),
  write_bytes-undefined (splice before start front) 0 (drop (size - start) msg)
      (omega (arith, length-once, length-drop (size - start) msg)),
)
  where
    front : List ℕ
    front = take (size - start) msg

    length-front : length front ≡ size - start
    length-front = omega (arith, length-take (size - start) msg)

    length-once : length (splice before start front) ≡ size
    length-once = length-splice before start front (omega (arith, length-front)) ∙ e

-- With a read index so far ahead that the free space comes out larger than the packet, `send` of a
-- message that goes round the ring more than once writes outside the data buffer.
pub send-undefined {ℓ} :
    {M : Type ℓ} ⦃notifier : Notifier M⦄ (t : Target) {s : Sender M} {region : SharedMemoryRegion}
    (msg : List ℕ)
    → IsReady region s
    → s.send_wr_idx + packet_size (length msg) < load t.endian region.rd_idx
    → s.send_buffer_len + s.send_buffer_len
      < wrap s.send_buffer_len (s.send_wr_idx + 4) + length msg
    → send t s region msg ≡ undefined
unfolding send fill write_packet
send-undefined t {s} {region} msg rd far long =
    let size = s.send_buffer_len in
    let rd_idx = load t.endian region.rd_idx in
    let head = packet_header t (as_u16 (length msg)) in
    let wr = rd.writer.in_ring in
    let free : free_space t.overflow_checks size rd_idx s.send_wr_idx
        ≡ done (rd_idx - s.send_wr_idx - 1) =
      unfold free_space in ground arith in
    let next : IsIndex size (wrap size (s.send_wr_idx + 4)) =
      wrap-IsIndex s.send_wr_idx 4 rd.ring rd.writer (omega arith) refl in
    let a = rd.writer.aligned in
    let headed = rd.whole in
    rw (
      free,
      le→not-ltb (rd_idx - s.send_wr_idx - 1) (padded_len (length msg) + 4) (omega arith),
      header_bytes-new t (as_u16 (length msg)) (omega arith),
      write_bytes-eq region.bytes s.send_wr_idx head (ground arith),
      after_header-eq t.overflow_checks rd.ring s.send_wr_idx rd.writer,
      copy_in-undefined t (wrap size (s.send_wr_idx + 4)) msg
          (splice region.bytes s.send_wr_idx head)
          (length-splice region.bytes s.send_wr_idx head (ground arith) ∙ rd.whole) next.in_ring
          long,
    )
