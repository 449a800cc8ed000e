-- ===== src/Transport/Reference.antt =====
-- A reference for the packet code of src/transport.rs that goes round the ring one byte at a time, and that
-- the code, with its copies in one or two parts, computes the same.
pub mod Bytes
use icmsg_rs.Prelude.{
  ℕ, zero, suc, ◌+◌, ◌-◌, ◌%◌, ◌≤◌, ◌<◌, ◌≡◌, ◌≢◌, refl, sym, ◌∙◌, ap, List, [], ◌∷◌, ◌++◌, arith,
  dec_lt, ℕ_discrete, ltb, ◌==◌, if◌then◌else◌, lt→ltb, le→not-ltb, ne→not-==, ==_iff, length, drop,
  get_or, splice, list_ext, length-append, length-drop, get_or-append_left, get_or-append_right,
  get_or-drop,
}
use icmsg_rs.Machine.{done, Result, ok, err, Target}
use icmsg_rs.Transport.Region.{
  SendError, RecvError, insufficient_capacity, message_too_big, empty, invalid_message, padded_len,
}
use icmsg_rs.Transport.Cursor.Laws.{wrap, ahead, IsRing, IsIndex}
use icmsg_rs.Transport.Queue.{packet_size}
use icmsg_rs.Transport.Sender.{fill}
use icmsg_rs.Transport.Sender.Copy.{IsWritten, splice-IsWritten}
use icmsg_rs.Transport.Sender.Fill.{encode, append-IsWritten, fill_lem, fill-full}
use icmsg_rs.Transport.Receiver.{take_packet}
use icmsg_rs.Transport.Receiver.Copy.{IsRead}
use icmsg_rs.Transport.Receiver.Take.{
  stated_len, take_packet-empty, take_packet-too_big, take_packet-invalid, take_packet_lem,
}
use icmsg_rs.Transport.Reference.Bytes.{
  write_ring, read_ring, write_ring-IsWritten, IsWritten-unique, IsRead-read_ring,
}

-- `fill` with the reference writer, where the ring holds `used` bytes from the read index on.
unfoldable pub fill_reference :
    Target → ℕ → ℕ → ℕ → ℕ → List ℕ → List ℕ → Result (ℕ × List ℕ) SendError
unfolding write_ring
fill_reference t size rd_idx wr_idx used bytes msg =
    if ltb (used + packet_size (length msg)) size
    then ok (
      wrap size (rd_idx + (used + packet_size (length msg))),
      write_ring size wr_idx bytes (encode t msg),
    )
    else err insufficient_capacity

-- `take_packet` with the reference reader.
unfoldable pub take_packet_reference :
    ℕ → ℕ → ℕ → List ℕ → List ℕ → Result (ℕ × ℕ × List ℕ) RecvError
unfolding read_ring
take_packet_reference size rd_idx wr_idx bytes msg =
    let n = stated_len bytes rd_idx in
    if wr_idx == rd_idx
    then err empty
    else if ltb (length msg) n
    then err message_too_big
    else if ltb size n
    then err invalid_message
    else ok (
      n,
      wrap size (wrap size (rd_idx + 4) + padded_len n),
      read_ring size n (wrap size (rd_idx + 4)) bytes ++ drop n msg,
    )

module _ (t : Target) {size : ℕ} (ring : IsRing size) where
  -- Between its accesses to shared indices `send` does what the reference does: it tests the room for the
  -- whole packet, and writes the header and the message byte by byte round the ring and nothing else,
  -- without a panic, an overflow or an access outside the data buffer. The read index is at a word of the
  -- ring, and the write index `used` bytes, in whole words and less than the ring, ahead of it.
  pub fill-eq-reference :
      (rd_idx wr_idx used : ℕ) (msg bytes : List ℕ)
      → length bytes ≡ size
      → IsIndex size rd_idx
      → used % 4 ≡ 0
      → used < size
      → wr_idx ≡ wrap size (rd_idx + used)
      → fill t size wr_idx rd_idx bytes msg
        ≡ done (fill_reference t size rd_idx wr_idx used bytes msg)
  unfolding fill_reference
  fill-eq-reference rd_idx wr_idx used msg bytes e r aligned u w =
      elim (dec_lt (used + packet_size (length msg)) size) [
        | yes fits ↦
            let (after, filled, written) =
              fill_lem t ring rd_idx wr_idx used msg bytes e r aligned u w fits in
            let in_ring : wr_idx < size = ground (arith, r.in_ring) in
            let same : after ≡ write_ring size wr_idx bytes (encode t msg) =
              IsWritten-unique in_ring written
                (write_ring-IsWritten wr_idx bytes (encode t msg) e in_ring (omega arith)) in
            rw (lt→ltb (used + packet_size (length msg)) size fits, filled, same)
        | no full ↦ rw (
          le→not-ltb (used + packet_size (length msg)) size (omega arith),
          fill-full t ring rd_idx wr_idx used msg bytes e r aligned u w (omega arith),
        )
      ]

  -- Between its accesses to shared indices `try_recv` does what the reference does, for whatever bytes the
  -- peer wrote into the header: the same answer on every branch, and the message read byte by byte round
  -- the ring over the front of the buffer, without a panic, an overflow or an access outside the buffers.
  -- The read index is at a word of the ring.
  pub take_packet-eq-reference :
      (rd_idx wr_idx : ℕ) (bytes msg : List ℕ)
      → length bytes ≡ size
      → IsIndex size rd_idx
      → get_or bytes rd_idx 0 < 256
      → get_or bytes (rd_idx + 1) 0 < 256
      → take_packet t size rd_idx wr_idx bytes msg
        ≡ done (take_packet_reference size rd_idx wr_idx bytes msg)
  unfolding take_packet_reference
  take_packet-eq-reference rd_idx wr_idx bytes msg e r high low = elim (ℕ_discrete wr_idx rd_idx) [
    | yes same ↦
        rw
          ((==_iff wr_idx rd_idx).1 same, take_packet-empty t ring rd_idx wr_idx bytes msg e r same)
    | no there ↦ elim (dec_lt (length msg) (stated_len bytes rd_idx)) [
      | yes big ↦ rw (
        ne→not-== wr_idx rd_idx there,
        lt→ltb _ _ big,
        take_packet-too_big t ring rd_idx wr_idx bytes msg e r there high low big,
      )
      | no fits ↦ elim (dec_lt size (stated_len bytes rd_idx)) [
        | yes long ↦ rw (
          ne→not-== wr_idx rd_idx there,
          le→not-ltb (length msg) (stated_len bytes rd_idx) (omega arith),
          lt→ltb _ _ long,
          take_packet-invalid t ring rd_idx wr_idx bytes msg e r there high low (omega arith) long,
        )
        | no short ↦
            let (after, took, read) =
              take_packet_lem t ring rd_idx wr_idx bytes msg e r there high low (omega arith)
                (omega arith) in
            let payload_in_ring : wrap size (rd_idx + 4) < size =
              ground (arith, r.in_ring, r.aligned, ring.whole_words) in
            let same =
              IsRead-read_ring {before = msg} {after = after} payload_in_ring (omega arith)
                (omega arith) read in
            rw (
              ne→not-== wr_idx rd_idx there,
              le→not-ltb (length msg) (stated_len bytes rd_idx) (omega arith),
              le→not-ltb size (stated_len bytes rd_idx) (omega arith),
              took,
              same,
            )
      ]
    ]
  ]
