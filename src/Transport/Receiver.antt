-- ===== src/Transport/Receiver.antt =====
-- `Receiver` of src/transport.rs: the receiving half. The region that `recv_region` points to is passed
-- in and out. `try_recv` is cut at its accesses to shared indices: `take_packet` is what lies between the
-- load of `wr_idx` and the store to `rd_idx`.
pub mod Copy
pub mod Take
use icmsg_rs.Prelude.{ℕ, ◌++◌, List, ltb, ◌==◌, if◌then◌else◌, length}
use icmsg_rs.Machine.{
  Exec, done, ◌>>=◌, Result, ok, err, Target, as_u32, sub_u32, read_bytes, write_bytes, split_at,
}
use icmsg_rs.Integer.{value, load, store}
use icmsg_rs.Transport.Region.{
  SharedMemoryRegion, RecvError, message_too_big, empty, invalid_message, header_of_bytes,
  padded_len, header_size,
}
use icmsg_rs.Transport.Cursor.{after_header, after_payload}

-- `Receiver`
pub record Receiver : Type 0 where
  pub recv_buffer_len : ℕ
  pub recv_rd_idx : ℕ

-- The payload, in two parts where it goes round the end of the buffer, over the front of `msg`.
unfoldable pub copy_out : Target → ℕ → ℕ → List ℕ → ℕ → List ℕ → Exec (List ℕ)
unfolding sub_u32 split_at read_bytes write_bytes
copy_out t buffer_len rd_idx bytes msg_len msg = do
  tail_size ← sub_u32 t.overflow_checks buffer_len rd_idx
  if ltb tail_size msg_len
      then (do
        whole ← split_at msg_len msg
        parts ← split_at tail_size whole.0
        p1 ← read_bytes bytes rd_idx (length parts.0)
        p2 ← read_bytes bytes 0 (length parts.1)
        done (p1 ++ (p2 ++ whole.1)))
      else (do payload ← read_bytes bytes rd_idx msg_len; write_bytes msg 0 payload)

-- The length of the message, the read index behind it, and `msg` with the message in it.
unfoldable pub take_packet :
    Target → ℕ → ℕ → ℕ → List ℕ → List ℕ → Exec (Result (ℕ × ℕ × List ℕ) RecvError)
unfolding read_bytes header_of_bytes value after_header copy_out after_payload
take_packet t buffer_len rd_idx wr_idx bytes msg =
    if wr_idx == rd_idx then done (err empty) else (do
      header ← read_bytes bytes rd_idx header_size
      payload_idx ← after_header t.overflow_checks buffer_len rd_idx
      let msg_len = value t.endian (header_of_bytes t.endian header).len
      if ltb (length msg) msg_len
          then done (err message_too_big)
          else if ltb buffer_len (as_u32 msg_len)
          then done (err invalid_message)
          else (do
            msg' ← copy_out t buffer_len payload_idx bytes msg_len msg
            rd_idx' ← after_payload t.overflow_checks buffer_len payload_idx (padded_len msg_len)
            done (ok (msg_len, rd_idx', msg'))))

-- The end of `try_recv`: the store to `rd_idx`.
unfoldable pub release :
    Target
    → Receiver
    → SharedMemoryRegion
    → List ℕ
    → Result (ℕ × ℕ × List ℕ) RecvError
    → Receiver × SharedMemoryRegion × List ℕ × Result ℕ RecvError
unfolding store
release t r region msg (err e) = (r, region, msg, err e)
release t r region msg (ok (msg_len, rd_idx, msg')) = (
  record r { recv_rd_idx = rd_idx },
  record region { rd_idx = store t.endian region.rd_idx rd_idx },
  msg',
  ok msg_len,
)

-- `Receiver::try_recv`, with the new content of `msg`.
unfoldable pub try_recv :
    Target
    → Receiver
    → SharedMemoryRegion
    → List ℕ
    → Exec (Receiver × SharedMemoryRegion × List ℕ × Result ℕ RecvError)
unfolding load take_packet release
try_recv t r region msg = do
  let wr_idx = load t.endian region.wr_idx
  taken ← take_packet t r.recv_buffer_len r.recv_rd_idx wr_idx region.bytes msg
  done (release t r region msg taken)
