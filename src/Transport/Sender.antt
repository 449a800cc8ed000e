-- ===== src/Transport/Sender.antt =====
-- `Sender` of src/transport.rs: the sending half. The region that `send_region` points to is passed in
-- and out. `send` is cut at its two accesses to shared indices: `fill` is what lies between the load of
-- `rd_idx` and the store to `wr_idx`.
pub mod Copy
pub mod Fill
use icmsg_rs.Prelude.{ℕ, ◌+◌, List, ltb, if◌then◌else◌, length}
use icmsg_rs.Machine.{
  Exec, done, ◌>>=◌, Result, ok, err, Target, as_u16, sub_u32, write_bytes, split_at,
}
use icmsg_rs.Integer.{load, store}
use icmsg_rs.Transport.Region
use icmsg_rs.Transport.Region.{
  SharedMemoryRegion, SendError, insufficient_capacity, header_bytes, padded_len, header_size,
  Notifier,
}
use icmsg_rs.Transport.Cursor.{free_space, after_header, after_payload}

-- `Sender`
pub record Sender {ℓ} (M : Type ℓ) : Type ℓ where
  pub send_buffer_len : ℕ
  pub mbox : M
  pub send_wr_idx : ℕ

-- The payload, in two parts where it goes round the end of the buffer.
unfoldable pub copy_in : Target → ℕ → ℕ → List ℕ → List ℕ → Exec (List ℕ)
unfolding sub_u32 split_at write_bytes
copy_in t buffer_len wr_idx bytes msg = do
  tail_size ← sub_u32 t.overflow_checks buffer_len wr_idx
  if ltb tail_size (length msg)
      then (do
        parts ← split_at tail_size msg
        bytes' ← write_bytes bytes wr_idx parts.0
        write_bytes bytes' 0 parts.1)
      else write_bytes bytes wr_idx msg

-- The packet: header, payload, and the index behind them.
unfoldable pub write_packet : Target → ℕ → ℕ → List ℕ → List ℕ → Exec (ℕ × List ℕ)
unfolding write_bytes after_header copy_in after_payload Region.new header_bytes
write_packet t buffer_len wr_idx bytes msg = do
  let header = Region.new t (as_u16 (length msg))
  bytes' ← write_bytes bytes wr_idx (header_bytes t.endian header)
  payload_idx ← after_header t.overflow_checks buffer_len wr_idx
  bytes'' ← copy_in t buffer_len payload_idx bytes' msg
  wr_idx' ← after_payload t.overflow_checks buffer_len payload_idx (padded_len (length msg))
  done (wr_idx', bytes'')

-- The new write index and data, or the error; nothing is written on an error.
unfoldable pub fill : Target → ℕ → ℕ → ℕ → List ℕ → List ℕ → Exec (Result (ℕ × List ℕ) SendError)
unfolding free_space write_packet
fill t buffer_len wr_idx rd_idx bytes msg = do
  free ← free_space t.overflow_checks buffer_len rd_idx wr_idx
  if ltb free (padded_len (length msg) + header_size)
      then done (err insufficient_capacity)
      else (do packet ← write_packet t buffer_len wr_idx bytes msg; done (ok packet))

module _ {ℓ} {M : Type ℓ} ⦃notifier : Notifier M⦄ where
  -- `Sender::notify`
  unfoldable pub notify : Sender M → Sender M
  notify s = record s { mbox = notifier.notify s.mbox }

  -- The end of `send`: the store to `wr_idx` and the notification.
  unfoldable pub publish :
      Target
      → Sender M
      → SharedMemoryRegion
      → Result (ℕ × List ℕ) SendError
      → Sender M × SharedMemoryRegion × Result (Unit {0}) SendError
  unfolding notify store
  publish t s region (err e) = (s, region, err e)
  publish t s region (ok (wr_idx, bytes)) = (
    notify (record s { send_wr_idx = wr_idx }),
    record region { wr_idx = store t.endian region.wr_idx wr_idx; bytes = bytes },
    ok tt,
  )

  -- `Sender::send`
  unfoldable pub send :
      Target
      → Sender M
      → SharedMemoryRegion
      → List ℕ
      → Exec (Sender M × SharedMemoryRegion × Result (Unit {0}) SendError)
  unfolding load fill publish
  send t s region msg = do
    let rd_idx = load t.endian region.rd_idx
    filled ← fill t s.send_buffer_len s.send_wr_idx rd_idx region.bytes msg
    done (publish t s region filled)
