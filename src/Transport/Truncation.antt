-- ===== src/Transport/Truncation.antt =====
-- `msg.len() as u16` in `send`: in a ring that is large enough, a message of 2 ^ 16 bytes or more is
-- accepted, and the header states its length modulo 2 ^ 16.
use icmsg_rs.Prelude.{
  ℕ, ◌+◌, ◌/◌, ◌%◌, ◌^◌, ◌≤◌, ◌<◌, ◌≡◌, ◌≢◌, refl, ◌∙◌, ap, List, [], arith, length, get_or,
}
use icmsg_rs.Machine.{done, Target, ok}
use icmsg_rs.Integer.{load, store}
use icmsg_rs.Integer.Laws.{load-store}
use icmsg_rs.Transport.Region.{SharedMemoryRegion, Notifier, padded_len}
use icmsg_rs.Transport.Cursor.Laws.{wrap, IsRing, IsIndex}
use icmsg_rs.Transport.Queue.{packet_size}
use icmsg_rs.Transport.Sender.{Sender, send}
use icmsg_rs.Transport.Sender.Copy.{IsWritten}
use icmsg_rs.Transport.Sender.Fill.{encode, fill_lem}
use icmsg_rs.Transport.Receiver.{Receiver, take_packet, try_recv}
use icmsg_rs.Transport.Receiver.Take.{stated_len, take_packet_lem}
use icmsg_rs.Transport.Refine.{Represents}

-- The two length bytes of a packet at `rd_idx` stand side by side.
length_indices :
    {size rd_idx wr_idx : ℕ}
    → IsRing size
    → IsIndex size rd_idx
    → wr_idx ≡ wrap size (rd_idx + 0)
    → (rd_idx ≡ wrap size (wr_idx + 0)) × (rd_idx + 1 ≡ wrap size (wr_idx + 1))
length_indices ring r w = (ground arith, ground arith)

-- `try_recv` after a successful read.
try_recv-ok :
    (t : Target) {size wr_idx n rd_idx : ℕ} {buf' : List ℕ} (r : Receiver)
    (region : SharedMemoryRegion) (buf : List ℕ)
    → r.recv_buffer_len ≡ size
    → load t.endian region.wr_idx ≡ wr_idx
    → take_packet t size r.recv_rd_idx wr_idx region.bytes buf ≡ done (ok (n, rd_idx, buf'))
    → try_recv t r region buf
      ≡ done (
        record r { recv_rd_idx = rd_idx },
        record region { rd_idx = store t.endian region.rd_idx rd_idx },
        buf',
        ok n,
      )
unfolding try_recv
try_recv-ok t r region buf len wr taken = rw (len, wr, taken)

-- What the header in the ring states of a packet that was written at the read index.
stated_len-encode :
    (t : Target) {size rd_idx wr_idx : ℕ} (msg before after : List ℕ)
    → IsRing size
    → IsIndex size rd_idx
    → wr_idx ≡ wrap size (rd_idx + 0)
    → IsWritten size wr_idx (encode t msg) before after
    → (get_or after rd_idx 0 ≡ length msg % 2 ^ 16 / 256)
      × (get_or after (rd_idx + 1) 0 ≡ length msg % 2 ^ 16 % 256)
stated_len-encode t msg before after ring rd wr written =
    let at = length_indices ring rd wr in
    (
      ap (λ j. get_or after j 0) at.0 ∙ written.inside 0 (omega arith),
      ap (λ j. get_or after j 0) at.1 ∙ written.inside 1 (omega arith),
    )

-- `take_packet` of such a packet.
take_packet-encode :
    (t : Target) {size rd_idx wr_idx behind : ℕ} (msg before after buf : List ℕ)
    → IsRing size
    → IsIndex size rd_idx
    → wr_idx ≡ wrap size (rd_idx + 0)
    → behind ≢ rd_idx
    → IsWritten size wr_idx (encode t msg) before after
    → length msg ≤ length buf
    → length msg ≤ size
    → (rd_idx' : ℕ) × (buf' : List ℕ) × (take_packet t size rd_idx behind after buf
        ≡ done (ok (length msg % 2 ^ 16, rd_idx', buf')))
take_packet-encode t {size} {rd_idx} {behind} msg before after buf ring rd wr there written room
      fits =
    let bytes = stated_len-encode t msg before after ring rd wr written in
    let stated : stated_len after rd_idx ≡ length msg % 2 ^ 16 = omega (arith, bytes.0, bytes.1) in
    let (buf', taken, read) =
      take_packet_lem t ring rd_idx behind after buf written.keeps_length rd there
        (omega (arith, bytes.0)) (omega (arith, bytes.1)) (omega (arith, stated))
        (omega (arith, stated)) in
    (
      wrap size (wrap size (rd_idx + 4) + padded_len (stated_len after rd_idx)),
      buf',
      taken
          ∙ ap
              (λ n. done (
                ok (
                  n,
                  wrap size (wrap size (rd_idx + 4) + padded_len (stated_len after rd_idx)),
                  buf',
                )))
              stated,
    )

-- The write index behind a packet in an empty ring.
behind_lem :
    {size rd_idx : ℕ} (n : ℕ)
    → IsRing size
    → IsIndex size rd_idx
    → packet_size n < size
    → (wrap size (rd_idx + (0 + packet_size n)) < 2 ^ 32)
      × (wrap size (rd_idx + (0 + packet_size n)) ≢ rd_idx)
behind_lem n ring r fits = (ground arith, ground arith)

-- A long message sent on an empty channel: `send` reports success, and `try_recv` at the other end then
-- reports a message of `length msg % 2 ^ 16` bytes, less than was sent.
pub send_truncates {ℓ} :
    {M : Type ℓ} ⦃notifier : Notifier M⦄ (t : Target) {size : ℕ} {s : Sender M}
    {region : SharedMemoryRegion} {r : Receiver} (msg buf : List ℕ)
    → Represents t size s region r []
    → 2 ^ 16 ≤ length msg
    → packet_size (length msg) < size
    → length msg ≤ length buf
    → (s' : Sender M) × (region' : SharedMemoryRegion) × (send t s region msg
        ≡ done (s', region', ok tt))
      × ((r' : Receiver) × (region'' : SharedMemoryRegion) × (buf' : List ℕ) × (try_recv t r region'
              buf
            ≡ done (r', region'', buf', ok (length msg % 2 ^ 16)))
          × (length msg % 2 ^ 16 < length msg))
unfolding send
send_truncates ⦃notifier⦄ t {size} {s} {region} {r} msg buf rep long fits room =
    let st = rep.stored in
    let (after, filled, written) =
      fill_lem t st.ring r.recv_rd_idx s.send_wr_idx 0 msg region.bytes st.whole st.reader refl
        (omega arith) st.writer (omega arith) in
    let wr_idx = wrap size (r.recv_rd_idx + (0 + packet_size (length msg))) in
    let behind = behind_lem (length msg) st.ring st.reader fits in
    let (rd_idx, buf', taken) =
      take_packet-encode t msg region.bytes after buf st.ring st.reader st.writer behind.1 written
        room (omega arith) in
    let region' : SharedMemoryRegion = record region {
      wr_idx = store t.endian region.wr_idx wr_idx;
      bytes = after;
    } in
    (
      record s { send_wr_idx = wr_idx; mbox = notifier.notify s.mbox },
      region',
      rw (rep.send_len, rep.rd_shared, filled),
      (
        record r { recv_rd_idx = rd_idx },
        record region' { rd_idx = store t.endian region.rd_idx rd_idx },
        buf',
        try_recv-ok t r region' buf rep.recv_len (load-store t.endian region.wr_idx wr_idx behind.0)
            taken,
        omega arith,
      ),
    )
