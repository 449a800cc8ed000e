-- ===== src/Transport/Untrusted/Recv.antt =====
-- `try_recv` on a region that the peer has filled with anything.
use icmsg_rs.Prelude.{
  ℕ, ◌+◌, ◌≤◌, ◌<◌, ◌≡◌, refl, List, arith, ℕ_discrete, dec_lt, ltb, ◌==◌, if◌then◌else◌, lt→ltb,
  le→not-ltb, ne→not-==, ==_iff, length, get_or,
}
use icmsg_rs.Machine.{done, Target, Result, ok, err}
use icmsg_rs.Integer.{load, store}
use icmsg_rs.Transport.Region.{
  SharedMemoryRegion, RecvError, message_too_big, empty, invalid_message, padded_len,
}
use icmsg_rs.Transport.Cursor.Laws.{wrap, IsRing, IsIndex, wrap-IsIndex}
use icmsg_rs.Transport.Receiver.{Receiver, try_recv}
use icmsg_rs.Transport.Receiver.Take.{
  stated_len, take_packet-empty, take_packet-too_big, take_packet-invalid, take_packet_lem,
}

-- The data buffer is as long as the receiver thinks, and the receiver stands at a word of it. Nothing is
-- asked of the shared indices and of the bytes, but that they are bytes.
pub record IsReady (region : SharedMemoryRegion) (r : Receiver) : Type 0 where
  pub ring : IsRing r.recv_buffer_len
  pub whole : length region.bytes ≡ r.recv_buffer_len
  pub reader : IsIndex r.recv_buffer_len r.recv_rd_idx
  pub is_byte : (i : ℕ) → get_or region.bytes i 0 < 256

-- The answer that the write index and the stated length call for.
abbrev pub verdict : ℕ → Receiver → List ℕ → List ℕ → Result ℕ RecvError
verdict wr_idx r bytes buf =
    if wr_idx == r.recv_rd_idx
    then err empty
    else if ltb (length buf) (stated_len bytes r.recv_rd_idx)
    then err message_too_big
    else if ltb r.recv_buffer_len (stated_len bytes r.recv_rd_idx)
    then err invalid_message
    else ok (stated_len bytes r.recv_rd_idx)

-- What a call leaves: the receiver may be called again, and it has written nothing of the region but its
-- own index.
pub record IsContained (region : SharedMemoryRegion) (r : Receiver) (buf : List ℕ) (r' : Receiver)
    (region' : SharedMemoryRegion) (buf' : List ℕ) : Type 0 where
  pub ready : IsReady region' r'
  pub same_len : r'.recv_buffer_len ≡ r.recv_buffer_len
  pub same_bytes : region'.bytes ≡ region.bytes
  pub same_wr : region'.wr_idx ≡ region.wr_idx
  pub same_buf_len : length buf' ≡ length buf

module _ (t : Target) {region : SharedMemoryRegion} {r : Receiver} (buf : List ℕ)
    (rd : IsReady region r) where
  abbrev pub wr_idx : ℕ
  wr_idx = load t.endian region.wr_idx

  abbrev pub stated : ℕ
  stated = stated_len region.bytes r.recv_rd_idx

  -- What an answer comes with.
  abbrev pub Answers : Result ℕ RecvError → Type 0
  Answers res =
      (r' : Receiver) × (region' : SharedMemoryRegion) × (buf' : List ℕ) × (try_recv t r region buf
        ≡ done (r', region', buf', res))
      × IsContained region r buf r' region' buf'

  unchanged : IsContained region r buf r region buf
  unchanged = record {
    ready = rd;
    same_len = refl;
    same_bytes = refl;
    same_wr = refl;
    same_buf_len = refl;
  }

  Answers-empty : wr_idx ≡ r.recv_rd_idx → Answers (err empty)
  unfolding try_recv
  Answers-empty same = (
    r,
    region,
    buf,
    rw (take_packet-empty t rd.ring r.recv_rd_idx wr_idx region.bytes buf rd.whole rd.reader same),
    unchanged,
  )

  module _ (there : wr_idx ≡ r.recv_rd_idx → ⊥) where
    Answers-too_big : length buf < stated → Answers (err message_too_big)
    unfolding try_recv
    Answers-too_big h = (
      r,
      region,
      buf,
      rw (
          take_packet-too_big t rd.ring r.recv_rd_idx wr_idx region.bytes buf rd.whole rd.reader
            there (rd.is_byte _) (rd.is_byte _) h),
      unchanged,
    )

    Answers-invalid :
        stated ≤ length buf → r.recv_buffer_len < stated → Answers (err invalid_message)
    unfolding try_recv
    Answers-invalid h big = (
      r,
      region,
      buf,
      rw (
          take_packet-invalid t rd.ring r.recv_rd_idx wr_idx region.bytes buf rd.whole rd.reader
            there (rd.is_byte _) (rd.is_byte _) h big),
      unchanged,
    )

    Answers-ok : stated ≤ length buf → stated ≤ r.recv_buffer_len → Answers (ok stated)
    unfolding try_recv
    Answers-ok h fits =
        let (after, taken, read) =
          take_packet_lem t rd.ring r.recv_rd_idx wr_idx region.bytes buf rd.whole rd.reader there
            (rd.is_byte _) (rd.is_byte _) h fits in
        let size = r.recv_buffer_len in
        let next : IsIndex size (wrap size (r.recv_rd_idx + 4)) =
          wrap-IsIndex r.recv_rd_idx 4 rd.ring rd.reader (omega (arith, rd.ring, rd.reader)) refl in
        let behind = wrap size (wrap size (r.recv_rd_idx + 4) + padded_len stated) in
        (
          record r { recv_rd_idx = behind },
          record region { rd_idx = store t.endian region.rd_idx behind },
          after,
          rw taken,
          record {
            ready = record {
              ring = rd.ring;
              whole = rd.whole;
              reader =
                  wrap-IsIndex (wrap size (r.recv_rd_idx + 4)) (padded_len stated) rd.ring next
                    (omega (arith, rd.ring)) (omega arith);
              is_byte = rd.is_byte;
            };
            same_len = refl;
            same_bytes = refl;
            same_wr = refl;
            same_buf_len = read.keeps_length;
          },
        )

  -- Whatever the peer wrote, `try_recv` returns: it does not panic and touches no byte outside the two
  -- buffers. Its answer is the one that the write index and the stated length call for; it leaves the
  -- data and the write index alone and the caller's buffer as long as it was; and the receiver is again
  -- at a word of the ring.
  pub try_recv_contained : Answers (verdict wr_idx r region.bytes buf)
  try_recv_contained = elim (ℕ_discrete wr_idx r.recv_rd_idx) [
    | yes same ↦ rw ((==_iff _ _).1 same) (Answers-empty same)
    | no there ↦ rw (ne→not-== _ _ there) (elim (dec_lt (length buf) stated) [
      | yes long ↦ rw (lt→ltb _ _ long) (Answers-too_big there long)
      | no short ↦
          rw (le→not-ltb (length buf) stated (omega arith))
            (elim (dec_lt r.recv_buffer_len stated) [
              | yes big ↦ rw (lt→ltb _ _ big) (Answers-invalid there (omega arith) big)
              | no fits ↦
                  rw (le→not-ltb r.recv_buffer_len stated (omega arith))
                    (Answers-ok there (omega arith) (omega arith))
            ])
    ])
  ]
