-- ===== src/Transport/Receiver/Take.antt =====
-- The packet that `try_recv` reads between its two accesses to shared indices, on every branch and for
-- whatever bytes the peer wrote there.
use icmsg_rs.Prelude.{
  ℕ, ◌+◌, ◌*◌, ◌%◌, ◌^◌, ◌≤◌, ◌<◌, ◌≡◌, ◌≢◌, refl, ◌∙◌, ap, ap₂, List, arith, length, get_or, slice,
  get_or-slice, lt→ltb, le→not-ltb, ne→not-==, ==_iff,
}
use icmsg_rs.Machine.{done, ok, err, Target}
use icmsg_rs.Machine.Laws.{read_bytes-eq}
use icmsg_rs.Integer.{value}
use icmsg_rs.Transport.Region.{padded_len, header_of_bytes, message_too_big, empty, invalid_message}
use icmsg_rs.Transport.Region.Laws.{value-header_of_bytes}
use icmsg_rs.Transport.Cursor.Laws.{
  wrap, IsRing, IsIndex, after_header-eq, after_payload-eq, wrap-IsIndex,
}
use icmsg_rs.Transport.Receiver.{take_packet}
use icmsg_rs.Transport.Receiver.Copy.{IsRead, copy_out_lem}

-- The message length that the header at `rd_idx` states.
abbrev pub stated_len : List ℕ → ℕ → ℕ
stated_len bytes rd_idx = get_or bytes rd_idx 0 * 256 + get_or bytes (rd_idx + 1) 0

module _ (t : Target) {size : ℕ} (ring : IsRing size) (rd_idx wr_idx : ℕ) (bytes msg : List ℕ)
    (e : length bytes ≡ size) (r : IsIndex size rd_idx) where
  pub take_packet-empty :
      wr_idx ≡ rd_idx → take_packet t size rd_idx wr_idx bytes msg ≡ done (err empty)
  unfolding take_packet
  take_packet-empty same = rw ((==_iff wr_idx rd_idx).1 same)

  -- A packet is there; its two length bytes are bytes.
  module _ (some_there : wr_idx ≢ rd_idx) (high : get_or bytes rd_idx 0 < 256)
      (low : get_or bytes (rd_idx + 1) 0 < 256) where
    value-slice :
        value t.endian (header_of_bytes t.endian (slice bytes rd_idx 4)).len
        ≡ stated_len bytes rd_idx
    value-slice =
        value-header_of_bytes t.endian (slice bytes rd_idx 4) (rw byte0 high) (rw byte1 low)
        ∙ ap₂ (λ x y. x * 256 + y) byte0 byte1
      where
        byte0 : get_or (slice bytes rd_idx 4) 0 0 ≡ get_or bytes rd_idx 0
        byte0 =
            get_or-slice bytes rd_idx 4 0 0 (omega arith)
            ∙ ap (λ j. get_or bytes j 0) {x = rd_idx + 0} {y = rd_idx} (omega arith)

        byte1 : get_or (slice bytes rd_idx 4) 1 0 ≡ get_or bytes (rd_idx + 1) 0
        byte1 = get_or-slice bytes rd_idx 4 1 0 (omega arith)

    pub take_packet-too_big :
        length msg < stated_len bytes rd_idx
        → take_packet t size rd_idx wr_idx bytes msg ≡ done (err message_too_big)
    unfolding take_packet
    take_packet-too_big h = rw (
      ne→not-== wr_idx rd_idx some_there,
      read_bytes-eq bytes rd_idx 4 (omega arith),
      after_header-eq t.overflow_checks ring rd_idx r,
      value-slice,
      lt→ltb _ _ h,
    )

    pub take_packet-invalid :
        stated_len bytes rd_idx ≤ length msg
        → size < stated_len bytes rd_idx
        → take_packet t size rd_idx wr_idx bytes msg ≡ done (err invalid_message)
    unfolding take_packet
    take_packet-invalid h big = rw (
      ne→not-== wr_idx rd_idx some_there,
      read_bytes-eq bytes rd_idx 4 (omega arith),
      after_header-eq t.overflow_checks ring rd_idx r,
      value-slice,
      le→not-ltb _ _ h,
      lt→ltb size (stated_len bytes rd_idx % 2 ^ 32) (omega arith),
    )

    pub take_packet_lem :
        stated_len bytes rd_idx ≤ length msg
        → stated_len bytes rd_idx ≤ size
        → (after : List ℕ) × (take_packet t size rd_idx wr_idx bytes msg
            ≡ done (
                ok (
                  stated_len bytes rd_idx,
                  wrap size (wrap size (rd_idx + 4) + padded_len (stated_len bytes rd_idx)),
                  after,
                )))
          × IsRead size (wrap size (rd_idx + 4)) (stated_len bytes rd_idx) bytes msg after
    unfolding take_packet
    take_packet_lem h fits =
        let next : IsIndex size (wrap size (rd_idx + 4)) =
          wrap-IsIndex rd_idx 4 ring r (omega arith) refl in
        let (after, copied, read) =
          copy_out_lem (wrap size (rd_idx + 4)) (stated_len bytes rd_idx) bytes msg e next.in_ring h
            t fits in
        (
          after,
          rw (
            ne→not-== wr_idx rd_idx some_there,
            read_bytes-eq bytes rd_idx 4 (omega arith),
            after_header-eq t.overflow_checks ring rd_idx r,
            value-slice,
            le→not-ltb _ _ h,
            le→not-ltb size (stated_len bytes rd_idx % 2 ^ 32) (omega arith),
            copied,
            after_payload-eq t.overflow_checks ring (wrap size (rd_idx + 4))
                (padded_len (stated_len bytes rd_idx)) next.in_ring (omega arith),
          ),
          read,
        )
