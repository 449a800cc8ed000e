-- ===== src/Transport/Sender/Fill.antt =====
-- The packet that `send` writes between its two accesses to shared indices.
use icmsg_rs.Prelude.{
  ℕ, ◌+◌, ◌-◌, ◌/◌, ◌%◌, ◌≤◌, ◌<◌, ◌≡◌, refl, sym, ◌∙◌, ap, List, [], ◌∷◌, ◌++◌, arith, dec_lt,
  length, get_or, length-append, get_or-append_left, get_or-append_right, splice, lt→ltb,
  le→not-ltb,
}
use icmsg_rs.Machine.{done, ok, err, Target, as_u16}
use icmsg_rs.Machine.Laws.{write_bytes-eq}
use icmsg_rs.Transport.Region.{padded_len, insufficient_capacity}
use icmsg_rs.Transport.Region.Laws.{header_bytes-new}
use icmsg_rs.Transport.Cursor.Laws.{
  wrap, IsRing, IsIndex, free_space-eq, after_header-eq, after_payload-eq, wrap-IsIndex,
}
use icmsg_rs.Transport.Queue.{packet_size}
use icmsg_rs.Transport.Sender.{write_packet, fill}
use icmsg_rs.Transport.Sender.Copy.{IsWritten, splice-IsWritten, copy_in_lem}

abbrev pub packet_header : Target → ℕ → List ℕ
packet_header t n = (n / 256) ∷ (n % 256) ∷ t.uninit0 ∷ t.uninit1 ∷ []

-- A packet without its padding: the length in 16 bits, high byte first, two arbitrary bytes, the
-- message.
abbrev pub encode : Target → List ℕ → List ℕ
encode t msg = packet_header t (as_u16 (length msg)) ++ msg

-- Two writes, one behind the other.
pub append-IsWritten :
    {size start : ℕ} (xs ys a b c : List ℕ)
    → start < size
    → length xs + length ys ≤ size
    → IsWritten size start xs a b
    → IsWritten size (wrap size (start + length xs)) ys b c
    → IsWritten size start (xs ++ ys) a c
append-IsWritten {size} {start} xs ys a b c s h u v = record {
  keeps_length = v.keeps_length;
  inside = λ i lt. elim (dec_lt i (length xs)) [
    | yes p ↦
        v.outside (wrap size (start + i)) (ground arith) (ground arith)
        ∙ u.inside i p
        ∙ sym (get_or-append_left xs ys i 0 p)
    | no p ↦
        ap (λ j. get_or c j 0) {x = wrap size (start + i)}
          {y = wrap size (wrap size (start + length xs) + (i - length xs))}
          (ground (arith, length-append xs ys))
        ∙ v.inside (i - length xs) (omega (arith, length-append xs ys))
        ∙ sym (get_or-append_right xs ys i (i - length xs) 0 (omega arith))
  ];
  outside = λ j lt far.
      v.outside j lt (ground (arith, length-append xs ys))
      ∙ u.outside j lt (ground (arith, length-append xs ys));
}

module _ (t : Target) {size : ℕ} (ring : IsRing size) where
  pub write_packet_lem :
      (wr_idx : ℕ) (msg before : List ℕ)
      → length before ≡ size
      → IsIndex size wr_idx
      → packet_size (length msg) ≤ size
      → (after : List ℕ) × (write_packet t size wr_idx before msg
          ≡ done (wrap size (wrap size (wr_idx + 4) + padded_len (length msg)), after))
        × IsWritten size wr_idx (encode t msg) before after
  unfolding write_packet
  write_packet_lem wr_idx msg before e w h =
      let head = packet_header t (as_u16 (length msg)) in
      let before' = splice before wr_idx head in
      let headed : IsWritten size wr_idx head before before' =
        splice-IsWritten wr_idx head before e w.in_ring (ground arith) in
      let next : IsIndex size (wrap size (wr_idx + 4)) =
        wrap-IsIndex wr_idx 4 ring w (omega arith) refl in
      let (after, copied, written) =
        copy_in_lem t (wrap size (wr_idx + 4)) msg before' headed.keeps_length next.in_ring
          (omega arith) in
      (
        after,
        rw (
          header_bytes-new t (as_u16 (length msg)) (omega arith),
          write_bytes-eq before wr_idx head (ground arith),
          after_header-eq t.overflow_checks ring wr_idx w,
          copied,
          after_payload-eq t.overflow_checks ring (wrap size (wr_idx + 4)) (padded_len (length msg))
              next.in_ring (omega arith),
        ),
        append-IsWritten head msg before before' after w.in_ring (omega arith) headed written,
      )

  -- Where the ring holds `used` bytes from the read index `rd_idx` on.
  module _ (rd_idx wr_idx used : ℕ) (msg before : List ℕ) (e : length before ≡ size)
      (r : IsIndex size rd_idx) (aligned : used % 4 ≡ 0) (u : used < size)
      (w : wr_idx ≡ wrap size (rd_idx + used)) where
    pub fill_lem :
        used + packet_size (length msg) < size
        → (after : List ℕ) × (fill t size wr_idx rd_idx before msg
            ≡ done (ok (wrap size (rd_idx + (used + packet_size (length msg))), after)))
          × IsWritten size wr_idx (encode t msg) before after
    unfolding fill
    fill_lem h =
        let (after, wrote, written) =
          write_packet_lem wr_idx msg before e
            (rw w (wrap-IsIndex rd_idx used ring r (omega arith) aligned)) (omega arith) in
        let index : wrap size (wrap size (wr_idx + 4) + padded_len (length msg))
            ≡ wrap size (rd_idx + (used + packet_size (length msg))) =
          ground arith in
        (
          after,
          rw (
            free_space-eq t.overflow_checks ring rd_idx wr_idx used r.in_ring u w,
            le→not-ltb (size - used - 1) (padded_len (length msg) + 4) (omega arith),
            wrote,
            index,
          ),
          written,
        )

    pub fill-full :
        size ≤ used + packet_size (length msg)
        → fill t size wr_idx rd_idx before msg ≡ done (err insufficient_capacity)
    unfolding fill
    fill-full h = rw (
      free_space-eq t.overflow_checks ring rd_idx wr_idx used r.in_ring u w,
      lt→ltb (size - used - 1) (padded_len (length msg) + 4) (omega arith),
    )
