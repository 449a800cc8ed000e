-- ===== src/Transport/Refine/Fill.antt =====
-- `fill` appends a message to what a ring stores, at any read index at which it still stores a queue:
-- also at one that the reader has left behind meanwhile.
use icmsg_rs.Prelude.{
  ℕ, ◌+◌, ◌^◌, ◌≤◌, ◌<◌, ◌≡◌, refl, sym, ◌∙◌, ap, List, [], ◌∷◌, ◌++◌, arith, length, get_or,
  get_or-append_right,
}
use icmsg_rs.Machine.{done, ok, err, Target, as_u16}
use icmsg_rs.Transport.Cursor.Laws.{wrap}
use icmsg_rs.Transport.Region.{insufficient_capacity}
use icmsg_rs.Transport.Queue.{Queue, packet_size, footprint, footprint-append}
use icmsg_rs.Transport.Stream.{IsPacket, Holds-ext, Holds-append, view, Stores, footprint_aligned}
use icmsg_rs.Transport.Sender.{fill}
use icmsg_rs.Transport.Sender.Copy.{IsWritten}
use icmsg_rs.Transport.Sender.Fill.{packet_header, encode, fill_lem, fill-full}

module _ (t : Target) {size rd_idx wr_idx : ℕ} {bytes : List ℕ} {q : Queue} (msg : List ℕ)
    (st : Stores size rd_idx wr_idx bytes q) where
  abbrev pub end : ℕ
  end = wrap size (rd_idx + footprint (q ++ (msg ∷ [])))

  -- What was written is a packet, and the packets before it are still there.
  Stores-append :
      {after : List ℕ}
      → length msg < 2 ^ 16
      → footprint q + packet_size (length msg) < size
      → IsWritten size wr_idx (encode t msg) bytes after
      → Stores size rd_idx end after (q ++ (msg ∷ []))
  Stores-append {after} short fits w = record {
    ring = st.ring;
    whole = w.keeps_length;
    reader = st.reader;
    room = omega (arith, footprint-append q msg);
    writer = refl;
    holds = Holds-append q msg (view size after rd_idx) (Holds-ext q old st.holds) packet;
  }
    where
      old : (i : ℕ) → i < footprint q → view size bytes rd_idx i ≡ view size after rd_idx i
      old i lt =
          let at = st.writer in
          let reader = st.reader.in_ring in
          sym (w.outside (wrap size (rd_idx + i)) (ground arith) (ground arith))

      at :
          (i : ℕ)
          → i < 4 + length msg
          → view size after rd_idx (footprint q + i) ≡ get_or (encode t msg) i 0
      at i lt =
          let here = st.writer in
          let reader = st.reader.in_ring in
          ap (λ j. get_or after j 0) {x = wrap size (rd_idx + (footprint q + i))}
            {y = wrap size (wr_idx + i)} (ground arith)
          ∙ w.inside i (omega arith)

      packet : IsPacket (λ i. view size after rd_idx (footprint q + i)) msg
      packet = record {
        short = short;
        high = at 0 (omega arith) ∙ omega arith;
        low = at 1 (omega arith) ∙ omega arith;
        payload = λ i lt.
            at (4 + i) (omega arith)
            ∙ get_or-append_right (packet_header t (as_u16 (length msg))) msg (4 + i) i 0
                (omega arith);
      }

  -- A message that fits goes behind the others.
  pub fill-Stores :
      length msg < 2 ^ 16
      → footprint q + packet_size (length msg) < size
      → (after : List ℕ) × (fill t size wr_idx rd_idx bytes msg ≡ done (ok (end, after)))
        × Stores size rd_idx end after (q ++ (msg ∷ []))
  fill-Stores short fits =
      let (after, filled, written) =
        fill_lem t st.ring rd_idx wr_idx (footprint q) msg bytes st.whole st.reader
          (footprint_aligned q) st.room st.writer fits in
      (
        after,
        filled ∙ ap (λ k. done (ok (wrap size (rd_idx + k), after))) (sym (footprint-append q msg)),
        Stores-append short fits written,
      )

  -- One that does not is refused.
  pub fill_refuses :
      size ≤ footprint q + packet_size (length msg)
      → fill t size wr_idx rd_idx bytes msg ≡ done (err insufficient_capacity)
  fill_refuses =
      fill-full t st.ring rd_idx wr_idx (footprint q) msg bytes st.whole st.reader
        (footprint_aligned q) st.room st.writer
