-- ===== src/Transport/Refine/Take.antt =====
-- `take_packet` reads the oldest message of what a ring stores.
use icmsg_rs.Prelude.{
  ℕ, ◌+◌, ◌-◌, ◌/◌, ◌%◌, ◌≤◌, ◌<◌, ◌≡◌, ◌≢◌, sym, ◌∙◌, ap, List, [], ◌∷◌, ◌++◌, arith, dec_lt,
  length, get_or, drop, list_ext, length-append, length-drop, get_or-append_left,
  get_or-append_right, get_or-drop,
}
use mathlib.Core.Path.{subst}
use icmsg_rs.Machine.{done, ok, err, Target}
use icmsg_rs.Transport.Region.{message_too_big, empty, padded_len}
use icmsg_rs.Transport.Cursor.Laws.{wrap}
use icmsg_rs.Transport.Queue.{Queue, packet_size}
use icmsg_rs.Transport.Stream.{Stores}
use icmsg_rs.Transport.Receiver.{take_packet}
use icmsg_rs.Transport.Receiver.Copy.{IsRead}
use icmsg_rs.Transport.Receiver.Take.{
  stated_len, take_packet-empty, take_packet-too_big, take_packet_lem,
}

-- Nothing there: the indices meet.
pub take_packet-none :
    (t : Target) {size rd_idx wr_idx : ℕ} {bytes : List ℕ} (msg : List ℕ)
    → Stores size rd_idx wr_idx bytes []
    → take_packet t size rd_idx wr_idx bytes msg ≡ done (err empty)
take_packet-none t {size} {rd_idx} {wr_idx} {bytes} msg st =
    take_packet-empty t st.ring rd_idx wr_idx bytes msg st.whole st.reader same
  where
    same : wr_idx ≡ rd_idx
    same = let r = st.reader.in_ring in let w = st.writer in ground arith

-- The message over the front of the buffer.
IsRead-eq :
    {size start : ℕ} (m bytes before after : List ℕ)
    → length m ≤ length before
    → ((i : ℕ) → i < length m → get_or bytes (wrap size (start + i)) 0 ≡ get_or m i 0)
    → IsRead size start (length m) bytes before after
    → after ≡ m ++ drop (length m) before
IsRead-eq m bytes before after h same r =
    list_ext 0 after (m ++ drop (length m) before)
      (omega (
        arith,
        r.keeps_length,
        length-append m (drop (length m) before),
        length-drop (length m) before,
      ))
      entry
  where
    entry : (i : ℕ) → i < length after → get_or after i 0 ≡ get_or (m ++ drop (length m) before) i 0
    entry i lt = elim (dec_lt i (length m)) [
      | yes p ↦ r.message i p ∙ same i p ∙ sym (get_or-append_left m (drop (length m) before) i 0 p)
      | no p ↦
          r.rest i (omega arith)
          ∙ sym (get_or-drop (length m) before (i - length m) i 0 (omega arith))
          ∙ sym (get_or-append_right m (drop (length m) before) i (i - length m) 0 (omega arith))
    ]

module _ (t : Target) {size rd_idx wr_idx : ℕ} {bytes m : List ℕ} {q : Queue} (msg : List ℕ)
    (st : Stores size rd_idx wr_idx bytes (m ∷ q)) where
  open st use {ring, whole, reader, writer, room}

  there : wr_idx ≢ rd_idx
  there e = let r = reader.in_ring in let w = writer in let f = room in absurd (ground arith)

  byte0 : get_or bytes rd_idx 0 ≡ length m / 256
  byte0 =
      let r = reader.in_ring in
      ap (λ j. get_or bytes j 0) {x = rd_idx} {y = wrap size (rd_idx + 0)} (ground arith)
      ∙ st.holds.0.high

  byte1 : get_or bytes (rd_idx + 1) 0 ≡ length m % 256
  byte1 =
      let r = reader.in_ring in
      let a = reader.aligned in
      let w = ring.whole_words in
      ap (λ j. get_or bytes j 0) {x = rd_idx + 1} {y = wrap size (rd_idx + 1)} (ground arith)
      ∙ st.holds.0.low

  stated : stated_len bytes rd_idx ≡ length m
  stated = omega (arith, byte0, byte1)

  high : get_or bytes rd_idx 0 < 256
  high = let s = st.holds.0.short in omega (arith, byte0)

  low : get_or bytes (rd_idx + 1) 0 < 256
  low = omega (arith, byte1)

  -- The caller's buffer is too short for it.
  pub take_packet-long :
      length msg < length m
      → take_packet t size rd_idx wr_idx bytes msg ≡ done (err message_too_big)
  take_packet-long h =
      take_packet-too_big t ring rd_idx wr_idx bytes msg whole reader there high low
        (omega (arith, stated))

  payload_index :
      (i : ℕ) → i < length m → wrap size (wrap size (rd_idx + 4) + i) ≡ wrap size (rd_idx + (4 + i))
  payload_index i lt = let r = reader.in_ring in let f = room in ground arith

  packet_index :
      wrap size (wrap size (rd_idx + 4) + padded_len (length m))
      ≡ wrap size (rd_idx + packet_size (length m))
  packet_index = let r = reader.in_ring in let f = room in ground arith

  -- It is read, and the index behind it is that of the rest of the queue.
  pub take_packet-first :
      length m ≤ length msg
      → take_packet t size rd_idx wr_idx bytes msg
        ≡ done
            (ok (length m, wrap size (rd_idx + packet_size (length m)), m ++ drop (length m) msg))
  take_packet-first h =
      let (after, taken, read) =
        take_packet_lem t ring rd_idx wr_idx bytes msg whole reader there high low
          (omega (arith, stated)) (omega (arith, stated)) in
      let same : (i : ℕ)
          → i < length m
          → get_or bytes (wrap size (wrap size (rd_idx + 4) + i)) 0 ≡ get_or m i 0 =
        λ i lt.
          ap (λ j. get_or bytes j 0) {x = wrap size (wrap size (rd_idx + 4) + i)}
            {y = wrap size (rd_idx + (4 + i))} (payload_index i lt)
          ∙ st.holds.0.payload i lt in
      let copied : after ≡ m ++ drop (length m) msg =
        IsRead-eq m bytes msg after h same
          (subst (λ n. IsRead size (wrap size (rd_idx + 4)) n bytes msg after) stated read) in
      let index : wrap size (wrap size (rd_idx + 4) + padded_len (stated_len bytes rd_idx))
          ≡ wrap size (rd_idx + packet_size (length m)) =
        ap (λ n. wrap size (wrap size (rd_idx + 4) + padded_len n)) stated ∙ packet_index in
      taken ∙ (λ i. done (ok (stated i, index i, copied i)))
