-- ===== src/Transport/Stream/Sees.antt =====
-- What a receiver that runs beside the sender sees of the data: the packets in front of the write index that it
-- has loaded, and anything elsewhere.
use icmsg_rs.Prelude.{ℕ, ◌+◌, ◌<◌, ◌≡◌, refl, sym, ◌∙◌, List, arith, length, get_or}
use icmsg_rs.Transport.Cursor.Laws.{wrap, ahead}
use icmsg_rs.Transport.Queue.{Queue}
use icmsg_rs.Transport.Stream.{Stores, Holds-ext}

-- `seen` is what the reads of a call give that has loaded `wr_idx`, where the memory is `bytes`.
pub record Sees (size rd_idx wr_idx : ℕ) (bytes seen : List ℕ) : Type 0 where
  pub same_len : length seen ≡ length bytes
  pub published :
      (i : ℕ)
      → i < ahead size rd_idx wr_idx
      → get_or seen (wrap size (rd_idx + i)) 0 ≡ get_or bytes (wrap size (rd_idx + i)) 0

-- The memory itself may be seen.
pub Sees-refl : {size rd_idx wr_idx : ℕ} (bytes : List ℕ) → Sees size rd_idx wr_idx bytes bytes
Sees-refl bytes = record { same_len = refl; published = λ i lt. refl }

pub Stores-Sees :
    {size rd_idx wr_idx : ℕ} {bytes seen : List ℕ} {q : Queue}
    → Stores size rd_idx wr_idx bytes q
    → Sees size rd_idx wr_idx bytes seen
    → Stores size rd_idx wr_idx seen q
Stores-Sees {size} {rd_idx} {q} st view = record {
  ring = st.ring;
  whole = view.same_len ∙ st.whole;
  reader = st.reader;
  room = st.room;
  writer = st.writer;
  holds =
      Holds-ext q
        (λ i lt. sym (view.published i (ground (arith, st.writer, st.room, st.reader.in_ring, lt))))
        st.holds;
}
