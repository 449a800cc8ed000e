-- ===== src/Transport/Stream.antt =====
-- How the data buffer of a region holds a queue of messages.
pub mod Sees
use icmsg_rs.Prelude.{
  ℕ, ◌+◌, ◌/◌, ◌%◌, ◌^◌, ◌<◌, ◌≡◌, refl, sym, ◌∙◌, ap, List, [], ◌∷◌, ◌++◌, arith, length, get_or,
}
use icmsg_rs.Transport.Cursor.Laws.{wrap, IsRing, IsIndex, wrap-IsIndex}
use icmsg_rs.Transport.Queue.{Queue, packet_size, footprint}

-- The bytes `v 0`, `v 1`, … are a packet that carries `m`: its length, high byte first, and after four
-- bytes itself. Nothing is said of the two reserved bytes and of the padding.
pub record IsPacket (v : ℕ → ℕ) (m : List ℕ) : Type 0 where
  pub short : length m < 2 ^ 16
  pub high : v 0 ≡ length m / 256
  pub low : v 1 ≡ length m % 256
  pub payload : (i : ℕ) → i < length m → v (4 + i) ≡ get_or m i 0

-- The packets of a queue, one behind the other.
abbrev pub Holds : (ℕ → ℕ) → Queue → Type 0
Holds v [] = Unit
Holds v (m ∷ q) = IsPacket v m × Holds (λ i. v (packet_size (length m) + i)) q

IsPacket-ext :
    {v w : ℕ → ℕ} (m : List ℕ)
    → ((i : ℕ) → i < packet_size (length m) → v i ≡ w i)
    → IsPacket v m
    → IsPacket w m
IsPacket-ext m same p = record {
  short = p.short;
  high = sym (same 0 (omega arith)) ∙ p.high;
  low = sym (same 1 (omega arith)) ∙ p.low;
  payload = λ i lt. sym (same (4 + i) (omega arith)) ∙ p.payload i lt;
}

-- Only the bytes of the packets count.
pub Holds-ext :
    (q : Queue) {v w : ℕ → ℕ} → ((i : ℕ) → i < footprint q → v i ≡ w i) → Holds v q → Holds w q
Holds-ext [] same h = tt
Holds-ext (m ∷ q) same h = (
  IsPacket-ext m (λ i lt. same i (omega arith)) h.0,
  Holds-ext q (λ i lt. same (packet_size (length m) + i) (omega arith)) h.1,
)

pub Holds-append :
    (q : Queue) (m : List ℕ) (v : ℕ → ℕ)
    → Holds v q
    → IsPacket (λ i. v (footprint q + i)) m
    → Holds v (q ++ (m ∷ []))
Holds-append [] m v h p = (IsPacket-ext m (λ i lt. ap v (omega arith)) p, tt)
Holds-append (n ∷ q) m v h p = (
  h.0,
  Holds-append q m (λ i. v (packet_size (length n) + i)) h.1
      (IsPacket-ext m (λ i lt. ap v {y = packet_size (length n) + (footprint q + i)} (omega arith))
        p),
)

-- The bytes of a ring from the index `start` on.
abbrev pub view : ℕ → List ℕ → ℕ → ℕ → ℕ
view size bytes start i = get_or bytes (wrap size (start + i)) 0

-- Between the indices `rd_idx` and `wr_idx` a ring of `size` bytes holds the queue `q`.
pub record Stores (size rd_idx wr_idx : ℕ) (bytes : List ℕ) (q : Queue) : Type 0 where
  pub ring : IsRing size
  pub whole : length bytes ≡ size
  pub reader : IsIndex size rd_idx
  pub room : footprint q < size
  pub writer : wr_idx ≡ wrap size (rd_idx + footprint q)
  pub holds : Holds (view size bytes rd_idx) q

pub footprint_aligned : (q : Queue) → footprint q % 4 ≡ 0
footprint_aligned [] = refl
footprint_aligned (m ∷ q) = omega (arith, footprint_aligned q)

-- The writer stands at a word, and meets the reader only if the queue is empty.
pub Stores-writer :
    {size rd_idx wr_idx : ℕ} {bytes : List ℕ} {q : Queue}
    → Stores size rd_idx wr_idx bytes q
    → IsIndex size wr_idx
Stores-writer {rd_idx} {q} st =
    rw st.writer
      (wrap-IsIndex rd_idx (footprint q) st.ring st.reader (omega arith) (footprint_aligned q))

-- The oldest message may be dropped.
pub Stores-tail :
    {size rd_idx wr_idx : ℕ} {bytes m : List ℕ} {q : Queue}
    → Stores size rd_idx wr_idx bytes (m ∷ q)
    → Stores size (wrap size (rd_idx + packet_size (length m))) wr_idx bytes q
Stores-tail {size} {rd_idx} {bytes} {m} {q} st = record {
  ring = st.ring;
  whole = st.whole;
  reader =
      wrap-IsIndex rd_idx (packet_size (length m)) st.ring st.reader (omega arith) (omega arith);
  room = omega arith;
  writer = st.writer ∙ ground arith;
  holds =
      Holds-ext q
        (λ i lt.
          ap (λ j. get_or bytes j 0) {x = wrap size (rd_idx + (packet_size (length m) + i))}
            {y = wrap size (wrap size (rd_idx + packet_size (length m)) + i)} (ground arith))
        st.holds.1;
}
