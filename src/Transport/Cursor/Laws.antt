-- ===== src/Transport/Cursor/Laws.antt =====
-- The index arithmetic never overflows on a ring of at most 2 ^ 31 bytes, and what it computes.
use icmsg_rs.Prelude.{ℕ, ◌+◌, ◌-◌, ◌%◌, ◌^◌, ◌≤◌, ◌<◌, ◌≡◌, Bool, arith, leb, if◌then◌else◌}
use icmsg_rs.Machine.{done}
use icmsg_rs.Transport.Cursor.{free_space, after_header, after_payload}

-- An index below twice the size of the ring, brought back into the ring.
abbrev pub wrap : ℕ → ℕ → ℕ
wrap size k = if leb size k then k - size else k

-- How far `j` lies ahead of `i`, going round.
abbrev pub ahead : ℕ → ℕ → ℕ → ℕ
ahead size i j = if leb i j then j - i else j + size - i

-- A ring as `MemoryConfig` asks for it: whole words, and indices that cannot overflow.
pub record IsRing (size : ℕ) : Type 0 where
  pub whole_words : size % 4 ≡ 0
  pub nonempty : 0 < size
  pub small : size ≤ 2 ^ 31

-- An index at a word of the ring.
pub record IsIndex (size i : ℕ) : Type 0 where
  pub aligned : i % 4 ≡ 0
  pub in_ring : i < size

module _ (checks : Bool) {size : ℕ} (ring : IsRing size) where
  pub free_space-eq :
      (rd wr used : ℕ)
      → rd < size
      → used < size
      → wr ≡ wrap size (rd + used)
      → free_space checks size rd wr ≡ done (size - used - 1)
  unfolding free_space
  free_space-eq rd wr used h u e = ground arith

  pub after_header-eq :
      (i : ℕ) → IsIndex size i → after_header checks size i ≡ done (wrap size (i + 4))
  unfolding after_header
  after_header-eq i h = ground arith

  pub after_payload-eq :
      (i n : ℕ) → i < size → n ≤ size → after_payload checks size i n ≡ done (wrap size (i + n))
  unfolding after_payload
  after_payload-eq i n h le = ground arith

pub wrap-IsIndex :
    {size : ℕ} (i n : ℕ)
    → IsRing size
    → IsIndex size i
    → n ≤ size
    → n % 4 ≡ 0
    → IsIndex size (wrap size (i + n))
wrap-IsIndex i n ring h le e = ground arith
