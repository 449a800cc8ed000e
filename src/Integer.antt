-- ===== src/Integer.antt =====
-- `mod integer` of src/transport.rs: a big-endian `u16` and a little-endian atomic `u32`, on a machine
-- of either byte order. The raw field is the number that the machine itself sees in those bytes.
pub mod Laws
use icmsg_rs.Prelude.{ℕ, ◌+◌, ◌*◌, ◌/◌, ◌%◌, List, [], ◌∷◌, get_or}
use icmsg_rs.Machine.{Endian, little, big}

-- `u16::swap_bytes` and `u32::swap_bytes`.
abbrev pub swap_u16 : ℕ → ℕ
swap_u16 x = x % 256 * 256 + x / 256

abbrev pub swap_u32 : ℕ → ℕ
swap_u32 x = x % 256 * 16777216 + x / 256 % 256 * 65536 + x / 65536 % 256 * 256 + x / 16777216

-- `to_be` and `from_be` of `u16`, `to_le` and `from_le` of `u32`.
abbrev pub be_u16 : Endian → ℕ → ℕ
be_u16 little x = swap_u16 x
be_u16 big x = x

abbrev pub le_u32 : Endian → ℕ → ℕ
le_u32 little x = x
le_u32 big x = swap_u32 x

-- How a machine lays a `u16` out in memory, and reads it back.
abbrev pub u16_bytes : Endian → ℕ → List ℕ
u16_bytes little x = (x % 256) ∷ (x / 256) ∷ []
u16_bytes big x = (x / 256) ∷ (x % 256) ∷ []

abbrev pub u16_of_bytes : Endian → List ℕ → ℕ
u16_of_bytes little bytes = get_or bytes 0 0 + get_or bytes 1 0 * 256
u16_of_bytes big bytes = get_or bytes 0 0 * 256 + get_or bytes 1 0

-- `BeU16`
pub record BeU16 : Type 0 where
  pub raw : ℕ

-- `From<u16> for BeU16`
unfoldable pub from_u16 : Endian → ℕ → BeU16
from_u16 e t = record { raw = be_u16 e t }

-- `BeU16::value`, through `From<BeU16> for u16`
unfoldable pub value : Endian → BeU16 → ℕ
value e t = be_u16 e t.raw

-- `LeAtomicU32`
pub record LeAtomicU32 : Type 0 where
  pub raw : ℕ

-- `LeAtomicU32::new`
unfoldable pub new : Endian → ℕ → LeAtomicU32
new e v = record { raw = le_u32 e v }

-- `LeAtomicU32::load`
unfoldable pub load : Endian → LeAtomicU32 → ℕ
load e a = le_u32 e a.raw

-- `LeAtomicU32::store`, which leaves the new value of the atomic
unfoldable pub store : Endian → LeAtomicU32 → ℕ → LeAtomicU32
store e a val = record a { raw = le_u32 e val }
