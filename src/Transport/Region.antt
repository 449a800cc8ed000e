-- ===== src/Transport/Region.antt =====
-- What stands in a shared memory region, and the types of src/transport.rs that both halves use.
pub mod Laws
use icmsg_rs.Prelude.{ℕ, ◌+◌, ◌-◌, ◌*◌, ◌%◌, List, [], ◌∷◌, ◌++◌, drop, get_or}
use icmsg_rs.Machine.{Endian, Target}
use icmsg_rs.Integer.{BeU16, LeAtomicU32, from_u16, u16_bytes, u16_of_bytes}

-- `SharedMemoryRegionHeader` with the data bytes that follow it. The padding of `Index` holds nothing.
pub record SharedMemoryRegion : Type 0 where
  pub rd_idx : LeAtomicU32
  pub wr_idx : LeAtomicU32
  pub bytes : List ℕ

-- `PacketHeader`; its two reserved bytes are never initialised and never read.
pub record PacketHeader : Type 0 where
  pub len : BeU16
  pub reserved0 : ℕ
  pub reserved1 : ℕ

-- `size_of::<PacketHeader>()`
abbrev pub header_size : ℕ
header_size = 4

-- `PacketHeader::new`
unfoldable pub new : Target → ℕ → PacketHeader
new t len = record { len = from_u16 t.endian len; reserved0 = t.uninit0; reserved1 = t.uninit1 }

-- The `#[repr(C)]` layout of `PacketHeader` in memory, and its reading back.
unfoldable pub header_bytes : Endian → PacketHeader → List ℕ
header_bytes e h = u16_bytes e h.len.raw ++ (h.reserved0 ∷ h.reserved1 ∷ [])

unfoldable pub header_of_bytes : Endian → List ℕ → PacketHeader
header_of_bytes e bytes = record {
  len = record { raw = u16_of_bytes e bytes };
  reserved0 = get_or bytes 2 0;
  reserved1 = get_or bytes 3 0;
}

-- `msg.len() + (4 - msg.len() % 4) % 4`
abbrev pub padded_len : ℕ → ℕ
padded_len n = n + (4 - n % 4) % 4

pub data SendError : Type 0 where
  insufficient_capacity invalid_state : SendError

pub data RecvError : Type 0 where
  message_too_big empty invalid_message : RecvError

-- The trait `Notifier`: `notify` changes the notifier.
pub record Notifier {ℓ} (M : Type ℓ) : Type ℓ where
  pub notify : M → M
