-- ===== src/Transport/Region/Laws.antt =====
-- The bytes of a packet header are the same on every machine: the length, high byte first.
use icmsg_rs.Prelude.{
  ℕ, ◌+◌, ◌*◌, ◌/◌, ◌%◌, ◌^◌, ◌<◌, ◌≡◌, refl, List, [], ◌∷◌, ◌++◌, arith, get_or, ap,
}
use icmsg_rs.Machine.{Endian, little, big, Target}
use icmsg_rs.Integer.{value}
use icmsg_rs.Integer.Laws.{u16_bytes-from_u16}
use icmsg_rs.Transport.Region.{new, header_bytes, header_of_bytes}

pub header_bytes-new :
    (t : Target) (n : ℕ)
    → n < 2 ^ 16
    → header_bytes t.endian (new t n) ≡ (n / 256) ∷ (n % 256) ∷ t.uninit0 ∷ t.uninit1 ∷ []
unfolding header_bytes new
header_bytes-new t n h =
    ap (λ l. l ++ (t.uninit0 ∷ t.uninit1 ∷ [])) (u16_bytes-from_u16 t.endian n h)

pub value-header_of_bytes :
    (e : Endian) (bytes : List ℕ)
    → get_or bytes 0 0 < 256
    → get_or bytes 1 0 < 256
    → value e (header_of_bytes e bytes).len ≡ get_or bytes 0 0 * 256 + get_or bytes 1 0
unfolding header_of_bytes value
value-header_of_bytes little bytes h0 h1 = omega arith
value-header_of_bytes big bytes h0 h1 = refl
