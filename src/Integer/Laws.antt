-- ===== src/Integer/Laws.antt =====
-- The byte orders of src/transport.rs' integers do not depend on the machine's.
use icmsg_rs.Prelude.{ℕ, ◌+◌, ◌*◌, ◌/◌, ◌%◌, ◌^◌, ◌<◌, ◌≡◌, refl, List, [], ◌∷◌, arith}
use icmsg_rs.Machine.{Endian, little, big, u32_mod}
use icmsg_rs.Integer.{
  swap_u16, swap_u32, LeAtomicU32, from_u16, value, new, load, store, u16_bytes, u16_of_bytes,
}

swap_u16-swap_u16 : (x : ℕ) → x < 2 ^ 16 → swap_u16 (swap_u16 x) ≡ x
swap_u16-swap_u16 x h = omega arith

swap_u32-swap_u32 : (x : ℕ) → x < u32_mod → swap_u32 (swap_u32 x) ≡ x
swap_u32-swap_u32 x h = omega arith

pub load-store : (e : Endian) (a : LeAtomicU32) (v : ℕ) → v < u32_mod → load e (store e a v) ≡ v
unfolding load store
load-store little a v h = refl
load-store big a v h = swap_u32-swap_u32 v h

pub load-new : (e : Endian) (v : ℕ) → v < u32_mod → load e (new e v) ≡ v
unfolding load new
load-new little v h = refl
load-new big v h = swap_u32-swap_u32 v h

-- The wire format: the high byte comes first.
pub u16_bytes-from_u16 :
    (e : Endian) (n : ℕ) → n < 2 ^ 16 → u16_bytes e (from_u16 e n).raw ≡ (n / 256) ∷ (n % 256) ∷ []
unfolding from_u16
u16_bytes-from_u16 little n h = ground arith
u16_bytes-from_u16 big n h = refl

pub value-of_bytes :
    (e : Endian) (x y : ℕ) (rest : List ℕ)
    → x < 256
    → y < 256
    → value e (record { raw = u16_of_bytes e (x ∷ y ∷ rest) }) ≡ x * 256 + y
unfolding value
value-of_bytes little x y rest hx hy = omega arith
value-of_bytes big x y rest hx hy = refl
