-- ===== src/Machine.antt =====
-- The machine that the crate runs on, as far as the code in src/transport.rs depends on it: the byte
-- order, whether arithmetic overflow and `debug_assert!` are checked (debug builds) or not, and what
-- happens at an access outside a buffer.
pub mod Laws
use icmsg_rs.Prelude.{
  ℕ, ◌+◌, ◌-◌, ◌%◌, ◌^◌, Bool, List, ◌++◌, ltb, leb, if◌then◌else◌, length, take, drop, slice,
  splice,
}

-- A run of Rust code: its value, a panic, or undefined behaviour (an access out of bounds).
pub data Exec {ℓ} (A : Type ℓ) : Type ℓ where
  done : A → Exec A
  panicked : Exec A
  undefined : Exec A

infixl 5 ◌>>=◌ ◌>>◌
abbrev pub ◌>>=◌ {ℓ κ} : {A : Type ℓ} {B : Type κ} → Exec A → (A → Exec B) → Exec B
done a >>= f = f a
panicked >>= f = panicked
undefined >>= f = undefined

abbrev pub ◌>>◌ {ℓ κ} : {A : Type ℓ} {B : Type κ} → Exec A → Exec B → Exec B
m >> k = m >>= λ _. k

-- `core::result::Result`, its error type second.
pub data Result {ℓ κ} (A : Type ℓ) (E : Type κ) : Type (ℓ ⊔ κ) where
  ok : A → Result A E
  err : E → Result A E

abbrev pub map_err {ℓ κ μ} :
    {A : Type ℓ} {E : Type κ} {F : Type μ} → (E → F) → Result A E → Result A F
map_err f (ok a) = ok a
map_err f (err e) = err (f e)

pub data Endian : Type 0 where
  little big : Endian

-- `uninit0` and `uninit1` are what two bytes of `MaybeUninit::uninit()` happen to hold.
pub record Target : Type 0 where
  pub endian : Endian
  pub overflow_checks : Bool
  pub debug_assertions : Bool
  pub uninit0 : ℕ
  pub uninit1 : ℕ

abbrev pub u32_mod : ℕ
u32_mod = 2 ^ 32

-- `a as u32` and `a as u16`.
abbrev pub as_u32 : ℕ → ℕ
as_u32 a = a % 2 ^ 32

abbrev pub as_u16 : ℕ → ℕ
as_u16 a = a % 2 ^ 16

-- `a + b` and `a - b` on `u32`.
unfoldable pub add_u32 : Bool → ℕ → ℕ → Exec ℕ
add_u32 overflow_checks a b =
    if ltb (a + b) u32_mod
    then done (a + b)
    else if overflow_checks
    then panicked
    else done ((a + b) % u32_mod)

unfoldable pub sub_u32 : Bool → ℕ → ℕ → Exec ℕ
sub_u32 overflow_checks a b =
    if leb b a
    then done (a - b)
    else if overflow_checks
    then panicked
    else done ((a + u32_mod - b) % u32_mod)

-- `data_ptr.add(off).copy_to_nonoverlapping(_, n)` and a typed `read()` of `n` bytes.
unfoldable pub read_bytes : List ℕ → ℕ → ℕ → Exec (List ℕ)
read_bytes mem off n = if leb (off + n) (length mem) then done (slice mem off n) else undefined

-- `data_ptr.add(off).copy_from_nonoverlapping(bytes, bytes.len())` and a typed `write(_)`.
unfoldable pub write_bytes : List ℕ → ℕ → List ℕ → Exec (List ℕ)
write_bytes mem off bytes =
    if leb (off + length bytes) (length mem) then done (splice mem off bytes) else undefined

-- `debug_assert!`
unfoldable pub debug_assert : Target → Bool → Exec (Unit {0})
debug_assert t cond = if t.debug_assertions then (if cond then done tt else panicked) else done tt

-- `split_at`, also for the slice `[..n]` and what it leaves.
unfoldable pub split_at {ℓ} : {A : Type ℓ} → ℕ → List A → Exec (List A × List A)
split_at n xs = if leb n (length xs) then done (take n xs, drop n xs) else panicked
