-- ===== src/Machine/Laws.antt =====
-- When the operations of the machine give a value.
use icmsg_rs.Prelude.{
  ℕ, ◌+◌, ◌-◌, ◌≤◌, ◌<◌, ◌≡◌, arith, Bool, true, List, le→leb, lt→ltb, lt→not-leb, length, take,
  drop, slice, splice,
}
use icmsg_rs.Machine.{
  Exec, done, undefined, Result, ok, err, Target, debug_assert, u32_mod, add_u32, sub_u32,
  read_bytes, write_bytes, split_at,
}

pub add_u32-eq : (c : Bool) (a b : ℕ) → a + b < u32_mod → add_u32 c a b ≡ done (a + b)
unfolding add_u32
add_u32-eq c a b h = rw (lt→ltb (a + b) u32_mod h)

pub sub_u32-eq : (c : Bool) (a b : ℕ) → b ≤ a → sub_u32 c a b ≡ done (a - b)
unfolding sub_u32
sub_u32-eq c a b h = rw (le→leb b a h)

pub read_bytes-eq :
    (mem : List ℕ) (off n : ℕ)
    → off + n ≤ length mem
    → read_bytes mem off n ≡ done (slice mem off n)
unfolding read_bytes
read_bytes-eq mem off n h = rw (le→leb (off + n) (length mem) h)

pub write_bytes-eq :
    (mem : List ℕ) (off : ℕ) (bytes : List ℕ)
    → off + length bytes ≤ length mem
    → write_bytes mem off bytes ≡ done (splice mem off bytes)
unfolding write_bytes
write_bytes-eq mem off bytes h = rw (le→leb (off + length bytes) (length mem) h)

pub split_at-eq {ℓ} :
    {A : Type ℓ} (n : ℕ) (xs : List A) → n ≤ length xs → split_at n xs ≡ done (take n xs, drop n xs)
unfolding split_at
split_at-eq n xs h = rw (le→leb n (length xs) h)

pub write_bytes-undefined :
    (mem : List ℕ) (off : ℕ) (bytes : List ℕ)
    → length mem < off + length bytes
    → write_bytes mem off bytes ≡ undefined
unfolding write_bytes
write_bytes-undefined mem off bytes h = rw (lt→not-leb (off + length bytes) (length mem) h)

pub debug_assert-eq : (t : Target) (b : Bool) → b ≡ true → debug_assert t b ≡ done tt
unfolding debug_assert
debug_assert-eq t b h = ground arith

-- Two results of one run are one.
module _ {ℓ κ} {A : Type ℓ} {E : Type κ} where
  pub done_ok-injective :
      {m : Exec (Result A E)} (a b : A) → m ≡ done (ok a) → m ≡ done (ok b) → a ≡ b
  done_ok-injective a b p q = cc

  pub done_ok-ne-err :
      {m : Exec (Result A E)} (a : A) (e : E) → m ≡ done (ok a) → m ≡ done (err e) → ⊥
  done_ok-ne-err a e p q = cc

  pub done_err-injective :
      {m : Exec (Result A E)} (d e : E) → m ≡ done (err d) → m ≡ done (err e) → d ≡ e
  done_err-injective d e p q = cc
