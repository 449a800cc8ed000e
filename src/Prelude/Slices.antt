-- ===== src/Prelude/Slices.antt =====
-- A part of a list read or overwritten at an offset: what `copy_nonoverlapping` moves.
use Prim.Native.Nat.{ℕ, ◌+◌, ◌-◌, ◌≤◌, ◌<◌}
use mathlib.Core.Path.{◌≡◌, ◌∙◌}
use mathlib.Core.List.{List, ◌++◌}
use native.Mathlib.Omega.{arith}
use package.icmsg_rs.Prelude.Lists.{
  length, get_or, take, drop, length-append, length-take, length-drop, get_or-append_left,
  get_or-append_right, get_or-take, get_or-drop,
}

module _ {ℓ} {A : Type ℓ} where
  -- The `n` elements from `off` on.
  unfoldable pub slice : List A → ℕ → ℕ → List A
  slice xs off n = take n (drop off xs)

  -- `xs` with `ys` written over it from `off` on.
  unfoldable pub splice : List A → ℕ → List A → List A
  splice xs off ys = take off xs ++ (ys ++ drop (off + length ys) xs)

  pub length-slice : (xs : List A) (off n : ℕ) → off + n ≤ length xs → length (slice xs off n) ≡ n
  unfolding slice
  length-slice xs off n h = omega (arith, length-take n (drop off xs), length-drop off xs)

  pub get_or-slice :
      (xs : List A) (off n i : ℕ) (d : A)
      → i < n
      → get_or (slice xs off n) i d ≡ get_or xs (off + i) d
  unfolding slice
  get_or-slice xs off n i d h =
      get_or-take n (drop off xs) i d h ∙ get_or-drop off xs i (off + i) d (omega arith)

  pub length-splice :
      (xs : List A) (off : ℕ) (ys : List A)
      → off + length ys ≤ length xs
      → length (splice xs off ys) ≡ length xs
  unfolding splice
  length-splice xs off ys h = omega (
    arith,
    length-append (take off xs) (ys ++ drop (off + length ys) xs),
    length-append ys (drop (off + length ys) xs),
    length-take off xs,
    length-drop (off + length ys) xs,
  )

  pub get_or-splice_in :
      (xs : List A) (off : ℕ) (ys : List A) (i j : ℕ) (d : A)
      → off + length ys ≤ length xs
      → i < length ys
      → j ≡ off + i
      → get_or (splice xs off ys) j d ≡ get_or ys i d
  unfolding splice
  get_or-splice_in xs off ys i j d h lt e =
      get_or-append_right (take off xs) (ys ++ drop (off + length ys) xs) j i d
        (omega (arith, length-take off xs))
      ∙ get_or-append_left ys (drop (off + length ys) xs) i d lt

  pub get_or-splice_before :
      (xs : List A) (off : ℕ) (ys : List A) (i : ℕ) (d : A)
      → off + length ys ≤ length xs
      → i < off
      → get_or (splice xs off ys) i d ≡ get_or xs i d
  unfolding splice
  get_or-splice_before xs off ys i d h lt =
      get_or-append_left (take off xs) (ys ++ drop (off + length ys) xs) i d
        (omega (arith, length-take off xs))
      ∙ get_or-take off xs i d lt

  pub get_or-splice_after :
      (xs : List A) (off : ℕ) (ys : List A) (i : ℕ) (d : A)
      → off + length ys ≤ length xs
      → off + length ys ≤ i
      → get_or (splice xs off ys) i d ≡ get_or xs i d
  unfolding splice
  get_or-splice_after xs off ys i d h le =
      get_or-append_right (take off xs) (ys ++ drop (off + length ys) xs) i (i - off) d
        (omega (arith, length-take off xs))
      ∙ get_or-append_right ys (drop (off + length ys) xs) (i - off) (i - off - length ys) d
          (omega arith)
      ∙ get_or-drop (off + length ys) xs (i - off - length ys) i d (omega arith)
