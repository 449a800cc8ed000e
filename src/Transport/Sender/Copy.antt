-- ===== src/Transport/Sender/Copy.antt =====
-- The copy of the payload in `send`: what it writes, and that it stays inside the data buffer.
use icmsg_rs.Prelude.{
  ℕ, ◌+◌, ◌-◌, ◌≤◌, ◌<◌, ◌≡◌, refl, ◌∙◌, List, arith, dec_lt, length, take, drop, get_or, splice,
  length-take, length-drop, length-splice, get_or-splice_in, get_or-splice_before,
  get_or-splice_after, get_or-take, get_or-drop, lt→ltb, le→not-ltb,
}
use icmsg_rs.Machine.{done, Target}
use icmsg_rs.Machine.Laws.{sub_u32-eq, split_at-eq, write_bytes-eq}
use icmsg_rs.Transport.Cursor.Laws.{wrap, ahead}
use icmsg_rs.Transport.Sender.{copy_in}

-- `after` is `before` with `payload` written round the ring from `start` on, and nothing else.
pub record IsWritten (size start : ℕ) (payload before after : List ℕ) : Type 0 where
  pub keeps_length : length after ≡ size
  pub inside :
      (i : ℕ) → i < length payload → get_or after (wrap size (start + i)) 0 ≡ get_or payload i 0
  pub outside :
      (j : ℕ)
      → j < size
      → length payload ≤ ahead size start j
      → get_or after j 0 ≡ get_or before j 0

-- A write that does not go round.
pub splice-IsWritten :
    {size : ℕ} (start : ℕ) (payload before : List ℕ)
    → length before ≡ size
    → start < size
    → start + length payload ≤ size
    → IsWritten size start payload before (splice before start payload)
splice-IsWritten start payload before e s h = record {
  keeps_length = length-splice before start payload (omega arith) ∙ e;
  inside = λ i lt. get_or-splice_in before start payload i _ 0 (omega arith) lt (ground arith);
  outside = λ j lt far. elim (dec_lt j start) [
    | yes p ↦ get_or-splice_before before start payload j 0 (omega arith) p
    | no p ↦ get_or-splice_after before start payload j 0 (omega arith) (ground arith)
  ];
}

-- A write in two parts, up to the end of the buffer and on from its start.
module _ {size : ℕ} (start : ℕ) (msg before : List ℕ) (e : length before ≡ size) (s : start < size)
    (split : size - start < length msg) (h : length msg ≤ size) where
  abbrev front : List ℕ
  front = take (size - start) msg

  abbrev back : List ℕ
  back = drop (size - start) msg

  pub length-front : length front ≡ size - start
  length-front = omega (arith, length-take (size - start) msg)

  pub length-back : length back ≡ length msg - (size - start)
  length-back = length-drop (size - start) msg

  length-once : length (splice before start front) ≡ size
  length-once = length-splice before start front (omega (arith, length-front)) ∙ e

  get_or-twice :
      (i j : ℕ)
      → i < length msg
      → j ≡ wrap size (start + i)
      → get_or (splice (splice before start front) 0 back) j 0 ≡ get_or msg i 0
  get_or-twice i j lt at = elim (dec_lt i (size - start)) [
    | yes p ↦
        get_or-splice_after (splice before start front) 0 back j 0
          (omega (arith, length-once, length-back)) (ground (arith, length-back))
        ∙ get_or-splice_in before start front i j 0 (omega (arith, length-front))
            (omega (arith, length-front)) (ground arith)
        ∙ get_or-take (size - start) msg i 0 p
    | no p ↦
        get_or-splice_in (splice before start front) 0 back (i - (size - start)) j 0
          (omega (arith, length-once, length-back)) (omega (arith, length-back)) (ground arith)
        ∙ get_or-drop (size - start) msg (i - (size - start)) i 0 (omega arith)
  ]

  pub splice-splice-IsWritten :
      IsWritten size start msg before (splice (splice before start front) 0 back)
  splice-splice-IsWritten = record {
    keeps_length =
        length-splice (splice before start front) 0 back (omega (arith, length-once, length-back))
        ∙ length-once;
    inside = λ i lt. get_or-twice i _ lt refl;
    outside = λ j lt far.
        get_or-splice_after (splice before start front) 0 back j 0
          (omega (arith, length-once, length-back)) (ground (arith, length-back))
        ∙ get_or-splice_before before start front j 0 (omega (arith, length-front)) (ground arith);
  }

-- `copy_in` stays inside the data buffer, and writes the message round the ring.
pub copy_in_lem :
    (t : Target) {size : ℕ} (start : ℕ) (msg before : List ℕ)
    → length before ≡ size
    → start < size
    → length msg ≤ size
    → (after : List ℕ) × (copy_in t size start before msg ≡ done after)
      × IsWritten size start msg before after
unfolding copy_in
copy_in_lem t {size} start msg before e s h = elim (dec_lt (size - start) (length msg)) [
  | yes p ↦ (
    _,
    rw (
      sub_u32-eq t.overflow_checks size start (omega arith),
      lt→ltb _ _ p,
      split_at-eq (size - start) msg (omega arith),
      write_bytes-eq before start (take (size - start) msg)
          (omega (arith, length-front start msg before e s p h)),
      write_bytes-eq (splice before start (take (size - start) msg)) 0 (drop (size - start) msg) (
          omega
            (arith, length-once start msg before e s p h, length-back start msg before e s p h)),
    ),
    splice-splice-IsWritten start msg before e s p h,
  )
  | no p ↦ (
    _,
    rw (
      sub_u32-eq t.overflow_checks size start (omega arith),
      le→not-ltb (size - start) (length msg) (omega arith),
      write_bytes-eq before start msg (omega arith),
    ),
    splice-IsWritten start msg before e s (omega arith),
  )
]
