-- ===== src/Transport/Receiver/Copy.antt =====
-- The copy of the payload in `try_recv`: what it reads, and that it stays inside the data buffer.
use icmsg_rs.Prelude.{
  ℕ, ◌+◌, ◌-◌, ◌≤◌, ◌<◌, ◌≡◌, ◌∙◌, ap, List, ◌++◌, arith, dec_lt, length, take, drop, get_or,
  length-take, length-drop, length-append, get_or-append_left, get_or-append_right, get_or-drop,
  slice, splice, length-slice, get_or-slice, length-splice, get_or-splice_in, get_or-splice_after,
  lt→ltb, le→not-ltb,
}
use icmsg_rs.Machine.{done, Target}
use icmsg_rs.Machine.Laws.{sub_u32-eq, split_at-eq, read_bytes-eq, write_bytes-eq}
use icmsg_rs.Transport.Cursor.Laws.{wrap}
use icmsg_rs.Transport.Receiver.{copy_out}

-- `after` is the buffer `before` with the `n` bytes of the ring from `start` on over its front.
pub record IsRead (size start n : ℕ) (bytes before after : List ℕ) : Type 0 where
  pub keeps_length : length after ≡ length before
  pub message : (i : ℕ) → i < n → get_or after i 0 ≡ get_or bytes (wrap size (start + i)) 0
  pub rest : (i : ℕ) → n ≤ i → get_or after i 0 ≡ get_or before i 0

module _ {size : ℕ} (start n : ℕ) (bytes before : List ℕ) (e : length bytes ≡ size)
    (s : start < size) (fits : n ≤ length before) where
  one_part :
      start + n ≤ size → IsRead size start n bytes before (splice before 0 (slice bytes start n))
  one_part h = record {
    keeps_length = length-splice before 0 part (omega (arith, length-part));
    message = λ i lt.
        get_or-splice_in before 0 part i i 0 (omega (arith, length-part))
          (omega (arith, length-part)) (omega arith)
        ∙ get_or-slice bytes start n i 0 lt
        ∙ ap (λ j. get_or bytes j 0) {x = start + i} {y = wrap size (start + i)} (ground arith);
    rest = λ i le.
        get_or-splice_after before 0 part i 0 (omega (arith, length-part))
          (omega (arith, length-part));
  }
    where
      part : List ℕ
      part = slice bytes start n

      length-part : length part ≡ n
      length-part = length-slice bytes start n (omega arith)

  -- The two parts, and what the buffer held behind them.
  abbrev joined : List ℕ
  joined = slice bytes start (size - start) ++ (slice bytes 0 (n - (size - start)) ++ drop n before)

  two_parts : size - start < n → n ≤ size → IsRead size start n bytes before joined
  two_parts split h = record {
    keeps_length = omega (
      arith,
      length-append (slice bytes start (size - start))
          (slice bytes 0 (n - (size - start)) ++ drop n before),
      length-append (slice bytes 0 (n - (size - start))) (drop n before),
      length-p1,
      length-p2,
      length-drop n before,
    );
    message = λ i lt. elim (dec_lt i (size - start)) [
      | yes p ↦
          get_or-append_left p1 (p2 ++ drop n before) i 0 (omega (arith, length-p1))
          ∙ get_or-slice bytes start (size - start) i 0 p
          ∙ ap (λ j. get_or bytes j 0) {x = start + i} {y = wrap size (start + i)} (ground arith)
      | no p ↦
          get_or-append_right p1 (p2 ++ drop n before) i (i - (size - start)) 0
            (omega (arith, length-p1))
          ∙ get_or-append_left p2 (drop n before) (i - (size - start)) 0 (omega (arith, length-p2))
          ∙ get_or-slice bytes 0 (n - (size - start)) (i - (size - start)) 0 (omega arith)
          ∙ ap (λ j. get_or bytes j 0) {x = 0 + (i - (size - start))} {y = wrap size (start + i)}
              (ground arith)
    ];
    rest = λ i le.
        get_or-append_right p1 (p2 ++ drop n before) i (i - (size - start)) 0
          (omega (arith, length-p1))
        ∙ get_or-append_right p2 (drop n before) (i - (size - start)) (i - n) 0
            (omega (arith, length-p2))
        ∙ get_or-drop n before (i - n) i 0 (omega arith);
  }
    where
      p1 : List ℕ
      p1 = slice bytes start (size - start)

      p2 : List ℕ
      p2 = slice bytes 0 (n - (size - start))

      length-p1 : length p1 ≡ size - start
      length-p1 = length-slice bytes start (size - start) (omega arith)

      length-p2 : length p2 ≡ n - (size - start)
      length-p2 = length-slice bytes 0 (n - (size - start)) (omega arith)

  pub copy_out_lem :
      (t : Target)
      → n ≤ size
      → (after : List ℕ) × (copy_out t size start bytes n before ≡ done after)
        × IsRead size start n bytes before after
  unfolding copy_out
  copy_out_lem t h = elim (dec_lt (size - start) n) [
    | yes p ↦ (
      joined,
      rw (
        sub_u32-eq t.overflow_checks size start (omega arith),
        lt→ltb _ _ p,
        split_at-eq n before fits,
        split_at-eq (size - start) (take n before) (omega (arith, length-take n before)),
        read_bytes-eq bytes start (length (take (size - start) (take n before)))
            (omega (arith, length-take (size - start) (take n before))),
        read_bytes-eq bytes 0 (length (drop (size - start) (take n before)))
            (omega (arith, length-drop (size - start) (take n before), length-take n before)),
        first p,
        second p,
      ),
      two_parts p h,
    )
    | no p ↦ (
      splice before 0 (slice bytes start n),
      rw (
        sub_u32-eq t.overflow_checks size start (omega arith),
        le→not-ltb (size - start) n (omega arith),
        read_bytes-eq bytes start n (omega arith),
        write_bytes-eq before 0 (slice bytes start n) (omega (arith, length-slice bytes start n)),
      ),
      one_part (omega arith),
    )
  ]
    where
      first : size - start < n → length (take (size - start) (take n before)) ≡ size - start
      first p = omega (arith, length-take (size - start) (take n before), length-take n before)

      second : size - start < n → length (drop (size - start) (take n before)) ≡ n - (size - start)
      second p = omega (arith, length-drop (size - start) (take n before), length-take n before)
