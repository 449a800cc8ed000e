-- ===== src/Transport/Reference/Bytes.antt =====
-- Writing and reading the ring of src/transport.rs one byte at a time, and that what is written or read
-- determines the result.
use icmsg_rs.Prelude.{
  ℕ, zero, suc, ◌+◌, ◌-◌, ◌≤◌, ◌<◌, ◌≡◌, refl, sym, ◌∙◌, ap, List, [], ◌∷◌, ◌++◌, arith, dec_lt,
  length, drop, get_or, splice, list_ext, length-append, length-drop, get_or-append_left,
  get_or-append_right, get_or-drop,
}
use icmsg_rs.Transport.Cursor.Laws.{wrap, ahead}
use icmsg_rs.Transport.Sender.Copy.{IsWritten, splice-IsWritten}
use icmsg_rs.Transport.Sender.Fill.{append-IsWritten}
use icmsg_rs.Transport.Receiver.Copy.{IsRead}

-- The bytes `msg`, written one by one from the index `i` on, and what is read so.
unfoldable pub write_ring : ℕ → ℕ → List ℕ → List ℕ → List ℕ
unfolding splice
write_ring size i bytes [] = bytes
write_ring size i bytes (b ∷ msg) =
    write_ring size (wrap size (i + 1)) (splice bytes i (b ∷ [])) msg

unfoldable pub read_ring : ℕ → ℕ → ℕ → List ℕ → List ℕ
read_ring size zero i bytes = []
read_ring size (suc n) i bytes = get_or bytes i 0 ∷ read_ring size n (wrap size (i + 1)) bytes

pub write_ring-IsWritten :
    {size : ℕ} (i : ℕ) (bytes msg : List ℕ)
    → length bytes ≡ size
    → i < size
    → length msg ≤ size
    → IsWritten size i msg bytes (write_ring size i bytes msg)
unfolding write_ring
write_ring-IsWritten i bytes [] e lt le = record {
  keeps_length = e;
  inside = λ j none. absurd (omega arith);
  outside = λ j j_lt far. refl;
}
write_ring-IsWritten {size} i bytes (b ∷ msg) e lt le =
    let one = splice-IsWritten i (b ∷ []) bytes e lt (omega arith) in
    append-IsWritten (b ∷ []) msg bytes (splice bytes i (b ∷ [])) _ lt (omega arith) one (
      write_ring-IsWritten (wrap size (i + 1)) (splice bytes i (b ∷ [])) msg one.keeps_length
        (ground arith) (omega arith))

-- What is written, and where, determines the bytes.
pub IsWritten-unique :
    {size start : ℕ} {payload before xs ys : List ℕ}
    → start < size
    → IsWritten size start payload before xs
    → IsWritten size start payload before ys
    → xs ≡ ys
IsWritten-unique {size} {start} {payload} {before} {xs} {ys} lt u v =
    list_ext 0 xs ys (u.keeps_length ∙ sym v.keeps_length)
      (λ j j_lt. same j (omega (arith, u.keeps_length)))
  where
    at : (j : ℕ) → j < size → wrap size (start + ahead size start j) ≡ j
    at j j_lt = ground arith

    same : (j : ℕ) → j < size → get_or xs j 0 ≡ get_or ys j 0
    same j j_lt = elim (dec_lt (ahead size start j) (length payload)) [
      | yes p ↦
          ap (λ k. get_or xs k 0) (sym (at j j_lt))
          ∙ u.inside (ahead size start j) p
          ∙ sym (v.inside (ahead size start j) p)
          ∙ ap (λ k. get_or ys k 0) (at j j_lt)
      | no p ↦ u.outside j j_lt (omega arith) ∙ sym (v.outside j j_lt (omega arith))
    ]

length-read_ring : (size n i : ℕ) (bytes : List ℕ) → length (read_ring size n i bytes) ≡ n
unfolding read_ring
length-read_ring size zero i bytes = refl
length-read_ring size (suc n) i bytes = ap suc (length-read_ring size n (wrap size (i + 1)) bytes)

get_or-read_ring :
    (size n i j : ℕ) (bytes : List ℕ)
    → i < size
    → n ≤ size
    → j < n
    → get_or (read_ring size n i bytes) j 0 ≡ get_or bytes (wrap size (i + j)) 0
unfolding read_ring
get_or-read_ring size zero i j bytes lt le j_lt = absurd (omega arith)
get_or-read_ring size (suc n) i zero bytes lt le j_lt =
    ap (λ k. get_or bytes k 0) {x = i} {y = wrap size (i + 0)} (ground arith)
get_or-read_ring size (suc n) i (suc j) bytes lt le j_lt =
    get_or-read_ring size n (wrap size (i + 1)) j bytes (ground arith) (omega arith) (omega arith)
    ∙ ap (λ k. get_or bytes k 0) {x = wrap size (wrap size (i + 1) + j)} {y = wrap size (i + suc j)}
        (ground arith)

-- What is read over the front of a buffer is determined too.
pub IsRead-read_ring :
    {size start n : ℕ} {bytes before after : List ℕ}
    → start < size
    → n ≤ size
    → n ≤ length before
    → IsRead size start n bytes before after
    → after ≡ read_ring size n start bytes ++ drop n before
IsRead-read_ring {size} {start} {n} {bytes} {before} {after} lt le fits h =
    list_ext 0 after (front ++ drop n before)
      (h.keeps_length
        ∙ omega (arith, length-append front (drop n before), whole, length-drop n before))
      (λ i i_lt. elim (dec_lt i n) [
        | yes p ↦
            h.message i p
            ∙ sym (get_or-read_ring size n start i bytes lt le p)
            ∙ sym (get_or-append_left front (drop n before) i 0 (omega (arith, whole)))
        | no p ↦
            h.rest i (omega arith)
            ∙ sym (get_or-drop n before (i - n) i 0 (omega arith))
            ∙ sym (get_or-append_right front (drop n before) i (i - n) 0 (omega (arith, whole)))
      ])
  where
    front : List ℕ
    front = read_ring size n start bytes

    whole : length front ≡ n
    whole = length-read_ring size n start bytes
