-- ===== src/Example/WriteBuf.antt =====
-- app-core/src/uninit_write_buf.rs: a buffer of uninitialised bytes that is written from its start.
use icmsg_rs.Prelude.{
  ℕ, zero, suc, ◌+◌, ◌-◌, ◌≤◌, ◌≡◌, refl, sym, ap, min, Option, none, some, false, List, [], ◌∷◌,
  ◌++◌, arith, ◌==◌, if◌then◌else◌, length, take, drop, splice, length-append, take-append,
  append_assoc, append-nil, length-drop,
}
use icmsg_rs.Machine.{Exec, done, undefined, ◌>>=◌}

-- A byte that may be uninitialised, `none`.
abbrev pub MaybeUninit : Type 0
MaybeUninit = Option ℕ

abbrev pub inits : List ℕ → List MaybeUninit
inits [] = []
inits (b ∷ bs) = some b ∷ inits bs

-- `UninitWriteBuf`
pub record UninitWriteBuf : Type 0 where
  pub raw : List MaybeUninit
  pub pos : ℕ

-- `UninitWriteBuf::new`
unfoldable pub new : List MaybeUninit → UninitWriteBuf
new raw = record { raw = raw; pos = 0 }

-- `UninitWriteBuf::capacity`
abbrev pub capacity : UninitWriteBuf → ℕ
capacity self = length self.raw

-- `UninitWriteBuf::remaining`
abbrev pub remaining : UninitWriteBuf → ℕ
remaining self = capacity self - self.pos

-- `UninitWriteBuf::write_inner`, which both `write`s call.
unfoldable pub write_inner : UninitWriteBuf → List ℕ → UninitWriteBuf × ℕ
unfolding splice
write_inner self src =
    let n = min (remaining self) (length src) in
    if n == 0
    then (self, n)
    else (record { raw = splice self.raw self.pos (inits (take n src)); pos = self.pos + n }, n)

-- A slice of initialised bytes; reading an uninitialised one is undefined.
assume_init : List MaybeUninit → Exec (List ℕ)
assume_init [] = done []
assume_init (none ∷ bs) = undefined
assume_init (some b ∷ bs) = do rest ← assume_init bs; done (b ∷ rest)

-- `UninitWriteBuf::as_init`
unfoldable pub as_init : UninitWriteBuf → Exec (List ℕ)
unfolding assume_init
as_init self = assume_init (take self.pos self.raw)

-- One `write` after the other.
abbrev pub writes : UninitWriteBuf → List (List ℕ) → UninitWriteBuf
writes self [] = self
writes self (src ∷ srcs) = writes (write_inner self src).0 srcs

abbrev pub concat : List (List ℕ) → List ℕ
concat [] = []
concat (src ∷ srcs) = src ++ concat srcs

length-inits : (bs : List ℕ) → length (inits bs) ≡ length bs
length-inits [] = refl
length-inits (b ∷ bs) = ap suc (length-inits bs)

inits-append : (bs cs : List ℕ) → inits (bs ++ cs) ≡ inits bs ++ inits cs
inits-append [] cs = refl
inits-append (b ∷ bs) cs = ap (λ l. some b ∷ l) (inits-append bs cs)

assume_init-inits : (bs : List ℕ) → assume_init (inits bs) ≡ done bs
unfolding assume_init
assume_init-inits [] = refl
assume_init-inits (b ∷ bs) = rw (assume_init-inits bs) refl

-- The buffer starts with the bytes `bs` and ends in `free` that are not written yet.
record Holds (self : UninitWriteBuf) (bs : List ℕ) (free : List MaybeUninit) : Type 0 where
  raw : self.raw ≡ inits bs ++ free
  pos : self.pos ≡ length bs

as_init-Holds :
    {self : UninitWriteBuf} {bs : List ℕ} {free : List MaybeUninit}
    → Holds self bs free
    → as_init self ≡ done bs
unfolding as_init
as_init-Holds {bs} {free} h =
    rw (h.raw, h.pos, ← length-inits bs, take-append (inits bs) free) (assume_init-inits bs)

drop-past :
    {A : Type 0} (xs ys : List A) (n k : ℕ) → n ≡ length xs + k → drop n (xs ++ ys) ≡ drop k ys
drop-past [] ys n k e = ap (λ j. drop j ys) {x = n} {y = k} (omega arith)
drop-past (x ∷ xs) ys zero k e = absurd (omega arith)
drop-past (x ∷ xs) ys (suc n) k e = drop-past xs ys n k (omega arith)

suc-not-== : (n : ℕ) → (suc n == 0) ≡ false
suc-not-== n = ground arith

take-all : {A : Type 0} (xs : List A) → take (length xs) xs ≡ xs
take-all [] = refl
take-all (x ∷ xs) = ap (λ l. x ∷ l) (take-all xs)

module _ {self : UninitWriteBuf} {bs : List ℕ} {free : List MaybeUninit}
    (h : Holds self bs free) where
  written-count :
      (src : List ℕ) → length src ≤ length free → min (remaining self) (length src) ≡ length src
  written-count src fits =
      rw (h.raw, h.pos, length-append (inits bs) free, length-inits bs) (omega arith)

  splice-Holds :
      (src : List ℕ)
      → splice self.raw self.pos (inits src) ≡ inits (bs ++ src) ++ drop (length src) free
  unfolding splice
  splice-Holds src =
      rw
        (
          h.raw,
          h.pos,
          inits-append bs src,
          ← length-inits bs,
          ← length-inits src,
          take-append (inits bs) free,
          drop-past (inits bs) free (length (inits bs) + length (inits src)) (length (inits src))
              refl,
        )
        (sym (append_assoc (inits bs) (inits src) _))

  write_inner-Holds :
      (src : List ℕ)
      → length src ≤ length free
      → Holds (write_inner self src).0 (bs ++ src) (drop (length src) free)
  unfolding write_inner
  write_inner-Holds [] fits =
      rw (written-count [] fits, append-nil bs) (record { raw = h.raw; pos = h.pos })
  write_inner-Holds (x ∷ xs) fits =
      rw (written-count (x ∷ xs) fits, suc-not-== (length xs), take-all xs)
        (record { raw = splice-Holds (x ∷ xs); pos = rw (h.pos) (sym (length-append bs (x ∷ xs))) })

writes-Holds :
    (srcs : List (List ℕ)) (self : UninitWriteBuf) (bs : List ℕ) (free : List MaybeUninit)
    → Holds self bs free
    → length (concat srcs) ≤ length free
    → as_init (writes self srcs) ≡ done (bs ++ concat srcs)
writes-Holds [] self bs free h fits = rw (append-nil bs) (as_init-Holds h)
writes-Holds (src ∷ srcs) self bs free h fits = rw (← append_assoc bs src (concat srcs)) (
    writes-Holds srcs (write_inner self src).0 (bs ++ src) (drop (length src) free)
      (write_inner-Holds h src (omega (arith, length-append src (concat srcs))))
      (omega (arith, length-append src (concat srcs), length-drop (length src) free)))

-- In a buffer that has room for all of it, what is written piece by piece is what is read at the end,
-- without an uninitialised byte.
pub as_init-writes :
    (raw : List MaybeUninit) (srcs : List (List ℕ))
    → length (concat srcs) ≤ length raw
    → as_init (writes (new raw) srcs) ≡ done (concat srcs)
unfolding new
as_init-writes raw srcs fits =
    writes-Holds srcs (record { raw = raw; pos = 0 }) [] raw (record { raw = refl; pos = refl })
      fits
