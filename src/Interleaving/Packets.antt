-- ===== src/Interleaving/Packets.antt =====
-- What `fill` and `take_packet` do, told in terms of what each end knows.
use icmsg_rs.Prelude.{
  ℕ, ◌+◌, ◌≡◌, refl, sym, ap, List, [], ◌∷◌, ◌++◌, arith, dec_lt, append_assoc, length, take, drop,
  take-append,
}
use mathlib.Core.Path.{subst}
use icmsg_rs.Machine.{done, ok, err, Target}
use icmsg_rs.Machine.Laws.{done_ok-injective, done_ok-ne-err, done_err-injective}
use icmsg_rs.Transport.Region.{empty}
use icmsg_rs.Transport.Cursor.Laws.{wrap}
use icmsg_rs.Transport.Queue.{Queue, packet_size, footprint}
use icmsg_rs.Transport.Stream.{Stores}
use icmsg_rs.Transport.Stream.Sees.{Sees, Stores-Sees}
use icmsg_rs.Transport.Sender.{fill}
use icmsg_rs.Transport.Receiver.{take_packet}
use icmsg_rs.Transport.Refine.Fill.{fill-Stores, fill_refuses}
use icmsg_rs.Transport.Refine.Take.{take_packet-none, take_packet-long, take_packet-first}
use icmsg_rs.Interleaving.{SendPc}
use icmsg_rs.Interleaving.Knowledge.{SenderKnows, advance, Stores-drop, Stores-prefix}

-- A packet that was filled in goes behind all messages that are not taken, although the read index may
-- be an old one.
pub fill-filled :
    (t : Target) {size rd_idx send_wr seen wr_idx : ℕ} {bytes bytes' : List ℕ} (msg : List ℕ)
    (q : Queue)
    → SenderKnows size rd_idx send_wr bytes q (SendPc.loaded seen msg)
    → fill t size send_wr seen bytes msg ≡ done (ok (wr_idx, bytes'))
    → Stores size rd_idx wr_idx bytes' (q ++ (msg ∷ []))
fill-filled t {size} {seen} {wr_idx} {bytes' = bytes'} msg q (short, old, st, rd) h =
    elim (dec_lt (footprint (old ++ q) + packet_size (length msg)) size) [
      | yes fits ↦
          let (after, filled, stored) = fill-Stores t msg st short fits in
          let same = done_ok-injective _ _ filled h in
          let dropped =
            Stores-drop old (q ++ (msg ∷ []))
              (subst (Stores size seen _ after) (append_assoc old q (msg ∷ [])) stored) in
          rw rd (
            subst (λ r. Stores size (advance size seen old) r.0 r.1 (q ++ (msg ∷ []))) same dropped)
      | no full ↦ absurd (done_ok-ne-err _ _ h (fill_refuses t msg st (omega arith)))
    ]

-- What a reader that has loaded an older write index sees.
pub Stores-seen :
    {size rd_idx send_wr wr_idx : ℕ} {bytes view : List ℕ} (seen unseen : Queue)
    → Stores size rd_idx send_wr bytes (seen ++ unseen)
    → wr_idx ≡ wrap size (rd_idx + footprint seen)
    → Sees size rd_idx wr_idx bytes view
    → Stores size rd_idx wr_idx view seen
Stores-seen {size} {rd_idx} {bytes} seen unseen st at =
    Stores-Sees
      (subst (λ w. Stores size rd_idx w bytes seen) (sym at) (Stores-prefix seen unseen st))

-- A packet that was taken is the oldest message of those that the call sees.
pub take_packet-taken :
    (t : Target) {size rd_idx wr_idx n rd_idx' : ℕ} {bytes buf' : List ℕ} (buf : List ℕ) (q : Queue)
    → Stores size rd_idx wr_idx bytes q
    → take_packet t size rd_idx wr_idx bytes buf ≡ done (ok (n, rd_idx', buf'))
    → (m : List ℕ) × (rest : Queue) × (q ≡ m ∷ rest)
      × (rd_idx' ≡ wrap size (rd_idx + packet_size (length m)))
      × (take n buf' ≡ m)
take_packet-taken t buf [] st h = absurd (done_ok-ne-err _ _ h (take_packet-none t buf st))
take_packet-taken t buf (m ∷ rest) st h = elim (dec_lt (length buf) (length m)) [
  | yes long ↦ absurd (done_ok-ne-err _ _ h (take_packet-long t buf st long))
  | no short ↦
      let same = done_ok-injective _ _ (take_packet-first t buf st (omega arith)) h in
      (
        m,
        rest,
        refl,
        sym (ap (λ r. r.1) same),
        subst (λ r. take r.0 r.2 ≡ m) same (take-append m (drop (length m) buf)),
      )
]

-- If nothing was found, the call sees no message.
pub take_packet-found_none :
    (t : Target) {size rd_idx wr_idx : ℕ} {bytes : List ℕ} (buf : List ℕ) (q : Queue)
    → Stores size rd_idx wr_idx bytes q
    → take_packet t size rd_idx wr_idx bytes buf ≡ done (err empty)
    → q ≡ []
take_packet-found_none t buf [] st h = refl
take_packet-found_none t buf (m ∷ rest) st h = elim (dec_lt (length buf) (length m)) [
  | yes long ↦ let e = done_err-injective _ _ h (take_packet-long t buf st long) in cc
  | no short ↦ absurd (done_ok-ne-err _ _ (take_packet-first t buf st (omega arith)) h)
]
