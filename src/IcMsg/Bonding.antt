-- ===== src/IcMsg/Bonding.antt =====
-- What `IcMsg::init` of src/lib.rs does on each branch.
pub mod Both
pub mod Ends
use icmsg_rs.Prelude.{
  ℕ, zero, suc, ◌+◌, ◌-◌, ◌*◌, ◌%◌, ◌≤◌, ◌<◌, ◌≡◌, ◌≢◌, refl, sym, ◌∙◌, ap, Bool, true, false, ◌&&◌,
  Option, none, some, List, [], ◌∷◌, ◌++◌, arith, dec_lt, ltb, ◌==◌, ==_iff, lt→ltb, le→not-ltb,
  if◌then◌else◌, length, take, drop, replicate, length-replicate,
}
use icmsg_rs.Machine.{done, Result, ok, err, Target}
use icmsg_rs.Transport.Region.{SharedMemoryRegion, Notifier, RecvError, empty, message_too_big}
use icmsg_rs.Transport.Cursor.Laws.{IsRing}
use icmsg_rs.Transport.Queue.{Queue}
use icmsg_rs.Transport.Sender.{Sender as TransportSender}
use icmsg_rs.Transport.Receiver.{Receiver as TransportReceiver}
use icmsg_rs.Transport.IcMsgTransport
use icmsg_rs.Transport.IcMsgTransport.{IcMsgTransport, Regions}
use icmsg_rs.Transport.IcMsgTransport.New.{IsConfig, fresh, new_lem, zeroed, fresh-Represents}
use icmsg_rs.Transport.Refine.{
  Represents, send_refines, try_recv-none, try_recv-long, try_recv-first,
}
use icmsg_rs.IcMsg.Defs.{
  magic, MemoryConfig, InitError, too_small, invalid_size, bonding_recv_error, bonding_wrong_magic,
  IcMsg, Either, first, second, list_beq, wait_for_peer, announce, bond, init,
}

-- What bonding makes of the messages that the other core has sent: `none` is success.
unfoldable pub bonding : Queue → Option InitError
bonding [] = some (bonding_recv_error empty)
bonding (m ∷ q) =
    if ltb 32 (length m)
    then some (bonding_recv_error message_too_big)
    else if list_beq (take 13 m) magic
    then none
    else some bonding_wrong_magic

abbrev pub rest : Queue → Queue
rest [] = []
rest (m ∷ q) = q

abbrev AllNonzero : List ℕ → Type 0
AllNonzero [] = Unit
AllNonzero (x ∷ xs) = (0 < x) × AllNonzero xs

-- A word without zeros is not found in the zeros behind a message.
list_beq-zeros :
    (k : ℕ) (word : List ℕ)
    → AllNonzero word
    → list_beq (take (length word) (replicate k 0)) word ≡ list_beq [] word
unfolding list_beq
list_beq-zeros k [] h = refl
list_beq-zeros zero (x ∷ xs) h = refl
list_beq-zeros (suc k) (x ∷ xs) (h, hs) = ground (arith, h)

list_beq-padded :
    (m : List ℕ) (k : ℕ) (word : List ℕ)
    → AllNonzero word
    → list_beq (take (length word) (m ++ replicate k 0)) word ≡ list_beq (take (length word) m) word
unfolding list_beq
list_beq-padded m k [] h = refl
list_beq-padded [] k (x ∷ xs) h = list_beq-zeros k (x ∷ xs) h
list_beq-padded (y ∷ m) k (x ∷ xs) (h, hs) = ap (λ b. y == x && b) (list_beq-padded m k xs hs)

drop-replicate : (n k : ℕ) → drop {A = ℕ} n (replicate k 0) ≡ replicate (k - n) 0
drop-replicate zero k = ap (λ n. replicate {A = ℕ} n 0) {x = k} {y = k - 0} (omega arith)
drop-replicate (suc n) zero = ap (λ n. replicate {A = ℕ} n 0) {x = 0} {y = 0 - suc n} (omega arith)
drop-replicate (suc n) (suc k) =
    drop-replicate n k
    ∙ ap (λ n. replicate {A = ℕ} n 0) {x = k - n} {y = suc k - suc n} (omega arith)

magic-found :
    (m : List ℕ)
    → list_beq (take 13 (m ++ drop (length m) (replicate 32 0))) magic ≡ list_beq (take 13 m) magic
magic-found m =
    rw (drop-replicate (length m) 32) (list_beq-padded m (32 - length m) magic (ground arith))

-- What `bond` answers and leaves, by what the bonding makes of the queue.
unfoldable pub Bonds {ℓ κ} :
    {M : Type ℓ} {W : Type κ} (t : Target) (size : ℕ) (transport : IcMsgTransport M) (waiter : W)
    (s : TransportSender M) (mem : Regions) (q : Queue)
    → Option InitError
    → Type (ℓ ⊔ κ)
Bonds t size transport waiter s mem q (some e) = bond t transport waiter mem ≡ done (err e)
Bonds t size transport waiter s mem q none =
    (r' : TransportReceiver) × (region' : SharedMemoryRegion) × (bond t transport waiter mem
      ≡ done (
          ok (
            record {
              sender = record { transport = transport.sender };
              receiver = record { transport = r'; waiter = waiter };
            },
            record mem { recv_region = region' },
          )))
    × Represents t size s region' r' q

module _ {ℓ κ} {M : Type ℓ} {W : Type κ} (t : Target) {size : ℕ} (transport : IcMsgTransport M)
    (waiter : W) {s : TransportSender M} (mem : Regions) where
  bond-checked :
      (m : List ℕ) (q : Queue) (found : Bool)
      → list_beq (take 13 m) magic ≡ found
      → length m ≤ 32
      → Represents t size s mem.recv_region transport.receiver (m ∷ q)
      → Bonds t size transport waiter s mem q (if found then none else some bonding_wrong_magic)
  unfolding Bonds bond IcMsgTransport.try_recv IcMsgTransport.split
  bond-checked m q true is h rep =
      let (r', region', e, rep') = try_recv-first t (replicate 32 0) rep h in
      (r', region', rw (e, magic-found m, is), rep')
  bond-checked m q false is h rep =
      let (r', region', e, rep') = try_recv-first t (replicate 32 0) rep h in
      rw (e, magic-found m, is)

  -- `init` behind its waiting loop ends with the first message of the other core: without one, or with
  -- one of more than 32 bytes, it answers the receiving error, with one that does not begin with the
  -- magic word `bonding_wrong_magic`, and with one that does, it gives both halves of the channel, which
  -- then represents the messages behind the first.
  pub bond_refines :
      (q : Queue)
      → Represents t size s mem.recv_region transport.receiver q
      → Bonds t size transport waiter s mem (rest q) (bonding q)
  unfolding Bonds bond IcMsgTransport.try_recv bonding
  bond_refines [] rep = rw (try_recv-none t (replicate 32 0) rep)
  bond_refines (m ∷ q) rep = elim (dec_lt 32 (length m)) [
    | yes long ↦ rw (lt→ltb _ _ long, try_recv-long t (replicate 32 0) rep long)
    | no short ↦
        rw (le→not-ltb 32 (length m) (omega arith))
          (bond-checked m q (list_beq (take 13 m) magic) refl (omega arith) rep)
  ]
