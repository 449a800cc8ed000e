-- ===== src/Interleaving/Progress.antt =====
-- The receiver makes progress by itself: while the sender is outside of `send`, every message that was
-- sent and not received comes out after a few steps of the receiver.
use icmsg_rs.Prelude.{
  ℕ, suc, ◌+◌, ◌≤◌, ◌≡◌, refl, sym, ◌∙◌, ap, Bool, true, false, inl, inr, List, [], ◌∷◌, ◌++◌,
  arith, dec_lt, length, take, drop, replicate, length-replicate, take-append,
}
use mathlib.Core.Path.{subst}
use mathlib.Core.List.{append_cancel_left}
use icmsg_rs.Machine.{done, ok, Target}
use icmsg_rs.Integer.{load}
use icmsg_rs.Transport.Region.{SharedMemoryRegion}
use icmsg_rs.Transport.Cursor.Laws.{wrap}
use icmsg_rs.Transport.Queue.{Queue, packet_size}
use icmsg_rs.Transport.Receiver.{take_packet}
use icmsg_rs.Transport.Stream.{Stores}
use icmsg_rs.Transport.Stream.Sees.{Sees-refl}
use icmsg_rs.Transport.Refine.Take.{take_packet-none, take_packet-long, take_packet-first}
use icmsg_rs.Interleaving.{
  SendPc, RecvPc, polled, taken, asleep, Waiter, unregistered, registered, fired, System, Step,
  Reach, IsShort, AllShort, after_empty, poll, load_wr, take_ok, take_empty, take_err, store_rd,
  wake,
}
use icmsg_rs.Interleaving.Knowledge.{ReceiverKnows, IsWoken}
use icmsg_rs.Interleaving.Packets.{Stores-seen}
use icmsg_rs.Interleaving.Invariant.{Inv, Step-Inv}
use icmsg_rs.Interleaving.Delivery.{IsFresh, Reach-Inv}

-- At most `n` steps in which the sender does nothing.
pub data Receives (t : Target) (size : ℕ) : ℕ → System → System → Type 0 where
  stop : {n : ℕ} {s : System} → Receives t size n s s
  more :
      {n : ℕ} {s s' s'' : System}
      → Step t size s s'
      → s'.sender ≡ s.sender
      → s'.sent ≡ s.sent
      → Receives t size n s' s''
      → Receives t size (suc n) s s''

-- The oldest message that is outstanding is received in at most `n` steps.
abbrev pub Delivers : Target → ℕ → ℕ → System → List ℕ → Type 0
Delivers t size n s m =
    (s' : System) × Receives t size n s s' × (s'.received ≡ s.received ++ (m ∷ []))

-- The message `m` is outstanding, with `rest` behind it, and the sender is idle.
record IsDue (t : Target) (size : ℕ) (m : List ℕ) (rest : Queue) (s : System) : Type 0 where
  inv : Inv t size s
  outstanding : s.sent ≡ s.received ++ (m ∷ rest)
  quiet : s.sender ≡ SendPc.idle

received-first :
    (s : System) (m buf : List ℕ)
    → s.received ++ (take (length m) (m ++ drop (length m) buf) ∷ []) ≡ s.received ++ (m ∷ [])
received-first s m buf = ap (λ x. s.received ++ (x ∷ [])) (take-append m (drop (length m) buf))

-- A sleeping receiver that has a message to take was notified.
woken_for :
    (waiter : Waiter) {sender : SendPc} (m : List ℕ) (rest : Queue)
    → sender ≡ SendPc.idle
    → IsWoken true waiter sender (m ∷ rest)
    → waiter ≡ fired
woken_for unregistered m rest quiet w = absurd w
woken_for registered m rest quiet (inl x) = absurd cc
woken_for registered m rest quiet (inr x) = absurd cc
woken_for fired m rest quiet w = refl

-- A step that takes no message, and what follows it.
after :
    {t : Target} {size n : ℕ} {s s' : System} (m : List ℕ)
    → Step t size s s'
    → s'.sender ≡ s.sender
    → s'.sent ≡ s.sent
    → s'.received ≡ s.received
    → Delivers t size n s' m
    → Delivers t size (suc n) s m
after m step same_sender same_sent same_received (s'', steps, got) =
    (s'', more step same_sender same_sent steps, got ∙ ap (λ l. l ++ (m ∷ [])) same_received)

module _ {t : Target} {size : ℕ} {m : List ℕ} {rest : Queue} where
  pending-eq : {s : System} (d : IsDue t size m rest s) → d.inv.pending ≡ m ∷ rest
  pending-eq {s} d =
      append_cancel_left s.received d.inv.pending (m ∷ rest) (sym d.inv.log ∙ d.outstanding)

  stored_now :
      {s : System}
      → IsDue t size m rest s
      → Stores size s.recv_rd_idx s.send_wr_idx s.region.bytes (m ∷ rest)
  stored_now {s} d =
      subst (Stores size s.recv_rd_idx s.send_wr_idx s.region.bytes) (pending-eq d) d.inv.stores

  -- What `take_packet` finds behind a fresh load of the write index.
  found_now :
      {s : System} (buf : List ℕ)
      → IsDue t size m rest s
      → length m ≤ length buf
      → take_packet t size s.recv_rd_idx (load t.endian s.region.wr_idx) s.region.bytes buf
        ≡ done (
            ok (
              length m,
              wrap size (s.recv_rd_idx + packet_size (length m)),
              m ++ drop (length m) buf,
            ))
  found_now {s} buf d fits =
      ap (λ w. take_packet t size s.recv_rd_idx w s.region.bytes buf) d.inv.wr_shared
      ∙ take_packet-first t buf (stored_now d) fits

  from_idle :
      (n : ℕ) {s : System}
      → IsDue t size m rest s
      → s.receiver ≡ RecvPc.idle
      → Delivers t size (suc (suc (suc (suc n)))) s m
  from_idle n {s} d e =
      let buf : List ℕ = replicate (length m) 0 in
      let fits : length m ≤ length buf = omega (arith, length-replicate {A = ℕ} (length m) 0) in
      (
        _,
        more (poll false buf e) refl refl (
            more (load_wr refl) refl refl (
              more (take_ok refl (Sees-refl _) (found_now buf d fits)) refl refl
                (more (store_rd refl) refl refl stop))),
        received-first s m buf,
      )

  -- The same message is due after a step of the receiver that takes none.
  step-IsDue :
      {s s' : System}
      → IsDue t size m rest s
      → (step : Step t size s s') → IsShort step
      → s'.sender ≡ s.sender
      → s'.sent ≡ s.sent
      → s'.received ≡ s.received
      → IsDue t size m rest s'
  step-IsDue d step short same_sender same_sent same_received = record {
    inv = Step-Inv step short d.inv;
    outstanding = same_sent ∙ d.outstanding ∙ ap (λ l. l ++ (m ∷ rest)) (sym same_received);
    quiet = same_sender ∙ d.quiet;
  }

  woken : {s : System} → IsDue t size m rest s → s.receiver ≡ asleep → s.waiter ≡ fired
  woken {s} d e = woken_for s.waiter m rest d.quiet (
      subst (IsWoken true s.waiter s.sender) (pending-eq d) (
        subst (ReceiverKnows size s.recv_rd_idx d.inv.pending s.sender s.waiter) e
          d.inv.receiver_knows))

  from_asleep :
      (n : ℕ) {s : System}
      → IsDue t size m rest s
      → s.receiver ≡ asleep
      → Delivers t size (suc (suc (suc (suc (suc n))))) s m
  from_asleep n d e =
      let step = wake e (woken d e) in
      after m step refl refl refl (from_idle n (step-IsDue d step tt refl refl refl) refl)

  from_empty :
      (n : ℕ) {s : System} (b : Bool)
      → IsDue t size m rest s
      → s.receiver ≡ after_empty b
      → Delivers t size (suc (suc (suc (suc (suc n))))) s m
  from_empty n true d e = from_asleep n d e
  from_empty n false d e = from_idle (suc n) d e

  -- After the load of the write index: what was stored then is `seen`.
  from_seen :
      (n : ℕ) {s : System} {b : Bool} {buf : List ℕ} {wr_idx : ℕ} (seen unseen : Queue)
      → IsDue t size m rest s
      → s.receiver ≡ RecvPc.loaded b buf wr_idx
      → m ∷ rest ≡ seen ++ unseen
      → Stores size s.recv_rd_idx wr_idx s.region.bytes seen
      → Delivers t size (suc (suc (suc (suc (suc (suc n)))))) s m
  from_seen n {b} {buf} [] unseen d e split st =
      let step = take_empty e (Sees-refl _) (take_packet-none t buf st) in
      after m step refl refl refl (from_empty n b (step-IsDue d step tt refl refl refl) refl)
  from_seen n {s} {buf} (m' ∷ q) unseen d e split st = elim (dec_lt (length buf) (length m')) [
    | yes long ↦
        let step = take_err e (Sees-refl _) (take_packet-long t buf st long) (λ x. cc) in
        after m step refl refl refl (from_idle (suc n) (step-IsDue d step tt refl refl refl) refl)
    | no short ↦
        let same : m' ≡ m = cc in
        (
          _,
          more (take_ok e (Sees-refl _) (take_packet-first t buf st (omega arith))) refl refl
              (more (store_rd refl) refl refl stop),
          received-first s m' buf ∙ ap (λ x. s.received ++ (x ∷ [])) same,
        )
  ]

  from_loaded :
      (n : ℕ) {s : System} {b : Bool} {buf : List ℕ} {wr_idx : ℕ}
      → IsDue t size m rest s
      → s.receiver ≡ RecvPc.loaded b buf wr_idx
      → Delivers t size (suc (suc (suc (suc (suc (suc n)))))) s m
  from_loaded n {s} d e =
      let (seen, unseen, split, at, _) =
        subst (ReceiverKnows size s.recv_rd_idx d.inv.pending s.sender s.waiter) e
          d.inv.receiver_knows in
      from_seen n seen unseen d e (sym (pending-eq d) ∙ split) (
        Stores-seen seen unseen
          (subst (Stores size s.recv_rd_idx s.send_wr_idx s.region.bytes) split d.inv.stores) at
          (Sees-refl _))

  from_taken :
      (n : ℕ) {s : System} {k rd_idx : ℕ} {buf : List ℕ}
      → IsDue t size m rest s
      → s.receiver ≡ taken k rd_idx buf
      → Delivers t size (suc n) s m
  from_taken n {s} d e =
      let (m', q, first, behind, message) =
        subst (ReceiverKnows size s.recv_rd_idx d.inv.pending s.sender s.waiter) e
          d.inv.receiver_knows in
      let same : m' ≡ m = let queue = pending-eq d in cc in
      (_, more (store_rd e) refl refl stop, ap (λ x. s.received ++ (x ∷ [])) (message ∙ same))

  from_any :
      {s : System} (pc : RecvPc) → s.receiver ≡ pc → IsDue t size m rest s → Delivers t size 7 s m
  from_any RecvPc.idle e d = from_idle 3 d e
  from_any (polled b buf) e d =
      let step = load_wr e in
      after m step refl refl refl (from_loaded 0 (step-IsDue d step tt refl refl refl) refl)
  from_any (RecvPc.loaded b buf wr_idx) e d = from_loaded 1 d e
  from_any (taken k rd_idx buf) e d = from_taken 6 d e
  from_any asleep e d = from_asleep 2 d e

-- In a state that is reached with messages shorter than 2 ^ 16 bytes, and in which the sender is outside
-- `send` and messages are outstanding, there are at most seven steps of the receiver alone, wherever it stands
-- (asleep too), after which it has received the oldest of them.
pub recv-progress :
    {t : Target} {size : ℕ} {region : SharedMemoryRegion} {s : System} (m : List ℕ) (rest : Queue)
    → IsFresh t size region
    → (r : Reach t size region s) → AllShort r
    → s.sender ≡ SendPc.idle
    → s.sent ≡ s.received ++ (m ∷ rest)
    → Delivers t size 7 s m
recv-progress {s} m rest f r all quiet outstanding =
    from_any s.receiver refl
      record { inv = Reach-Inv f r all; outstanding = outstanding; quiet = quiet }
