-- ===== src/Interleaving/Invariant.antt =====
-- The invariant of the interleaved ends, and that every step keeps it.
use icmsg_rs.Prelude.{
  ℕ, ◌≡◌, refl, sym, ◌∙◌, ap, Bool, true, false, inl, List, [], ◌∷◌, ◌++◌, arith, append-nil,
  append_assoc,
}
use mathlib.Core.Path.{subst}
use icmsg_rs.Machine.{Target}
use icmsg_rs.Integer.{load}
use icmsg_rs.Integer.Laws.{load-store}
use icmsg_rs.Transport.Queue.{Queue}
use icmsg_rs.Transport.Stream.{Stores, Stores-writer, Stores-tail}
use icmsg_rs.Interleaving.{
  IsShort, SendPc, stored, RecvPc, polled, after_empty, after_poll, System, Step, load_rd, fill_ok,
  fill_err, store_wr, notify, poll, load_wr, take_ok, take_empty, take_err, store_rd, wake,
}
use icmsg_rs.Interleaving.Knowledge.{
  SenderKnows, ReceiverKnows, IsWoken, ReceiverKnows-quiet, ReceiverKnows-publish,
  ReceiverKnows-notify, SenderKnows-release, Stores-prefix,
}
use icmsg_rs.Interleaving.Packets.{
  Stores-seen, fill-filled, take_packet-taken, take_packet-found_none,
}

-- `pending` is the queue of messages that are published and not yet taken.
pub record Inv (t : Target) (size : ℕ) (s : System) : Type 0 where
  pub pending : Queue
  pub log : s.sent ≡ s.received ++ pending
  pub stores : Stores size s.recv_rd_idx s.send_wr_idx s.region.bytes pending
  pub rd_shared : load t.endian s.region.rd_idx ≡ s.recv_rd_idx
  pub wr_shared : load t.endian s.region.wr_idx ≡ s.send_wr_idx
  pub sender_knows : SenderKnows size s.recv_rd_idx s.send_wr_idx s.region.bytes pending s.sender
  pub receiver_knows : ReceiverKnows size s.recv_rd_idx pending s.sender s.waiter s.receiver

module _ {t : Target} {size : ℕ} {s : System} (inv : Inv t size s) where
  open inv use {pending, log, stores, rd_shared, wr_shared, sender_knows, receiver_knows}

  at_sender :
      {p : SendPc}
      → s.sender ≡ p
      → SenderKnows size s.recv_rd_idx s.send_wr_idx s.region.bytes pending p
  at_sender e =
      subst (SenderKnows size s.recv_rd_idx s.send_wr_idx s.region.bytes pending) e sender_knows

  at_receiver :
      {p : RecvPc} → s.receiver ≡ p → ReceiverKnows size s.recv_rd_idx pending s.sender s.waiter p
  at_receiver e =
      subst (ReceiverKnows size s.recv_rd_idx pending s.sender s.waiter) e receiver_knows

  -- The receiver is not concerned.
  quiet :
      {p : SendPc} (p' : SendPc)
      → s.sender ≡ p
      → (p ≡ stored → ⊥)
      → ReceiverKnows size s.recv_rd_idx pending p' s.waiter s.receiver
  quiet p' e no_debt =
      ReceiverKnows-quiet size s.recv_rd_idx pending s.sender p' s.waiter s.receiver
        (λ f. no_debt (sym e ∙ f)) receiver_knows

  polled_knows :
      (b : Bool) {buf : List ℕ} → s.receiver ≡ polled b buf → IsWoken b s.waiter s.sender []
  polled_knows true e = at_receiver e
  polled_knows false e = tt

  empty_knows :
      (b : Bool) (seen unseen : Queue)
      → seen ≡ []
      → pending ≡ seen ++ unseen
      → IsWoken b s.waiter s.sender unseen
      → ReceiverKnows size s.recv_rd_idx pending s.sender s.waiter (after_empty b)
  empty_knows true seen unseen none_seen split w =
      subst (IsWoken true s.waiter s.sender) (sym (split ∙ ap (λ l. l ++ unseen) none_seen)) w
  empty_knows false seen unseen none_seen split w = tt

  poll_knows :
      (b : Bool) (buf : List ℕ)
      → ReceiverKnows size s.recv_rd_idx pending s.sender (after_poll b) (polled b buf)
  poll_knows true buf = inl refl
  poll_knows false buf = tt

-- Every step keeps the invariant, if it does not begin a `send` of 2 ^ 16 bytes or more.
pub Step-Inv :
    {t : Target} {size : ℕ} {s s' : System} (step : Step t size s s')
    → IsShort step
    → Inv t size s
    → Inv t size s'
Step-Inv (load_rd msg e) short inv = record {
  pending = inv.pending;
  log = inv.log;
  stores = inv.stores;
  rd_shared = inv.rd_shared;
  wr_shared = inv.wr_shared;
  sender_knows = (short, [], rw inv.rd_shared inv.stores, sym inv.rd_shared);
  receiver_knows = quiet inv _ e (λ f. cc);
}
Step-Inv {t} {size} {s} (fill_ok {msg} {bytes} e h) short inv =
    let st = fill-filled t msg inv.pending (at_sender inv e) h in
    record {
      pending = inv.pending;
      log = inv.log;
      stores =
          subst (λ w. Stores size s.recv_rd_idx w bytes inv.pending) (sym inv.stores.writer)
            (Stores-prefix inv.pending (msg ∷ []) st);
      rd_shared = inv.rd_shared;
      wr_shared = inv.wr_shared;
      sender_knows = st;
      receiver_knows = quiet inv _ e (λ f. cc);
    }
Step-Inv (fill_err e h) short inv = record {
  pending = inv.pending;
  log = inv.log;
  stores = inv.stores;
  rd_shared = inv.rd_shared;
  wr_shared = inv.wr_shared;
  sender_knows = tt;
  receiver_knows = quiet inv _ e (λ f. cc);
}
Step-Inv {t} {size} {s} (store_wr {wr_idx} {msg} e) short inv =
    let st = at_sender inv e in
    let index = (Stores-writer st).in_ring in
    let small = st.ring.small in
    record {
      pending = inv.pending ++ (msg ∷ []);
      log = ap (λ l. l ++ (msg ∷ [])) inv.log ∙ append_assoc s.received inv.pending (msg ∷ []);
      stores = st;
      rd_shared = inv.rd_shared;
      wr_shared = load-store t.endian s.region.wr_idx wr_idx (omega arith);
      sender_knows = tt;
      receiver_knows =
          ReceiverKnows-publish size s.recv_rd_idx inv.pending msg s.sender s.waiter s.receiver
            inv.receiver_knows;
    }
Step-Inv {t} {size} {s} (notify e) short inv = record {
  pending = inv.pending;
  log = inv.log;
  stores = inv.stores;
  rd_shared = inv.rd_shared;
  wr_shared = inv.wr_shared;
  sender_knows = tt;
  receiver_knows =
      ReceiverKnows-notify size s.recv_rd_idx inv.pending s.sender SendPc.idle s.waiter s.receiver
        inv.receiver_knows;
}
Step-Inv (poll b buf e) short inv = record {
  pending = inv.pending;
  log = inv.log;
  stores = inv.stores;
  rd_shared = inv.rd_shared;
  wr_shared = inv.wr_shared;
  sender_knows = inv.sender_knows;
  receiver_knows = poll_knows inv b buf;
}
Step-Inv {t} {size} {s} (load_wr {pending = b} e) short inv = record {
  pending = inv.pending;
  log = inv.log;
  stores = inv.stores;
  rd_shared = inv.rd_shared;
  wr_shared = inv.wr_shared;
  sender_knows = inv.sender_knows;
  receiver_knows = (
    inv.pending,
    [],
    sym (append-nil inv.pending),
    inv.wr_shared ∙ inv.stores.writer,
    polled_knows inv b e,
  );
}
Step-Inv {t} {size} {s} (take_ok {buf} e view h) short inv =
    let (seen, unseen, split, at, woken) = at_receiver inv e in
    let st = Stores-seen seen unseen (subst (Stores size _ _ _) split inv.stores) at view in
    let (m, rest, first, behind, message) = take_packet-taken t buf seen st h in
    record {
      pending = inv.pending;
      log = inv.log;
      stores = inv.stores;
      rd_shared = inv.rd_shared;
      wr_shared = inv.wr_shared;
      sender_knows = inv.sender_knows;
      receiver_knows = (m, rest ++ unseen, split ∙ ap (λ l. l ++ unseen) first, behind, message);
    }
Step-Inv {t} {size} {s} (take_empty {pending = b} {buf} e view h) short inv =
    let (seen, unseen, split, at, woken) = at_receiver inv e in
    let st = Stores-seen seen unseen (subst (Stores size _ _ _) split inv.stores) at view in
    let none_seen = take_packet-found_none t buf seen st h in
    record {
      pending = inv.pending;
      log = inv.log;
      stores = inv.stores;
      rd_shared = inv.rd_shared;
      wr_shared = inv.wr_shared;
      sender_knows = inv.sender_knows;
      receiver_knows = empty_knows inv b seen unseen none_seen split woken;
    }
Step-Inv (take_err e view h ne) short inv = record {
  pending = inv.pending;
  log = inv.log;
  stores = inv.stores;
  rd_shared = inv.rd_shared;
  wr_shared = inv.wr_shared;
  sender_knows = inv.sender_knows;
  receiver_knows = tt;
}
Step-Inv {t} {size} {s} (store_rd {rd_idx} e) short inv =
    let (m, rest, first, behind, message) = at_receiver inv e in
    let st = subst (Stores size s.recv_rd_idx s.send_wr_idx s.region.bytes) first inv.stores in
    let tail =
      subst (λ i. Stores size i s.send_wr_idx s.region.bytes rest) (sym behind) (Stores-tail st) in
    let index = tail.reader.in_ring in
    let small = tail.ring.small in
    record {
      pending = rest;
      log =
          inv.log
          ∙ ap (λ l. s.received ++ l) first
          ∙ sym (append_assoc s.received (m ∷ []) rest)
          ∙ ap (λ x. (s.received ++ (x ∷ [])) ++ rest) (sym message);
      stores = tail;
      rd_shared = load-store t.endian s.region.rd_idx rd_idx (omega arith);
      wr_shared = inv.wr_shared;
      sender_knows =
          subst (λ i. SenderKnows size i s.send_wr_idx s.region.bytes rest s.sender) (sym behind)
            (SenderKnows-release size s.recv_rd_idx s.send_wr_idx s.region.bytes m rest s.sender (
              subst (λ l. SenderKnows size s.recv_rd_idx s.send_wr_idx s.region.bytes l s.sender)
                first inv.sender_knows));
      receiver_knows = tt;
    }
Step-Inv (wake e f) short inv = record {
  pending = inv.pending;
  log = inv.log;
  stores = inv.stores;
  rd_shared = inv.rd_shared;
  wr_shared = inv.wr_shared;
  sender_knows = inv.sender_knows;
  receiver_knows = tt;
}
