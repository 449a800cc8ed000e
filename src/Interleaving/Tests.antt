-- ===== src/Interleaving/Tests.antt =====
-- A run of the two ends: a message is sent and received while the receiver's future is registered, and
-- the receiver then goes to sleep.
use icmsg_rs.Prelude.{
  ℕ, zero, suc, ◌+◌, ◌<◌, get_or, ◌≡◌, ◌≢◌, refl, true, List, [], ◌∷◌, ◌++◌, arith, replicate,
  slice, splice,
}
use icmsg_rs.Machine.{done, Result}
use icmsg_rs.Integer.{load, store, from_u16}
use icmsg_rs.Transport.Region.{SendError, RecvError}
use icmsg_rs.Transport.Cursor.Laws.{wrap}
use icmsg_rs.Transport.Queue.{Queue}
use icmsg_rs.Transport.Stream.{Stores}
use icmsg_rs.Transport.Stream.Sees.{Sees, Sees-refl}
use icmsg_rs.Transport.Sender.{fill}
use icmsg_rs.Transport.Receiver.{take_packet}
use icmsg_rs.Transport.Fixtures.{debug, ring_24, blank}
use icmsg_rs.Interleaving.{
  SendPc, stored, RecvPc, asleep, registered, fired, System, load_rd, fill_ok, store_wr, notify,
  poll, load_wr, take_ok, take_empty, store_rd, start, Step, Reach, here, next, IsShort, AllShort,
}
use icmsg_rs.Interleaving.Progress.{Delivers, recv-progress}
use icmsg_rs.Interleaving.Delivery.{
  IsFresh, delivered_in_order, no_lost_wakeup, fill-done, take_packet-done,
}

blank-IsFresh : IsFresh debug 24 blank
unfolding load
blank-IsFresh = record { ring = ring_24; whole = refl; rd_zero = refl; wr_zero = refl }

-- The message 7, 8 at the start of the data buffer.
abbrev written : List ℕ
written = 0 ∷ 2 ∷ 170 ∷ 170 ∷ 7 ∷ 8 ∷ replicate 18 0

-- What a call may see that has loaded the write index 8: something else behind that packet.
abbrev torn : List ℕ
torn = 0 ∷ 2 ∷ 170 ∷ 170 ∷ 7 ∷ 8 ∷ 0 ∷ 0 ∷ replicate 16 99

torn-published :
    (i : ℕ) → i < 8 → get_or torn (wrap 24 (0 + i)) 0 ≡ get_or written (wrap 24 (0 + i)) 0
torn-published zero h = refl
torn-published (suc zero) h = refl
torn-published (suc (suc zero)) h = refl
torn-published (suc (suc (suc zero))) h = refl
torn-published (suc (suc (suc (suc zero)))) h = refl
torn-published (suc (suc (suc (suc (suc zero))))) h = refl
torn-published (suc (suc (suc (suc (suc (suc zero)))))) h = refl
torn-published (suc (suc (suc (suc (suc (suc (suc zero))))))) h = refl
torn-published (suc (suc (suc (suc (suc (suc (suc (suc i)))))))) h = absurd (omega arith)

torn-Sees : Sees 24 0 8 written torn
torn-Sees = record { same_len = refl; published = torn-published }

abbrev loading : System
loading = record (start blank) { sender = SendPc.loaded 0 (7 ∷ 8 ∷ []) }

abbrev published : System
published = record (start blank) {
  region = record { rd_idx = record { raw = 0 }; wr_idx = record { raw = 8 }; bytes = written };
  send_wr_idx = 8;
  sender = stored;
  sent = (7 ∷ 8 ∷ []) ∷ [];
}

-- The receiver has loaded the write index, and the notification is still due.
abbrev reading : System
reading = record published { receiver = RecvPc.loaded true (0 ∷ 0 ∷ []) 8; waiter = registered }

abbrev sleeping : System
sleeping = record published {
  region = record { rd_idx = record { raw = 8 }; wr_idx = record { raw = 8 }; bytes = written };
  recv_rd_idx = 8;
  sender = SendPc.idle;
  receiver = asleep;
  waiter = registered;
  received = (7 ∷ 8 ∷ []) ∷ [];
}

-- A run to a state, with messages shorter than 2 ^ 16 bytes.
abbrev Run : System → Type 0
Run s = (r : Reach debug 24 blank s) × AllShort r

abbrev onward : {s s' : System} → Run s → (step : Step debug 24 s s') → IsShort step → Run s'
onward (r, all) step short = (next r step, (all, short))

loading_run : Run loading
unfolding load
loading_run = onward (here, tt) (load_rd (7 ∷ 8 ∷ []) refl) (omega arith)

published_run : Run published
unfolding load store fill splice from_u16
published_run =
    onward (onward loading_run (fill_ok {wr_idx = 8} {bytes = written} refl refl) tt)
      (store_wr refl) tt

reading_run : Run reading
unfolding load
reading_run = onward (onward published_run (poll true (0 ∷ 0 ∷ []) refl) tt) (load_wr refl) tt

sleeping_run : Run sleeping
unfolding load store take_packet slice splice
sleeping_run =
    let r4 =
      onward reading_run (take_ok {buf' = 7 ∷ 8 ∷ []} {n = 2} {rd_idx = 8} refl torn-Sees refl)
        tt in
    let r5 = onward (onward r4 (store_rd refl) tt) (notify refl) tt in
    let r6 = onward r5 (poll true (0 ∷ []) refl) tt in
    onward (onward r6 (load_wr refl) tt) (take_empty refl (Sees-refl written) refl) tt

delivered_in_order_example :
    (pending : Queue) × (reading.sent ≡ reading.received ++ pending) × Stores 24 0 8 written pending
delivered_in_order_example = delivered_in_order blank-IsFresh reading_run.0 reading_run.1

registered-ne-fired : registered ≢ fired
registered-ne-fired e = cc

no_lost_wakeup_example : sleeping.sent ≡ sleeping.received
no_lost_wakeup_example =
    no_lost_wakeup blank-IsFresh sleeping_run.0 sleeping_run.1 refl registered-ne-fired refl

fill-done_example :
    (res : Result (ℕ × List ℕ) SendError) × (fill debug 24 0 0 blank.bytes (7 ∷ 8 ∷ []) ≡ done res)
fill-done_example = fill-done blank-IsFresh loading_run.0 loading_run.1 0 (7 ∷ 8 ∷ []) refl

take_packet-done_example :
    (res : Result (ℕ × ℕ × List ℕ) RecvError) × (take_packet debug 24 0 8 torn (0 ∷ 0 ∷ [])
      ≡ done res)
take_packet-done_example =
    take_packet-done blank-IsFresh reading_run.0 reading_run.1 true (0 ∷ 0 ∷ []) torn 8 refl
      torn-Sees

-- The receiver sleeps, and a second message is published behind its back.
abbrev written_again : List ℕ
written_again = 0 ∷ 2 ∷ 170 ∷ 170 ∷ 7 ∷ 8 ∷ 0 ∷ 0 ∷ 0 ∷ 1 ∷ 170 ∷ 170 ∷ 9 ∷ replicate 11 0

abbrev notified : System
notified = record sleeping {
  region = record {
    rd_idx = record { raw = 8 };
    wr_idx = record { raw = 16 };
    bytes = written_again;
  };
  send_wr_idx = 16;
  waiter = fired;
  sent = (7 ∷ 8 ∷ []) ∷ (9 ∷ []) ∷ [];
}

notified_run : Run notified
unfolding load store fill splice from_u16
notified_run =
    let r1 = onward sleeping_run (load_rd (9 ∷ []) refl) (omega arith) in
    let r2 = onward r1 (fill_ok {wr_idx = 16} {bytes = written_again} refl refl) tt in
    onward (onward r2 (store_wr refl) tt) (notify refl) tt

recv-progress_example : Delivers debug 24 7 notified (9 ∷ [])
recv-progress_example =
    recv-progress (9 ∷ []) [] blank-IsFresh notified_run.0 notified_run.1 refl refl
