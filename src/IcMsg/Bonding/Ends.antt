-- ===== src/IcMsg/Bonding/Ends.antt =====
-- When `IcMsg::init` of src/lib.rs returns, whatever the other core writes meanwhile.
use icmsg_rs.Prelude.{
  ℕ, ◌<◌, ◌≡◌, refl, Bool, true, false, Option, none, some, List, [], ◌∷◌, length, get_or,
  replicate,
}
use icmsg_rs.Machine.{done, Result, Target}
use icmsg_rs.Transport.Region.{Notifier}
use icmsg_rs.Transport.IcMsgTransport
use icmsg_rs.Transport.IcMsgTransport.{IcMsgTransport, Regions}
use icmsg_rs.Transport.Untrusted.Recv.{IsReady, try_recv_contained}
use icmsg_rs.IcMsg.Defs.{
  MemoryConfig, InitError, IcMsg, Either, first, second, wait_for_peer, after_wait, after_announce,
  bond, init,
}
use icmsg_rs.IcMsg.Bonding.Both.{IsGood, announce-ok}

-- A notification comes in some round.
unfoldable pub answered : List Either → Bool
answered [] = false
answered (first ∷ rounds) = true
answered (second ∷ rounds) = answered rounds

abbrev pub has_value {ℓ} : {A : Type ℓ} → Option A → Bool
has_value none = false
has_value (some x) = true

-- All that is asked of the other core: it writes bytes, and the region stays as long as it is.
pub record IsPeer (peer : Regions → Regions) : Type 0 where
  pub keeps_length :
      (mem : Regions) → length (peer mem).recv_region.bytes ≡ length mem.recv_region.bytes
  pub is_byte : (mem : Regions) (i : ℕ) → get_or (peer mem).recv_region.bytes i 0 < 256

module _ {ℓ κ} {M : Type ℓ} {W : Type κ} (t : Target) where
  -- Behind the waiting loop nothing that the region holds keeps `init` from its end.
  bond-done :
      (transport : IcMsgTransport M) (waiter : W) (mem : Regions)
      → IsReady mem.recv_region transport.receiver
      → (res : Result (IcMsg M W × Regions) InitError) × (bond t transport waiter mem ≡ done res)
  unfolding bond IcMsgTransport.try_recv
  bond-done transport waiter mem ready =
      let (r', region', buf', e, contained) = try_recv_contained t (replicate 32 0) ready in
      rw e (_, refl)

module _ {ℓ κ} {M : Type ℓ} {W : Type κ} ⦃notifier : Notifier M⦄ (t : Target) where
  after_wait-done :
      (rounds : List Either) (transport : IcMsgTransport M) (waiter : W) (peer : Regions → Regions)
      (mem : Regions)
      → IsReady (peer mem).recv_region transport.receiver
      → (answer : Option (Result (IcMsg M W × Regions) InitError)) × (after_wait t waiter peer mem
            (wait_for_peer rounds transport)
          ≡ done answer)
        × (has_value answer ≡ answered rounds)
  unfolding after_wait wait_for_peer answered IcMsgTransport.notify icmsg_rs.Transport.Sender.notify
  after_wait-done [] transport waiter peer mem ready = (none, refl, refl)
  after_wait-done (first ∷ rounds) transport waiter peer mem ready =
      let (res, e) = bond-done t (IcMsgTransport.notify transport) waiter (peer mem) ready in
      (some res, rw e, refl)
  after_wait-done (second ∷ rounds) transport waiter peer mem ready =
      after_wait-done rounds (IcMsgTransport.notify transport) waiter peer mem ready

  -- With a good configuration `init` neither panics nor leaves a region, whatever bytes the other core
  -- writes, and it returns if and only if a notification comes: with an answer then, and waiting else.
  pub init-returns :
      (align : ℕ) (config : MemoryConfig) (mbox : M) (waiter : W) (rounds : List Either)
      (peer : Regions → Regions) (mem : Regions)
      → IsGood align config mem
      → IsPeer peer
      → (answer : Option (Result (IcMsg M W × Regions) InitError)) × (init t align config mbox
            waiter rounds peer mem
          ≡ done answer)
        × (has_value answer ≡ answered rounds)
  unfolding init after_announce
  init-returns align config mbox waiter rounds peer mem good any =
      let (s', region', e, _) = announce-ok t mbox good in
      let c = good.config_good in
      let mem' : Regions = record mem { send_region = region' } in
      let (answer, ends, waits) =
        after_wait-done rounds
          (record {
            sender = s';
            receiver = record { recv_buffer_len = config.recv_buffer_len; recv_rd_idx = 0 };
          })
          waiter peer mem'
          (record {
            ring = c.recv_ring;
            whole = rw (any.keeps_length mem') c.recv_whole;
            reader = record { aligned = refl; in_ring = c.recv_ring.nonempty };
            is_byte = any.is_byte mem';
          }) in
      (answer, rw e ends, waits)
