-- ===== src/IcMsg/Bonding/Both.antt =====
-- `IcMsg::init` on both cores.
use icmsg_rs.Prelude.{
  ℕ, zero, suc, ◌≤◌, ◌≡◌, refl, some, List, [], ◌∷◌, ◌++◌, arith, ==_iff, le→not-ltb, length,
  replicate,
}
use icmsg_rs.Machine.{done, Result, ok, Target}
use icmsg_rs.Transport.Region.{SharedMemoryRegion, Notifier}
use icmsg_rs.Transport.Queue.{Queue}
use icmsg_rs.Transport.Sender.{Sender as TransportSender}
use icmsg_rs.Transport.Receiver.{Receiver as TransportReceiver}
use icmsg_rs.Transport.IcMsgTransport
use icmsg_rs.Transport.IcMsgTransport.{IcMsgTransport, Regions}
use icmsg_rs.Transport.IcMsgTransport.New.{IsConfig, new_lem, fresh-Represents}
use icmsg_rs.Transport.Refine.{Represents, send-ok}
use icmsg_rs.IcMsg.Defs.{
  magic, MemoryConfig, InitError, IcMsg, list_beq, Either, first, second, wait_for_peer, announce,
  after_wait, after_announce, bond, init,
}
use icmsg_rs.IcMsg.Bonding.{Bonds, bond_refines, bonding}

-- What `MemoryConfig` documents of a core's configuration.
pub record IsGood (align : ℕ) (config : MemoryConfig) (mem : Regions) : Type 0 where
  pub config_good :
      IsConfig align config.send_region config.recv_region config.send_buffer_len
        config.recv_buffer_len mem
  pub send_large : 24 ≤ config.send_buffer_len
  pub recv_large : 24 ≤ config.recv_buffer_len

module _ {ℓ} {M : Type ℓ} ⦃notifier : Notifier M⦄ where
  abbrev pub notified : ℕ → M → M
  notified zero mbox = mbox
  notified (suc n) mbox = notified n (notifier.notify mbox)

  -- The transport after `n` notifications.
  abbrev pub notifying : ℕ → IcMsgTransport M → IcMsgTransport M
  notifying n transport = record transport {
    sender = record transport.sender { mbox = notified n transport.sender.mbox };
  }

  -- The waiting loop notifies the peer once in each round without a notification, and once at its end.
  wait_for_peer_lem :
      (k : ℕ) (later : List Either) (transport : IcMsgTransport M)
      → wait_for_peer (replicate k second ++ (first ∷ later)) transport
        ≡ some (notifying (suc k) transport)
  unfolding wait_for_peer IcMsgTransport.notify
  wait_for_peer_lem zero later transport = refl
  wait_for_peer_lem (suc k) later transport =
      wait_for_peer_lem k later (IcMsgTransport.notify transport)

  module _ (t : Target) {align : ℕ} {config : MemoryConfig} {mem : Regions} (mbox : M)
      (good : IsGood align config mem) where
    -- `init` with a good configuration gets as far as the waiting loop: its magic word fits, and the
    -- channel from a fresh receiver at the other end then holds it and nothing else.
    pub announce-ok :
        (s' : TransportSender M) × (region' : SharedMemoryRegion) × (announce t align config mbox
            mem
          ≡ done (
              ok (
                record {
                  sender = s';
                  receiver = record { recv_buffer_len = config.recv_buffer_len; recv_rd_idx = 0 };
                },
                record mem { send_region = region' },
              )))
        × Represents t config.send_buffer_len s' region'
            (record { recv_buffer_len = config.send_buffer_len; recv_rd_idx = 0 })
            (magic ∷ [])
    unfolding announce IcMsgTransport.send
    announce-ok =
        let c = good.config_good in
        let send_large = good.send_large in
        let recv_large = good.recv_large in
        let (s', region', sent, rep) =
          send-ok t magic (fresh-Represents t mbox mem.send_region c.send_ring c.send_whole)
            (omega arith) (omega arith) in
        (
          s',
          region',
          rw (
            (==_iff _ _).1 c.send_ring.whole_words,
            (==_iff _ _).1 c.recv_ring.whole_words,
            le→not-ltb config.send_buffer_len 24 send_large,
            le→not-ltb config.recv_buffer_len 24 recv_large,
            new_lem t align config.send_region config.recv_region config.send_buffer_len
                config.recv_buffer_len mbox mem c,
            sent,
          ),
          rep,
        )

  -- The whole of `init`, put together from its phases.
  module _ {κ} {W : Type κ} (t : Target) where
    init_lem :
        (align : ℕ) (config : MemoryConfig) (mbox : M) (mem : Regions) {mem' : Regions}
        {transport : IcMsgTransport M} (waiter : W) (k : ℕ) (later : List Either)
        (peer : Regions → Regions)
        → announce t align config mbox mem ≡ done (ok (transport, mem'))
        → {out : Result (IcMsg M W × Regions) InitError}
        → bond t (notifying (suc k) transport) waiter (peer mem') ≡ done out
        → init t align config mbox waiter (replicate k second ++ (first ∷ later)) peer mem
          ≡ done (some out)
    unfolding init after_announce after_wait
    init_lem align config mbox mem {transport} waiter k later peer e b =
        rw (e, wait_for_peer_lem k later transport, b)

-- The configuration of the core at the other end.
abbrev pub mirrored : MemoryConfig → MemoryConfig
mirrored config = record {
  send_region = config.recv_region;
  recv_region = config.send_region;
  send_buffer_len = config.recv_buffer_len;
  recv_buffer_len = config.send_buffer_len;
}

-- Only the lengths of the regions matter.
pub IsGood-whole :
    {align : ℕ} {config : MemoryConfig} {mem mem' : Regions}
    → IsGood align config mem
    → length mem'.send_region.bytes ≡ config.send_buffer_len
    → length mem'.recv_region.bytes ≡ config.recv_buffer_len
    → IsGood align config mem'
IsGood-whole good send_whole recv_whole =
    let c = good.config_good in
    record {
      config_good = record {
        send_ring = c.send_ring;
        recv_ring = c.recv_ring;
        send_aligned = c.send_aligned;
        recv_aligned = c.recv_aligned;
        send_whole = send_whole;
        recv_whole = recv_whole;
      };
      send_large = good.send_large;
      recv_large = good.recv_large;
    }

pub IsGood-mirrored :
    {align : ℕ} {config : MemoryConfig} {a a' b : SharedMemoryRegion}
    → IsGood align config (record { send_region = a; recv_region = b })
    → length a'.bytes ≡ config.send_buffer_len
    → IsGood align (mirrored config) (record { send_region = b; recv_region = a' })
IsGood-mirrored good whole =
    let c = good.config_good in
    record {
      config_good = record {
        send_ring = c.recv_ring;
        recv_ring = c.send_ring;
        send_aligned = c.recv_aligned;
        recv_aligned = c.send_aligned;
        send_whole = c.recv_whole;
        recv_whole = whole;
      };
      send_large = good.recv_large;
      recv_large = good.send_large;
    }

pub Represents-mbox {ℓ} :
    {M : Type ℓ} {t : Target} {size : ℕ} {s : TransportSender M} {region : SharedMemoryRegion}
    {r : TransportReceiver} {q : Queue} (mbox : M)
    → Represents t size s region r q
    → Represents t size (record s { mbox = mbox }) region r q
Represents-mbox mbox rep = record {
  send_len = rep.send_len;
  recv_len = rep.recv_len;
  rd_shared = rep.rd_shared;
  wr_shared = rep.wr_shared;
  stored = rep.stored;
}

-- Two cores with mirrored good configurations. Core a sends its magic word, which leaves its region as
-- `a'`; core b runs `init` to its end, after any number of rounds without a notification, and leaves `b'`
-- and `a''`; then core a, which has met as many rounds as it likes, ends its `init`, and leaves `b''`. Both
-- `init`s succeed, and the channels of both directions then hold no message.
pub cores_bond {ℓ κ} :
    {M : Type ℓ} {W : Type κ} ⦃notifier : Notifier M⦄ (t : Target) (align : ℕ)
    (config : MemoryConfig) (mbox_a mbox_b : M) (waiter_a waiter_b : W) (k_a k_b : ℕ)
    (later_a later_b : List Either) (a b : SharedMemoryRegion)
    → IsGood align config (record { send_region = a; recv_region = b })
    → (chan_a chan_b : IcMsg M W) × (transport_a : IcMsgTransport M) × (a' a'' b'
        b'' : SharedMemoryRegion)
      × (announce t align config mbox_a (record { send_region = a; recv_region = b })
          ≡ done (ok (transport_a, record { send_region = a'; recv_region = b })))
      × (init t align
            (mirrored config)
            mbox_b
            waiter_b
            (replicate k_b second ++ (first ∷ later_b))
            (λ mem. mem)
            (record { send_region = b; recv_region = a' })
          ≡ done (some (ok (chan_b, record { send_region = b'; recv_region = a'' }))))
      × (init t align config mbox_a waiter_a
            (replicate k_a second ++ (first ∷ later_a))
            (λ mem. record { send_region = a''; recv_region = b' })
            (record { send_region = a; recv_region = b })
          ≡ done (some (ok (chan_a, record { send_region = a''; recv_region = b'' }))))
      × Represents t config.send_buffer_len chan_a.sender.transport a'' chan_b.receiver.transport []
      × Represents t config.recv_buffer_len chan_b.sender.transport b'' chan_a.receiver.transport []
unfolding Bonds bonding list_beq
cores_bond t align config mbox_a mbox_b waiter_a waiter_b k_a k_b later_a later_b a b good =
    let (sa, a', announced_a, rep_a) = announce-ok t mbox_a good in
    let (sb, b', announced_b, rep_b) =
      announce-ok t mbox_b (IsGood-mirrored good rep_a.stored.whole) in
    let tb = notifying (suc k_b) (record {
      sender = sb;
      receiver = record { recv_buffer_len = config.send_buffer_len; recv_rd_idx = 0 };
    }) in
    let ta = notifying (suc k_a) (record {
      sender = sa;
      receiver = record { recv_buffer_len = config.recv_buffer_len; recv_rd_idx = 0 };
    }) in
    let (rb, a'', bonded_b, rest_a) =
      bond_refines t tb waiter_b (record { send_region = b'; recv_region = a' }) (magic ∷ [])
        rep_a in
    let (ra, b'', bonded_a, rest_b) =
      bond_refines t ta waiter_a (record { send_region = a''; recv_region = b' }) (magic ∷ [])
        rep_b in
    (
      _,
      _,
      _,
      a',
      a'',
      b',
      b'',
      announced_a,
      init_lem t align (mirrored config) mbox_b _ waiter_b k_b later_b (λ mem. mem) announced_b
          bonded_b,
      init_lem t align config mbox_a _ waiter_a k_a later_a
          (λ mem. record { send_region = a''; recv_region = b' }) announced_a bonded_a,
      Represents-mbox (notified (suc k_a) sa.mbox) rest_a,
      Represents-mbox (notified (suc k_b) sb.mbox) rest_b,
    )
