-- ===== src/IcMsg/Defs.antt =====
-- `MemoryConfig`, `InitError`, `IcMsg` and its halves of src/lib.rs, and `IcMsg::init`.
use icmsg_rs.Prelude.{
  ℕ, ◌%◌, Bool, true, false, not, ◌&&◌, ◌||◌, Option, none, some, List, [], ◌∷◌, ltb, ◌==◌,
  if◌then◌else◌, take, replicate, ◌≡◌, refl, arith,
}
use icmsg_rs.Machine.{Exec, done, ◌>>=◌, Result, ok, err, Target}
use icmsg_rs.Transport.Region.{SendError, RecvError, Notifier}
use icmsg_rs.Transport.Sender.{Sender as TransportSender}
use icmsg_rs.Transport.Receiver.{Receiver as TransportReceiver}
use icmsg_rs.Transport.IcMsgTransport
use icmsg_rs.Transport.IcMsgTransport.{IcMsgTransport, Regions}

-- `MAGIC`
abbrev pub magic : List ℕ
magic =
    0x45 ∷ 0x6d ∷ 0x31 ∷ 0x6c ∷ 0x31 ∷ 0x4b ∷ 0x30 ∷ 0x72 ∷ 0x6e ∷ 0x33 ∷ 0x6c ∷ 0x69 ∷ 0x34 ∷ []

-- `MemoryConfig`, its pointers as addresses.
pub record MemoryConfig : Type 0 where
  pub send_region : ℕ
  pub recv_region : ℕ
  pub send_buffer_len : ℕ
  pub recv_buffer_len : ℕ

pub data InitError : Type 0 where
  too_small invalid_size : InitError
  bonding_send_error : SendError → InitError
  bonding_recv_error : RecvError → InitError
  bonding_wrong_magic : InitError

-- `Sender`, `Receiver` and `IcMsg` of src/lib.rs, over those of the transport.
pub record Sender {ℓ} (M : Type ℓ) : Type ℓ where
  pub transport : TransportSender M

pub record Receiver {ℓ} (W : Type ℓ) : Type ℓ where
  pub transport : TransportReceiver
  pub waiter : W

pub record IcMsg {ℓ κ} (M : Type ℓ) (W : Type κ) : Type (ℓ ⊔ κ) where
  pub sender : Sender M
  pub receiver : Receiver W

-- What `select(wait_fut, timeout)` answers.
pub data Either : Type 0 where
  first second : Either

unfoldable pub list_beq : List ℕ → List ℕ → Bool
list_beq [] [] = true
list_beq (x ∷ xs) (y ∷ ys) = x == y && list_beq xs ys
list_beq _ _ = false

pub list_beq_sound : (xs ys : List ℕ) → list_beq xs ys ≡ true → xs ≡ ys
unfolding list_beq
list_beq_sound [] [] h = refl
list_beq_sound [] (y ∷ ys) h = cc
list_beq_sound (x ∷ xs) [] h = cc
list_beq_sound (x ∷ xs) (y ∷ ys) h = ground (arith, list_beq_sound xs ys)

pub list_beq_refl : (xs : List ℕ) → list_beq xs xs ≡ true
unfolding list_beq
list_beq_refl [] = refl
list_beq_refl (x ∷ xs) = ground (arith, list_beq_refl xs)

module _ {ℓ} {M : Type ℓ} ⦃notifier : Notifier M⦄ where
  -- The waiting loop of `init` and the notification behind it; `none` while it waits.
  unfoldable pub wait_for_peer : List Either → IcMsgTransport M → Option (IcMsgTransport M)
  unfolding IcMsgTransport.notify
  wait_for_peer [] transport = none
  wait_for_peer (first ∷ rounds) transport = some (IcMsgTransport.notify transport)
  wait_for_peer (second ∷ rounds) transport = wait_for_peer rounds (IcMsgTransport.notify transport)

  -- `init` up to the waiting loop: the checks of the configuration, and the magic message is sent.
  unfoldable pub announce :
      Target → ℕ → MemoryConfig → M → Regions → Exec (Result (IcMsgTransport M × Regions) InitError)
  unfolding IcMsgTransport.send
  announce t align config notifier mem =
      if not (config.send_buffer_len % 4 == 0) || not (config.recv_buffer_len % 4 == 0)
      then done (err invalid_size)
      else if ltb config.send_buffer_len 24 || ltb config.recv_buffer_len 24
      then done (err too_small)
      else (do
        made ←
            IcMsgTransport.new t align config.send_region config.recv_region config.send_buffer_len
              config.recv_buffer_len notifier mem
        sent ← IcMsgTransport.send t made.0 made.1 magic
        done (elim sent.2 [ ok _ ↦ ok (sent.0, sent.1) | err e ↦ err (bonding_send_error e) ]))

module _ {ℓ κ} {M : Type ℓ} {W : Type κ} where
  -- `init` behind the waiting loop: the first message of the other core is received and checked.
  unfoldable pub bond :
      Target → IcMsgTransport M → W → Regions → Exec (Result (IcMsg M W × Regions) InitError)
  unfolding IcMsgTransport.try_recv IcMsgTransport.split list_beq
  bond t transport waiter mem = do
    out ← IcMsgTransport.try_recv t transport mem (replicate 32 0)
    done (elim out.3 [
      | ok _ ↦
          if list_beq (take 13 out.2) magic
          then (let (s, r) = IcMsgTransport.split out.0 in
              ok (
                record {
                  sender = record { transport = s };
                  receiver = record { transport = r; waiter = waiter };
                },
                out.1,
              ))
          else err bonding_wrong_magic
      | err e ↦ err (bonding_recv_error e)
    ])

  unfoldable pub after_wait :
      Target
      → W
      → (Regions → Regions)
      → Regions
      → Option (IcMsgTransport M)
      → Exec (Option (Result (IcMsg M W × Regions) InitError))
  unfolding bond
  after_wait t waiter peer mem none = done none
  after_wait t waiter peer mem (some transport) = do
    bonded ← bond t transport waiter (peer mem)
    done (some bonded)

module _ {ℓ κ} {M : Type ℓ} {W : Type κ} ⦃notifier : Notifier M⦄ where
  unfoldable pub after_announce :
      Target
      → W
      → List Either
      → (Regions → Regions)
      → Result (IcMsgTransport M × Regions) InitError
      → Exec (Option (Result (IcMsg M W × Regions) InitError))
  unfolding after_wait wait_for_peer
  after_announce t waiter rounds peer (err e) = done (some (err e))
  after_announce t waiter rounds peer (ok (transport, mem)) =
      after_wait t waiter peer mem (wait_for_peer rounds transport)

  -- `IcMsg::init`: `rounds` is what `select` answers, and `peer` what the other core does to the shared
  -- memory while this one waits; `none` while it still waits.
  unfoldable pub init :
      Target
      → ℕ
      → MemoryConfig
      → M
      → W
      → List Either
      → (Regions → Regions)
      → Regions
      → Exec (Option (Result (IcMsg M W × Regions) InitError))
  unfolding announce after_announce
  init t align config notifier waiter rounds peer mem = do
    announced ← announce t align config notifier mem
    after_announce t waiter rounds peer announced
