-- ===== src/Example/Start.antt =====
-- What the `main` functions of the examples do with the channel at their start: the configuration, `init`
-- and `split` (app-core/src/main.rs of trouble-sdc-nrf5340; net-core/src/main.rs and the example
-- embassy-zephyr-nrf5340 do the same).
use icmsg_rs.Prelude.{ℕ, ◌-◌, ◌≡◌, Option, none, some, List, ◌∷◌, ◌++◌, replicate, length, []}
use icmsg_rs.Machine.{Exec, done, ◌>>=◌, Result, ok, err, Target}
use icmsg_rs.Transport.Region.{SharedMemoryRegion, Notifier}
use icmsg_rs.Transport.IcMsgTransport.{IcMsgTransport, Regions}
use icmsg_rs.Transport.Refine.{Represents}
use icmsg_rs.IcMsg.Defs.{InitError, IcMsg, Sender, Receiver, Either, first, second, announce, init}
use icmsg_rs.IcMsg.Bonding.Both.{cores_bond}
use icmsg_rs.IcMsg.Methods.{split}
use icmsg_rs.Example.Config.{
  LinkerSymbols, align, get_icmsg_config, swapped, IsLinked, linked_config,
  get_icmsg_config-linked_config, get_icmsg_config-swapped, linked_config-IsGood,
}

module _ {ℓ κ} {M : Type ℓ} {W : Type κ} where
  -- The match on what `init` answers, and `split`.
  unfoldable halves :
      Option (Result (IcMsg M W × Regions) InitError)
      → Option (Result (Sender M × Receiver W × Regions) InitError)
  unfolding split
  halves none = none
  halves (some (err e)) = some (err e)
  halves (some (ok (icmsg, mem))) = let (send, recv) = split icmsg in some (ok (send, recv, mem))

module _ {ℓ κ} {M : Type ℓ} {W : Type κ} ⦃notifier : Notifier M⦄ (t : Target) where
  -- From `get_icmsg_config` to `split`; `none` while `init` waits.
  unfoldable pub connect :
      LinkerSymbols
      → M
      → W
      → List Either
      → (Regions → Regions)
      → Regions
      → Exec (Option (Result (Sender M × Receiver W × Regions) InitError))
  unfolding halves
  connect sym mbox waiter rounds peer mem = do
    config ← get_icmsg_config t sym
    out ← init t align config mbox waiter rounds peer mem
    done (halves out)

  -- Core a announces itself with the linker's symbols `sym` and leaves `a'`, core b connects, core a connects,
  -- both succeed, and what `Then` says holds of their halves and of the regions at the end.
  abbrev pub Connects {μ} :
      LinkerSymbols
      → M
      → M
      → W
      → W
      → ℕ
      → ℕ
      → List Either
      → List Either
      → SharedMemoryRegion
      → SharedMemoryRegion
      → (Sender M
          → Receiver W
          → SharedMemoryRegion
          → Sender M
          → Receiver W
          → SharedMemoryRegion
          → Type μ)
      → Type (ℓ ⊔ κ ⊔ μ)
  Connects sym mbox_a mbox_b waiter_a waiter_b k_a k_b later_a later_b a b Then =
      (send_a send_b : Sender M) × (recv_a recv_b : Receiver W) × (transport_a : IcMsgTransport M)
      × (a' a'' b' b'' : SharedMemoryRegion) × (announce t align (linked_config sym) mbox_a
            (record { send_region = a; recv_region = b })
          ≡ done (ok (transport_a, record { send_region = a'; recv_region = b })))
      × (connect (swapped sym) mbox_b waiter_b (replicate k_b second ++ (first ∷ later_b))
            (λ mem. mem) (record { send_region = b; recv_region = a' })
          ≡ done (some (ok (send_b, recv_b, record { send_region = b'; recv_region = a'' }))))
      × (connect sym mbox_a waiter_a (replicate k_a second ++ (first ∷ later_a))
            (λ mem. record { send_region = a''; recv_region = b' })
            (record { send_region = a; recv_region = b })
          ≡ done (some (ok (send_a, recv_a, record { send_region = a''; recv_region = b'' }))))
      × Then send_a recv_b a'' send_b recv_a b''

  -- Two cores whose linker scripts name the same regions, of whole words with room for the header and 24
  -- bytes, the other way round, connect, and each holds a sender whose messages the other's receiver gets,
  -- with none on the way.
  pub cores_connect :
      (sym : LinkerSymbols) (mbox_a mbox_b : M) (waiter_a waiter_b : W) (k_a k_b : ℕ)
      (later_a later_b : List Either) (a b : SharedMemoryRegion)
      → IsLinked sym
      → length a.bytes ≡ sym.tx_end - sym.tx_start - 8
      → length b.bytes ≡ sym.rx_end - sym.rx_start - 8
      → Connects sym mbox_a mbox_b waiter_a waiter_b k_a k_b later_a later_b a b
          (λ send_a recv_b forth send_b recv_a home.
            Represents t (sym.tx_end - sym.tx_start - 8) send_a.transport forth recv_b.transport []
            × Represents t
                (sym.rx_end - sym.rx_start - 8)
                send_b.transport
                home
                recv_a.transport
                [])
  unfolding connect halves split
  cores_connect sym mbox_a mbox_b waiter_a waiter_b k_a k_b later_a later_b a b linked whole_a
        whole_b =
      let (chan_a, chan_b, transport_a, a', a'', b', b'', announced, init_b, init_a, forth, back) =
        cores_bond t align (linked_config sym) mbox_a mbox_b waiter_a waiter_b k_a k_b later_a
          later_b a b (linked_config-IsGood sym a b linked whole_a whole_b) in
      (
        chan_a.sender,
        chan_b.sender,
        chan_a.receiver,
        chan_b.receiver,
        transport_a,
        a',
        a'',
        b',
        b'',
        announced,
        rw (get_icmsg_config-swapped t sym linked, init_b),
        rw (get_icmsg_config-linked_config t sym linked, init_a),
        (forth, back),
      )

  -- What follows from two empty channels holds once the cores are connected.
  pub cores_connect_then {μ} :
      (sym : LinkerSymbols) (mbox_a mbox_b : M) (waiter_a waiter_b : W) (k_a k_b : ℕ)
      (later_a later_b : List Either) (a b : SharedMemoryRegion)
      (Then : Sender M
        → Receiver W
        → SharedMemoryRegion
        → Sender M
        → Receiver W
        → SharedMemoryRegion
        → Type μ)
      → IsLinked sym
      → length a.bytes ≡ sym.tx_end - sym.tx_start - 8
      → length b.bytes ≡ sym.rx_end - sym.rx_start - 8
      → ((send_a : Sender M) (recv_b : Receiver W) (forth : SharedMemoryRegion) (send_b : Sender M)
            (recv_a : Receiver W) (home : SharedMemoryRegion)
          → Represents t (sym.tx_end - sym.tx_start - 8) send_a.transport forth recv_b.transport []
          → Represents t (sym.rx_end - sym.rx_start - 8) send_b.transport home recv_a.transport []
          → Then send_a recv_b forth send_b recv_a home)
      → Connects sym mbox_a mbox_b waiter_a waiter_b k_a k_b later_a later_b a b Then
  cores_connect_then sym mbox_a mbox_b waiter_a waiter_b k_a k_b later_a later_b a b Then linked
        whole_a whole_b follows =
      let (
        send_a,
        send_b,
        recv_a,
        recv_b,
        transport_a,
        a',
        a'',
        b',
        b'',
        announced,
        on_b,
        on_a,
        (forth, back),
      ) =
        cores_connect sym mbox_a mbox_b waiter_a waiter_b k_a k_b later_a later_b a b linked whole_a
          whole_b in
      (
        send_a,
        send_b,
        recv_a,
        recv_b,
        transport_a,
        a',
        a'',
        b',
        b'',
        announced,
        on_b,
        on_a,
        follows send_a recv_b a'' send_b recv_a b'' forth back,
      )
