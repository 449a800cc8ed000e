-- ===== src/Example/Zephyr.antt =====
-- `main` of embassy-zephyr-nrf5340/app-core/src/main.rs, from the configuration to the last message.
pub mod Tasks
use icmsg_rs.Prelude.{
  ℕ, ◌+◌, ◌-◌, ◌≤◌, ◌<◌, ◌^◌, ◌≡◌, refl, sym, Bool, true, false, Option, none, some, List, [], ◌∷◌,
  ◌++◌, arith, length, take, drop, replicate, append_assoc, append-nil, take-append, length-append,
  length-drop, length-replicate,
}
use mathlib.Core.Path.{subst}
use icmsg_rs.Machine.{Exec, done, ◌>>=◌, Result, ok, err, Target}
use icmsg_rs.Transport.Region.{SharedMemoryRegion, Notifier, SendError, RecvError}
use icmsg_rs.Transport.Queue.{Queue, footprint, footprint-append}
use icmsg_rs.Transport.Receiver as TransportHalf
use icmsg_rs.Transport.Sender.{Sender as TransportSender}
use icmsg_rs.Transport.IcMsgTransport.{IcMsgTransport, Regions}
use icmsg_rs.Transport.Refine.{Represents, send-ok}
use icmsg_rs.IcMsg.Defs.{InitError, Sender, Receiver, Either, first, second, announce, MemoryConfig}
use icmsg_rs.IcMsg.Recv.{Round, recv, recv-found}
use icmsg_rs.IcMsg.Methods.{send_half}
use icmsg_rs.Example.Config
use icmsg_rs.Example.Config.{LinkerSymbols, align, swapped, IsLinked, linked_config}
use icmsg_rs.Example.Start.{connect, cores_connect}
use icmsg_rs.Example.Hci.Receive.{IsPrompt, AllFit, AllFit-eq}
use icmsg_rs.Example.Zephyr.Tasks.{
  msgs, send_each, send_each_refines, AllFit-AllShort, msgs-AllFit, ReceiveState, receive,
  receive_from_refines,
}

module _ {ℓ κ} {M : Type ℓ} {W : Type κ} ⦃notifier : Notifier M⦄ (t : Target) where
  -- `main` behind the match on what `init` answers; the receiver goes to the task `receive`.
  unfoldable after_connect :
      Option (Result (Sender M × Receiver W × Regions) InitError)
      → Exec (Option (Result (Sender M × Receiver W × Regions) InitError))
  unfolding send_each
  after_connect none = done none
  after_connect (some (err e)) = done (some (err e))
  after_connect (some (ok (send, recv, mem))) = do
    out ← send_each t msgs send mem.send_region
    done (some (ok (out.0, recv, record mem { send_region = out.1 })))

  -- `main`; `none` while `init` waits.
  unfoldable pub main :
      LinkerSymbols
      → M
      → W
      → List Either
      → (Regions → Regions)
      → Regions
      → Exec (Option (Result (Sender M × Receiver W × Regions) InitError))
  unfolding connect after_connect
  main symbols mbox waiter rounds peer mem = do
    out ← connect t symbols mbox waiter rounds peer mem
    after_connect out

  -- From power-up to the last message: on two cores whose linker scripts name the same good regions
  -- the other way round, with at least 80 bytes from core a to core b, core a announces itself, core b
  -- connects, core a runs `main` to its end without an error, and the task `receive` on core b, which
  -- looks after that, then logs the messages of `main`, each whole, once and in order, and goes on
  -- waiting.
  pub main_lem :
      (symbols : LinkerSymbols) (mbox_a mbox_b : M) (waiter_a waiter_b : W) (k_a k_b : ℕ)
      (later_a later_b : List Either) (a b : SharedMemoryRegion) (calls : List (List Round))
      → IsLinked symbols
      → symbols.tx_start + 80 ≤ symbols.tx_end
      → length a.bytes ≡ symbols.tx_end - symbols.tx_start - 8
      → length b.bytes ≡ symbols.rx_end - symbols.rx_start - 8
      → IsPrompt msgs calls
      → (send_a send_b : Sender M) × (recv_a recv_b recv_b' : Receiver W)
        × (transport_a : IcMsgTransport M) × (a' a'' a3 a4 b' b'' : SharedMemoryRegion) × (announce
              t align
              (linked_config symbols)
              mbox_a
              (record { send_region = a; recv_region = b })
            ≡ done (ok (transport_a, record { send_region = a'; recv_region = b })))
        × (connect t
              (swapped symbols)
              mbox_b
              waiter_b
              (replicate k_b second ++ (first ∷ later_b))
              (λ mem. mem)
              (record { send_region = b; recv_region = a' })
            ≡ done (some (ok (send_b, recv_b, record { send_region = b'; recv_region = a'' }))))
        × (main symbols mbox_a waiter_a
              (replicate k_a second ++ (first ∷ later_a))
              (λ mem. record { send_region = a''; recv_region = b' })
              (record { send_region = a; recv_region = b })
            ≡ done (some (ok (send_a, recv_a, record { send_region = a3; recv_region = b'' }))))
        × (receive t calls recv_b a3
            ≡ done (record { log = msgs; returned = false; receiver = recv_b'; region = a4 }))
  unfolding main after_connect receive
  main_lem symbols mbox_a mbox_b waiter_a waiter_b k_a k_b later_a later_b a b calls linked room
        whole_a whole_b prompt =
      let (
        sa,
        sb,
        ra,
        rb,
        transport_a,
        a',
        a'',
        b',
        b'',
        announced,
        connects_b,
        connects_a,
        (forth, back),
      ) =
        cores_connect t symbols mbox_a mbox_b waiter_a waiter_b k_a k_b later_a later_b a b linked
          whole_a whole_b in
      let (sa', a3, sends, rep) =
        send_each_refines t msgs (AllFit-AllShort msgs msgs-AllFit) (omega (arith, room)) forth in
      let (rb', a4, logs, _) =
        receive_from_refines t msgs calls rb a3 (replicate 128 0) prompt msgs-AllFit rep in
      (
        sa',
        sb,
        ra,
        rb,
        rb',
        transport_a,
        a',
        a'',
        a3,
        a4,
        b',
        b'',
        announced,
        connects_b,
        rw (connects_a, sends),
        logs,
      )
