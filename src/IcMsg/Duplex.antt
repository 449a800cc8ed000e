-- ===== src/IcMsg/Duplex.antt =====
-- Two bonded channels of src/lib.rs at the two ends of the same regions: any sequence of calls on either
-- core.
use icmsg_rs.Prelude.{ℕ, ◌^◌, ◌<◌, ◌≡◌, refl, some, List, [], ◌∷◌, ◌++◌, length, replicate}
use icmsg_rs.Machine.{Exec, done, ◌>>=◌, Target, ok}
use icmsg_rs.Transport.Region.{SharedMemoryRegion, Notifier}
use icmsg_rs.Transport.Queue
use icmsg_rs.Transport.Queue.{Queue}
use icmsg_rs.Transport.Calls.{Call, Reply, sent, received, AllShort}
use icmsg_rs.Transport.Calls
use icmsg_rs.Transport.IcMsgTransport.{IcMsgTransport}
use icmsg_rs.Transport.Refine.{Represents, send_refines, try_recv_refines}
use icmsg_rs.IcMsg.Defs.{MemoryConfig, IcMsg, Either, first, second, announce, init}
use icmsg_rs.IcMsg.Bonding.Both.{IsGood, mirrored, cores_bond}
use icmsg_rs.IcMsg.Methods.{send, try_recv}

pub data Core : Type 0 where
  core_a core_b : Core

-- Both channels, the region that core a sends on and the one that core b sends on.
pub record Link {ℓ κ} (M : Type ℓ) (W : Type κ) : Type (ℓ ⊔ κ) where
  pub chan_a : IcMsg M W
  pub chan_b : IcMsg M W
  pub a : SharedMemoryRegion
  pub b : SharedMemoryRegion

-- The messages on the way to core b, and to core a.
pub record Queues : Type 0 where
  pub to_b : Queue
  pub to_a : Queue

-- A call on the two queues.
unfoldable call_queues : ℕ → ℕ → Queues → Core → Call → Queues × Reply
unfolding Queue.send Queue.try_recv
call_queues size_a size_b q core_a (Calls.send msg) =
    let (q', res) = Queue.send size_a q.to_b msg in (record q { to_b = q' }, sent res)
call_queues size_a size_b q core_b (Calls.send msg) =
    let (q', res) = Queue.send size_b q.to_a msg in (record q { to_a = q' }, sent res)
call_queues size_a size_b q core_a (Calls.try_recv buf) =
    let (q', buf', res) = Queue.try_recv q.to_a buf in (record q { to_a = q' }, received buf' res)
call_queues size_a size_b q core_b (Calls.try_recv buf) =
    let (q', buf', res) = Queue.try_recv q.to_b buf in (record q { to_b = q' }, received buf' res)

unfoldable pub run_queues : ℕ → ℕ → Queues → List (Core × Call) → List Reply
unfolding call_queues
run_queues size_a size_b q [] = []
run_queues size_a size_b q ((core, call) ∷ calls) =
    let (q', reply) = call_queues size_a size_b q core call in
    reply ∷ run_queues size_a size_b q' calls

abbrev pub AllShortCalls : List (Core × Call) → Type 0
AllShortCalls [] = Unit
AllShortCalls ((core, Calls.send msg) ∷ calls) = (length msg < 2 ^ 16) × AllShortCalls calls
AllShortCalls ((core, Calls.try_recv buf) ∷ calls) = AllShortCalls calls

short_head :
    (core : Core) (c : Call) (calls : List (Core × Call))
    → AllShortCalls ((core, c) ∷ calls)
    → AllShort (c ∷ []) × AllShortCalls calls
short_head core (Calls.send msg) calls h = ((h.0, tt), h.1)
short_head core (Calls.try_recv buf) calls h = (tt, h)

module _ {ℓ κ} {M : Type ℓ} {W : Type κ} (t : Target) where
  -- Both directions represent their queues.
  pub record RepresentsLink (size_a size_b : ℕ) (link : Link M W) (q : Queues) : Type (ℓ ⊔ κ) where
    pub forth :
        Represents t size_a link.chan_a.sender.transport link.a link.chan_b.receiver.transport
          q.to_b
    pub back :
        Represents t size_b link.chan_b.sender.transport link.b link.chan_a.receiver.transport
          q.to_a

module _ {ℓ κ} {M : Type ℓ} {W : Type κ} ⦃notifier : Notifier M⦄ (t : Target) where
  -- A call of `IcMsg::send` or `IcMsg::try_recv` on either core.
  unfoldable call : Link M W → Core → Call → Exec (Link M W × Reply)
  unfolding send try_recv
  call link core_a (Calls.send msg) = do
    out ← send t link.chan_a (record { send_region = link.a; recv_region = link.b }) msg
    done (record link { chan_a = out.0; a = out.1.send_region; b = out.1.recv_region }, sent out.2)
  call link core_b (Calls.send msg) = do
    out ← send t link.chan_b (record { send_region = link.b; recv_region = link.a }) msg
    done (record link { chan_b = out.0; b = out.1.send_region; a = out.1.recv_region }, sent out.2)
  call link core_a (Calls.try_recv buf) = do
    out ← try_recv t link.chan_a (record { send_region = link.a; recv_region = link.b }) buf
    done (
      record link { chan_a = out.0; a = out.1.send_region; b = out.1.recv_region },
      received out.2 out.3,
    )
  call link core_b (Calls.try_recv buf) = do
    out ← try_recv t link.chan_b (record { send_region = link.b; recv_region = link.a }) buf
    done (
      record link { chan_b = out.0; b = out.1.send_region; a = out.1.recv_region },
      received out.2 out.3,
    )

  unfoldable pub run : Link M W → List (Core × Call) → Exec (List Reply)
  unfolding call
  run link [] = done []
  run link ((core, c) ∷ calls) = do
    out ← call link core c
    rest ← run out.0 calls
    done (out.1 ∷ rest)

  call_refines :
      {size_a size_b : ℕ} {link : Link M W} {q : Queues} (core : Core) (c : Call)
      → AllShort (c ∷ [])
      → RepresentsLink t size_a size_b link q
      → (link' : Link M W) × (call link core c
          ≡ done (link', (call_queues size_a size_b q core c).1))
        × RepresentsLink t size_a size_b link' (call_queues size_a size_b q core c).0
  unfolding call call_queues
  call_refines {link} core_a (Calls.send msg) short rep =
      let (s', region', e, rep') = send_refines t msg short.0 rep.forth in
      let chan = record link.chan_a { sender = record { transport = s' } } in
      (record link { chan_a = chan; a = region' }, rw e, record { forth = rep'; back = rep.back })
  call_refines {link} core_b (Calls.send msg) short rep =
      let (s', region', e, rep') = send_refines t msg short.0 rep.back in
      let chan = record link.chan_b { sender = record { transport = s' } } in
      (record link { chan_b = chan; b = region' }, rw e, record { forth = rep.forth; back = rep' })
  call_refines {link} {q} core_a (Calls.try_recv buf) short rep =
      let (r', region', e, rep') = try_recv_refines t q.to_a buf rep.back in
      let chan = record link.chan_a { receiver = record link.chan_a.receiver { transport = r' } } in
      (record link { chan_a = chan; b = region' }, rw e, record { forth = rep.forth; back = rep' })
  call_refines {link} {q} core_b (Calls.try_recv buf) short rep =
      let (r', region', e, rep') = try_recv_refines t q.to_b buf rep.forth in
      let chan = record link.chan_b { receiver = record link.chan_b.receiver { transport = r' } } in
      (record link { chan_b = chan; a = region' }, rw e, record { forth = rep'; back = rep.back })

  -- No sequence of calls of `send` and `try_recv` on the two cores tells the channels from two queues that
  -- know nothing of each other, and none panics, overflows or leaves a data buffer. The messages are
  -- shorter than 2 ^ 16 bytes.
  pub run_refines :
      {size_a size_b : ℕ} (calls : List (Core × Call)) {link : Link M W} {q : Queues}
      → AllShortCalls calls
      → RepresentsLink t size_a size_b link q
      → run link calls ≡ done (run_queues size_a size_b q calls)
  unfolding run run_queues
  run_refines [] short rep = refl
  run_refines ((core, c) ∷ calls) short rep =
      let (short_c, short_rest) = short_head core c calls short in
      let (link', e, rep') = call_refines core c short_c rep in
      rw (e, run_refines calls short_rest rep')

-- From `init` on: with mirrored good configurations core a announces itself and leaves `a'`, core b
-- runs `init` to its end, core a ends its own, both succeed, and whatever `send` and `try_recv` calls
-- follow on the two cores, the replies are those of two empty queues. The messages are shorter than 2
-- ^ 16 bytes.
pub bonded_run {ℓ κ} :
    {M : Type ℓ} {W : Type κ} ⦃notifier : Notifier M⦄ (t : Target) (align : ℕ)
    (config : MemoryConfig) (mbox_a mbox_b : M) (waiter_a waiter_b : W) (k_a k_b : ℕ)
    (later_a later_b : List Either) (a b : SharedMemoryRegion) (calls : List (Core × Call))
    → IsGood align config (record { send_region = a; recv_region = b })
    → AllShortCalls calls
    → (link : Link M W) × (transport_a : IcMsgTransport M) × (a' b' : SharedMemoryRegion)
      × (announce t align config mbox_a (record { send_region = a; recv_region = b })
          ≡ done (ok (transport_a, record { send_region = a'; recv_region = b })))
      × (init t align
            (mirrored config)
            mbox_b
            waiter_b
            (replicate k_b second ++ (first ∷ later_b))
            (λ mem. mem)
            (record { send_region = b; recv_region = a' })
          ≡ done (some (ok (link.chan_b, record { send_region = b'; recv_region = link.a }))))
      × (init t align config mbox_a waiter_a
            (replicate k_a second ++ (first ∷ later_a))
            (λ mem. record { send_region = link.a; recv_region = b' })
            (record { send_region = a; recv_region = b })
          ≡ done (some (ok (link.chan_a, record { send_region = link.a; recv_region = link.b }))))
      × (run t link calls
          ≡ done (
              run_queues config.send_buffer_len config.recv_buffer_len
                (record { to_b = []; to_a = [] })
                calls))
bonded_run t align config mbox_a mbox_b waiter_a waiter_b k_a k_b later_a later_b a b calls good
      short =
    let (chan_a, chan_b, transport_a, a', a'', b', b'', announced, init_b, init_a, forth, back) =
      cores_bond t align config mbox_a mbox_b waiter_a waiter_b k_a k_b later_a later_b a b good in
    (
      record { chan_a = chan_a; chan_b = chan_b; a = a''; b = b'' },
      transport_a,
      a',
      b',
      announced,
      init_b,
      init_a,
      run_refines t calls short (record { forth = forth; back = back }),
    )
