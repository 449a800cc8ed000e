-- ===== src/Example/EndToEnd.antt =====
-- The two cores of the example together: HCI packets from the host to the controller, and back.
use icmsg_rs.Prelude.{
  ℕ, ◌+◌, ◌≤◌, ◌<◌, ◌≡◌, refl, sym, false, Option, none, some, List, [], ◌∷◌, ◌++◌, arith, length,
  drop, map, append_assoc, append-nil, take-append,
}
use mathlib.Core.Path.{subst}
use icmsg_rs.Machine.{Exec, done, ◌>>=◌, Result, ok, Target}
use icmsg_rs.Transport.Region.{SharedMemoryRegion, Notifier}
use icmsg_rs.Transport.Queue.{Queue, footprint, footprint-append}
use icmsg_rs.Transport.Receiver as TransportHalf
use icmsg_rs.Transport.Sender.{Sender as TransportSender}
use icmsg_rs.Transport.Refine.{Represents, send-ok}
use icmsg_rs.IcMsg.Defs.{Sender, Receiver}
use icmsg_rs.IcMsg.Recv.{Round, recv-found}
use icmsg_rs.IcMsg.Methods.{send_half}
use icmsg_rs.Example.WriteBuf.{concat}
use icmsg_rs.Example.MyTransport.{
  TransportError, parsed, read_answer, read, write_result, write, write_lem,
}
use icmsg_rs.Example.Hci.{PacketKind, HeaderLengths, Controller, receive_task}
use icmsg_rs.Example.Hci.Forward.{Packet, answer, frame, AllWhole, send_loop, send_loop_refines}
use icmsg_rs.Example.Hci.Receive.{receive_loop, IsPrompt, AllFit, receive_loop_refines}

-- A packet of the host: its size without the indicator, and the pieces that it is written in.
pub record HostPacket : Type 0 where
  pub size : ℕ
  pub srcs : List (List ℕ)

pub record IsSmall (p : HostPacket) : Type 0 where
  pub small : p.size < 1024
  pub whole : length (concat p.srcs) ≡ p.size + 1

abbrev pub AllSmall : List HostPacket → Type 0
AllSmall [] = Unit
AllSmall (p ∷ ps) = IsSmall p × AllSmall ps

abbrev pub bytes_of : HostPacket → List ℕ
bytes_of p = concat p.srcs

module _ {ℓ} {M : Type ℓ} ⦃notifier : Notifier M⦄ (t : Target) where
  -- One `write` after the other, with what they answer.
  unfoldable pub write_all :
      List HostPacket
      → Sender M
      → SharedMemoryRegion
      → Exec (Sender M × SharedMemoryRegion × List (Result (Unit {0}) TransportError))
  unfolding write
  write_all [] s region = done (s, region, [])
  write_all (p ∷ ps) s region = do
    out ← write t p.size p.srcs s region
    rest ← write_all ps out.0 out.1
    done (rest.0, rest.1, out.2 ∷ rest.2)

  write_all_refines :
      {size : ℕ} {r : TransportHalf.Receiver} (ps : List HostPacket) {s : Sender M}
      {region : SharedMemoryRegion} {q : Queue}
      → AllSmall ps
      → footprint q + footprint (map bytes_of ps) < size
      → Represents t size s.transport region r q
      → (s' : Sender M) × (region' : SharedMemoryRegion) × (write_all ps s region
          ≡ done (s', region', map (λ p. ok tt) ps))
        × Represents t size s'.transport region' r (q ++ map bytes_of ps)
  unfolding write_all send_half write_result
  write_all_refines {size} {r} [] {s} {region} {q} small room rep =
      (s, region, refl, subst (Represents t size s.transport region r) (sym (append-nil q)) rep)
  write_all_refines {size} {r} (p ∷ ps) {s} {region} {q} (small, rest) room rep =
      let (s1, region1, sent, rep1) =
        send-ok t (bytes_of p) rep (omega (arith, small.small, small.whole)) (omega arith) in
      let (s', region', writes, rep') =
        write_all_refines ps {s = record { transport = s1 }} rest
          (omega (arith, footprint-append q (bytes_of p))) rep1 in
      (
        s',
        region',
        rw (write_lem t p.size p.srcs s region small.small small.whole, sent, writes) refl,
        subst (Represents t size s'.transport region' r)
            (append_assoc q (bytes_of p ∷ []) (map bytes_of ps)) rep',
      )

  -- What the host writes is what the controller executes: packets of fewer than 1024 bytes that the
  -- ring has room for go into an empty channel without an error, and `receive_task` at the other end,
  -- each of whose calls of `recv` looks after the writes, executes each of them once and in order, if
  -- its buffer is as long as each of them with its indicator. The channel is then empty again.
  pub host_to_controller {κ} :
      {C E : Type 0} {W : Type κ} (ctl : Controller C E) (c : C) {size : ℕ} (ps : List HostPacket)
      (calls : List (List Round)) (s : Sender M) (r : Receiver W) (region : SharedMemoryRegion)
      (buf : List ℕ)
      → AllSmall ps
      → footprint (map bytes_of ps) < size
      → AllFit (length buf) (map bytes_of ps)
      → IsPrompt (map bytes_of ps) calls
      → Represents t size s.transport region r.transport []
      → (s' : Sender M) × (r' : Receiver W) × (region' region'' : SharedMemoryRegion) × (write_all
            ps s region
          ≡ done (s', region', map (λ p. ok tt) ps))
        × (receive_loop ctl t calls r region' buf c
            ≡ done (record {
              controller = (receive_task ctl c (map ok (map bytes_of ps))).0;
              returned = false;
              receiver = r';
              region = region'';
            }))
        × Represents t size s'.transport region'' r'.transport []
  host_to_controller ctl c ps calls s r region buf small room fits prompt rep =
      let (s', region', writes, rep') = write_all_refines ps {s = s} small (omega arith) rep in
      let (r', region'', executes, rep'') =
        receive_loop_refines ctl t (map bytes_of ps) calls r region' buf c prompt fits rep' in
      (s', r', region', region'', writes, executes, rep'')

-- Each read finds its message in its first round, and its buffer is long enough.
abbrev pub IsReady : Queue → List (List Round × List ℕ) → Type 0
IsReady [] [] = Unit
IsReady (m ∷ q) ((round ∷ later, rx) ∷ calls) =
    ((region : SharedMemoryRegion) → round.peer region ≡ region)
    × (length m ≤ length rx)
    × IsReady q calls
IsReady _ _ = ⊥

module _ {ℓ κ} {P : Type ℓ} {W : Type κ} (parse : List ℕ → Option P) (t : Target) where
  unfoldable after_read :
      (Receiver W
        → SharedMemoryRegion
        → Exec (Receiver W × SharedMemoryRegion × List (Result P TransportError)))
      → Receiver W
      → SharedMemoryRegion
      → Option (Receiver W × SharedMemoryRegion × Result P TransportError)
      → Exec (Receiver W × SharedMemoryRegion × List (Result P TransportError))
  after_read again r region none = done (r, region, [])
  after_read again r region (some (r', region', res)) = do
    rest ← again r' region'
    done (rest.0, rest.1, res ∷ rest.2)

  -- One `read` after the other, each with its rounds and its buffer, up to the first that waits for ever.
  unfoldable pub read_all :
      List (List Round × List ℕ)
      → Receiver W
      → SharedMemoryRegion
      → Exec (Receiver W × SharedMemoryRegion × List (Result P TransportError))
  unfolding after_read
  read_all [] r region = done (r, region, [])
  read_all ((rounds, rx) ∷ calls) r region = do
    out ← read parse t r rounds region rx
    after_read (read_all calls) r region out

  module _ {μ} {M : Type μ} {size : ℕ} {s : TransportSender M} where
    pub read_all_refines :
        (q : Queue) (calls : List (List Round × List ℕ)) (r : Receiver W)
        (region : SharedMemoryRegion)
        → IsReady q calls
        → Represents t size s region r.transport q
        → (r' : Receiver W) × (region' : SharedMemoryRegion) × (read_all calls r region
            ≡ done (r', region', map (λ m. parsed (parse m)) q))
          × Represents t size s region' r'.transport []
    unfolding read_all read read_answer after_read
    read_all_refines [] [] r region ready rep = (r, region, refl, rep)
    read_all_refines [] (call ∷ calls) r region ready rep = absurd ready
    read_all_refines (m ∷ q) [] r region ready rep = absurd ready
    read_all_refines (m ∷ q) (([], rx) ∷ calls) r region ready rep = absurd ready
    read_all_refines (m ∷ q) ((round ∷ later, rx) ∷ calls) r region (still, fits, ready) rep =
        let now = subst (λ x. Represents t size s x r.transport (m ∷ q)) (sym (still region)) rep in
        let (half, region1, e, rep1) = recv-found t r round later rx now fits in
        let (r', region', es, rep') =
          read_all_refines q calls (record r { transport = half }) region1 ready rep1 in
        (r', region', rw (e, take-append m (drop (length m) rx), es), rep')

-- What the controller hands over is what the host parses: packets whose headers state their lengths,
-- whose frames are shorter than 2 ^ 16 bytes and that the ring has room for go into an empty channel
-- without a panic, and the host's reads, which look after that and have buffers that are long enough,
-- parse each of them, behind the byte of its kind, once and in order. The channel is then empty again.
controller_to_host {ℓ κ μ} :
    {M : Type ℓ} {P : Type κ} {W : Type μ} ⦃notifier : Notifier M⦄ (t : Target) (h : HeaderLengths)
    (kind_byte : PacketKind → ℕ) (E : Type 0) (parse : List ℕ → Option P) {size : ℕ}
    (ps : List Packet) (calls : List (List Round × List ℕ)) (s : Sender M) (r : Receiver W)
    (region : SharedMemoryRegion)
    → AllWhole h ps
    → footprint (map (frame kind_byte) ps) < size
    → IsReady (map (frame kind_byte) ps) calls
    → Represents t size s.transport region r.transport []
    → (s' : Sender M) × (r' : Receiver W) × (region' region'' : SharedMemoryRegion) × (send_loop t h
          kind_byte {E = E} s region
          (map answer ps)
        ≡ done (s', region'))
      × (read_all parse t calls r region'
          ≡ done (r', region'', map (λ m. parsed (parse m)) (map (frame kind_byte) ps)))
      × Represents t size s'.transport region'' r'.transport []
controller_to_host t h kind_byte E parse ps calls s r region whole room ready rep =
    let (s', region', sends, rep') =
      send_loop_refines t h kind_byte E ps {s = s} whole (omega arith) rep in
    let (r', region'', reads, rep'') =
      read_all_refines parse t (map (frame kind_byte) ps) calls r region' ready rep' in
    (s', r', region', region'', sends, reads, rep'')
