-- ===== src/Example/Hci/Forward.antt =====
-- The loop at the end of `main` in net-core/src/main.rs: the controller's packets are framed and sent.
use icmsg_rs.Prelude.{
  ℕ, suc, ◌+◌, ◌^◌, ◌≤◌, ◌<◌, ◌≡◌, refl, sym, Option, none, some, List, [], ◌∷◌, ◌++◌, arith, ltb,
  le→not-ltb, if◌then◌else◌, length, take, length-append, take-append, append_assoc, append-nil,
  map,
}
use mathlib.Core.Path.{subst}
use icmsg_rs.Machine.{Exec, done, panicked, ◌>>=◌, Result, ok, err, Target}
use icmsg_rs.Transport.Region.{SharedMemoryRegion, SendError, Notifier}
use icmsg_rs.Transport.Queue.{Queue, packet_size, footprint, footprint-append}
use icmsg_rs.Transport.Receiver as TransportHalf
use icmsg_rs.Transport.Refine.{Represents, send-ok, send-full}
use icmsg_rs.IcMsg.Defs.{Sender}
use icmsg_rs.IcMsg.Methods.{send_half}
use icmsg_rs.Example.Hci.{PacketKind, HeaderLengths, packet_len}

-- `send(..).unwrap()`
unwrap_sent {ℓ} :
    {M : Type ℓ}
    → Sender M × SharedMemoryRegion × Result (Unit {0}) SendError
    → Exec (Sender M × SharedMemoryRegion)
unwrap_sent (s, region, ok _) = done (s, region)
unwrap_sent (s, region, err e) = panicked

-- A packet that the controller hands over, and what the buffer holds behind it.
pub record Packet : Type 0 where
  pub kind : PacketKind
  pub body : List ℕ
  pub spare : List ℕ

abbrev pub answer : {E : Type 0} → Packet → Result (PacketKind × List ℕ) E
answer p = ok (p.kind, p.body ++ p.spare)

-- How it goes over the channel.
abbrev pub frame : (PacketKind → ℕ) → Packet → List ℕ
frame kind_byte p = kind_byte p.kind ∷ p.body

-- The header states the packet's length, and the frame is short enough for a message.
pub record IsWhole (h : HeaderLengths) (p : Packet) : Type 0 where
  pub stated : packet_len h p.kind (p.body ++ p.spare) ≡ some (length p.body)
  pub short : length p.body + 1 < 2 ^ 16

abbrev pub AllWhole : HeaderLengths → List Packet → Type 0
AllWhole h [] = Unit
AllWhole h (p ∷ ps) = IsWhole h p × AllWhole h ps

module _ {ℓ} {M : Type ℓ} ⦃notifier : Notifier M⦄ (t : Target) (h : HeaderLengths)
    (kind_byte : PacketKind → ℕ) where
  -- A turn behind `packet_len`; `bytes` are those of the buffer behind its first, `kind_byte` is `as u8`.
  unfoldable send_used :
      Sender M
      → SharedMemoryRegion
      → PacketKind
      → List ℕ
      → Option ℕ
      → Exec (Sender M × SharedMemoryRegion)
  unfolding unwrap_sent send_half
  send_used s region kind bytes none = panicked
  send_used s region kind bytes (some used) =
      if ltb (suc (length bytes)) (suc used) then panicked else (do
        out ← send_half t s region (take (suc used) (kind_byte kind ∷ bytes))
        unwrap_sent out)

  -- The loop, on what `hci_get` answers in each turn and leaves in the buffer; it waits for ever behind
  -- the last answer.
  unfoldable pub send_loop :
      {E : Type 0}
      → Sender M
      → SharedMemoryRegion
      → List (Result (PacketKind × List ℕ) E)
      → Exec (Sender M × SharedMemoryRegion)
  unfolding send_used packet_len
  send_loop s region [] = done (s, region)
  send_loop s region (err e ∷ answers) = panicked
  send_loop s region (ok (kind, bytes) ∷ answers) = do
    out ← send_used s region kind bytes (packet_len h kind bytes)
    send_loop out.0 out.1 answers

  send_used-frame :
      (p : Packet) (s : Sender M) (region : SharedMemoryRegion)
      → send_used s region p.kind (p.body ++ p.spare) (some (length p.body))
        ≡ (do out ← send_half t s region (frame kind_byte p); unwrap_sent out)
  unfolding send_used
  send_used-frame p s region = rw (
    le→not-ltb (suc (length (p.body ++ p.spare))) (suc (length p.body))
        (omega (arith, length-append p.body p.spare)),
    take-append p.body p.spare,
  )

  module _ (E : Type 0) {size : ℕ} {r : TransportHalf.Receiver} where
    -- The controller's packets go over the channel in order, each whole behind the byte of its kind, if
    -- the ring has room for all of them: no turn panics, and the channel then represents the queue with
    -- the frames at its end.
    pub send_loop_refines :
        (ps : List Packet) {s : Sender M} {region : SharedMemoryRegion} {q : Queue}
        → AllWhole h ps
        → footprint q + footprint (map (frame kind_byte) ps) < size
        → Represents t size s.transport region r q
        → (s' : Sender M) × (region' : SharedMemoryRegion) × (send_loop {E = E} s region
              (map answer ps)
            ≡ done (s', region'))
          × Represents t size s'.transport region' r (q ++ map (frame kind_byte) ps)
    unfolding send_loop send_half unwrap_sent
    send_loop_refines [] {s} {region} {q} whole room rep =
        (s, region, refl, subst (Represents t size s.transport region r) (sym (append-nil q)) rep)
    send_loop_refines (p ∷ ps) {s} {region} {q} (whole, rest) room rep =
        let (s1, region1, sent, rep1) =
          send-ok t (frame kind_byte p) rep (omega (arith, whole.short)) (omega arith) in
        let (s', region', sends, rep') =
          send_loop_refines ps {s = record { transport = s1 }} rest
            (omega (arith, footprint-append q (frame kind_byte p))) rep1 in
        (
          s',
          region',
          rw (whole.stated, send_used-frame p s region, sent) sends,
          subst (Represents t size s'.transport region' r)
              (append_assoc q (frame kind_byte p ∷ []) (map (frame kind_byte) ps)) rep',
        )

    -- A frame that the ring has no room for makes the loop panic.
    pub send_loop_full :
        (p : Packet) (answers : List (Result (PacketKind × List ℕ) E)) {s : Sender M}
        {region : SharedMemoryRegion} {q : Queue}
        → IsWhole h p
        → size ≤ footprint q + packet_size (length p.body + 1)
        → Represents t size s.transport region r q
        → send_loop s region (answer p ∷ answers) ≡ panicked
    unfolding send_loop send_half unwrap_sent
    send_loop_full p answers {s} {region} whole full rep = rw (
      whole.stated,
      send_used-frame p s region,
      send-full t (frame kind_byte p) rep (omega arith),
    )
