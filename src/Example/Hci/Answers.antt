-- ===== src/Example/Hci/Answers.antt =====
-- `exec_h4_to_sdc` of net-core/src/main.rs over a channel that represents a queue: the reply of a packet, and
-- nothing else, is what the queue has more.
use icmsg_rs.Prelude.{ℕ, ◌^◌, ◌<◌, ◌≡◌, ◌∙◌, ap, ap₂, Option, none, some, List, length}
use icmsg_rs.Machine.{done, Result, map_err, Target}
use icmsg_rs.Transport.Region.{SharedMemoryRegion, Notifier}
use icmsg_rs.Transport.Queue
use icmsg_rs.Transport.Queue.{Queue}
use icmsg_rs.Transport.Receiver as TransportHalf
use icmsg_rs.Transport.Refine.{Represents, send_refines}
use icmsg_rs.IcMsg.Defs.{Sender}
use icmsg_rs.IcMsg.Methods.{send_half}
use icmsg_rs.Example.Hci.{CmdErr, io, exec_h4_to_sdc}
use icmsg_rs.Example.Hci.Replies.{
  Channel, DataPath, sent_over, send_over, packet_reply, packet_executed, net_controller, Leaves,
  exec_h4_to_sdc-Leaves,
}
use icmsg_rs.Example.Dispatch.{CommandSet}

-- A channel that holds `q` behind a reply.
abbrev pub queue_after : ℕ → Queue → Option (List ℕ) → Queue
queue_after size q none = q
queue_after size q (some buf) = (Queue.send size q buf).0

abbrev pub IsShortReply : Option (List ℕ) → Type 0
IsShortReply none = Unit
IsShortReply (some buf) = length buf < 2 ^ 16

-- What `exec_h4_to_sdc` returns if there is a reply: an error only if the ring has no room for it.
abbrev pub IsReturned :
    {E : Type 0} → E → ℕ → Queue → Option (List ℕ) → Result (Unit {0}) (CmdErr E) → Type 0
IsReturned eio size q none res = Unit
IsReturned eio size q (some buf) res = res ≡ map_err (λ e. io eio) (Queue.send size q buf).1

module _ {M C E : Type 0} (t : Target) (set : CommandSet C E) where
  -- A run over a channel that holds `q`, with this reply.
  abbrev pub Answers :
      ℕ
      → Queue
      → TransportHalf.Receiver
      → Option (List ℕ)
      → C
      → (C × Channel M) × Result (Unit {0}) (CmdErr E)
      → Type 0
  Answers size q r reply ctrl out =
      (s' : Sender M) × (region' : SharedMemoryRegion) × (out.0 ≡ (ctrl, done (s', region')))
      × Represents t size s'.transport region' r (queue_after size q reply)
      × IsReturned set.eio size q reply out.1

module _ {M C E : Type 0} ⦃notifier : Notifier M⦄ (t : Target) (set : CommandSet C E)
    (path : DataPath C E) where
  send_over_refines :
      {size : ℕ} {s : Sender M} {region : SharedMemoryRegion} {r : TransportHalf.Receiver}
      {q : Queue} (msg : List ℕ)
      → length msg < 2 ^ 16
      → Represents t size s.transport region r q
      → (s' : Sender M) × (region' : SharedMemoryRegion) × (send_over t (done (s, region)) msg
          ≡ (done (s', region'), (Queue.send size q msg).1))
        × Represents t size s'.transport region' r (Queue.send size q msg).0
  unfolding send_over sent_over send_half
  send_over_refines msg short rep =
      let (s', region', e, rep') = send_refines t msg short rep in
      (record { transport = s' }, region', rw e, rep')

  Leaves-Answers :
      {size : ℕ} {s : Sender M} {region : SharedMemoryRegion} {r : TransportHalf.Receiver}
      {q : Queue} (reply : Option (List ℕ)) (ctrl : C)
      (out : (C × Channel M) × Result (Unit {0}) (CmdErr E))
      → IsShortReply reply
      → Represents t size s.transport region r q
      → Leaves t set path (done (s, region)) reply ctrl out
      → Answers t set size q r reply ctrl out
  Leaves-Answers {s} {region} none ctrl out short rep leaves =
      (s, region, ap₂ (λ c ch. (c, ch)) leaves.controller leaves.channel, rep, tt)
  Leaves-Answers (some buf) ctrl out short rep leaves =
      let (s', region', e, rep') = send_over_refines buf short rep in
      (
        s',
        region',
        ap₂ (λ c ch. (c, ch)) leaves.controller (leaves.channel ∙ ap (λ p. p.0) e),
        rep',
        leaves.answered ∙ ap (λ p. map_err (λ x. io set.eio) p.1) e,
      )

  -- Whatever bytes come from the host, `exec_h4_to_sdc` over a channel that represents a queue hands to the
  -- controller what the packet asks for, once, and sends the reply that it calls for and nothing else: the
  -- event of a synchronous command that is listed, whole and has good parameters, unless the controller
  -- fails it with an error of its own. It neither panics nor leaves the region, and when the ring has no
  -- room for the reply it returns EIO. The reply is shorter than 2 ^ 16 bytes.
  pub exec_h4_to_sdc_refines :
      {size : ℕ} {s : Sender M} {region : SharedMemoryRegion} {r : TransportHalf.Receiver}
      {q : Queue} (ctrl : C) (pkt : List ℕ)
      → IsShortReply (packet_reply set path ctrl pkt)
      → Represents t size s.transport region r q
      → Answers t set size q r
          (packet_reply set path ctrl pkt)
          (packet_executed set path ctrl pkt)
          (exec_h4_to_sdc (net_controller t set path) (ctrl, done (s, region)) pkt)
  exec_h4_to_sdc_refines {s} {region} ctrl pkt short rep =
      Leaves-Answers (packet_reply set path ctrl pkt) (packet_executed set path ctrl pkt)
        (exec_h4_to_sdc (net_controller t set path) (ctrl, done (s, region)) pkt) short rep
        (exec_h4_to_sdc-Leaves t set path ctrl (done (s, region)) pkt)
