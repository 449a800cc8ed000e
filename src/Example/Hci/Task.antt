-- ===== src/Example/Hci/Task.antt =====
-- `receive_task` of net-core/src/main.rs on a sequence of packets: the replies that the channel to the host
-- then holds.
use icmsg_rs.Prelude.{
  ℕ, ◌+◌, ◌<◌, ◌≡◌, ◌∙◌, refl, sym, ap, false, Option, none, some, List, [], ◌∷◌, ◌++◌, arith,
  lt→ltb, length, map, append-nil, append_assoc,
}
use mathlib.Core.Path.{subst}
use icmsg_rs.Machine.{done, ok, Target}
use icmsg_rs.Transport.Region.{SharedMemoryRegion, Notifier}
use icmsg_rs.Transport.Queue
use icmsg_rs.Transport.Queue.{Queue, packet_size, footprint}
use icmsg_rs.Transport.Receiver as TransportHalf
use icmsg_rs.Transport.Refine.{Represents}
use icmsg_rs.IcMsg.Defs.{Sender}
use icmsg_rs.Example.Hci.{receive_task}
use icmsg_rs.Example.Hci.Replies.{DataPath, packet_reply, packet_executed, net_controller}
use icmsg_rs.Example.Hci.Answers.{IsShortReply, queue_after, exec_h4_to_sdc_refines}
use icmsg_rs.Example.Dispatch.{CommandSet}

abbrev pub listed : Option (List ℕ) → Queue
listed none = []
listed (some buf) = buf ∷ []

footprint-++ : (q q' : Queue) → footprint (q ++ q') ≡ footprint q + footprint q'
footprint-++ [] q' = omega arith
footprint-++ (m ∷ q) q' = omega (arith, footprint-++ q q')

-- A reply that there is room for is queued.
pub queue_after-room :
    (size : ℕ) (q : Queue) (reply : Option (List ℕ))
    → footprint q + footprint (listed reply) < size
    → queue_after size q reply ≡ q ++ listed reply
unfolding Queue.send
queue_after-room size q none room = sym (append-nil q)
queue_after-room size q (some buf) room =
    rw (Queue.send, queue_after, lt→ltb (footprint q + packet_size (length buf)) size (omega arith))

module _ {C E : Type 0} (set : CommandSet C E) (path : DataPath C E) where
  -- What the controller has executed, and what the host hears, behind a sequence of packets.
  unfoldable pub all_executed : C → List (List ℕ) → C
  all_executed ctrl [] = ctrl
  all_executed ctrl (pkt ∷ pkts) = all_executed (packet_executed set path ctrl pkt) pkts

  unfoldable pub replies : C → List (List ℕ) → Queue
  unfolding packet_reply packet_executed
  replies ctrl [] = []
  replies ctrl (pkt ∷ pkts) =
      listed (packet_reply set path ctrl pkt) ++ replies (packet_executed set path ctrl pkt) pkts

  -- Each reply is short enough for its length field.
  abbrev pub AllShort : C → List (List ℕ) → Type 0
  AllShort ctrl [] = Unit
  AllShort ctrl (pkt ∷ pkts) =
      IsShortReply (packet_reply set path ctrl pkt)
      × AllShort (packet_executed set path ctrl pkt) pkts

module _ {M C E : Type 0} ⦃notifier : Notifier M⦄ (t : Target) (set : CommandSet C E)
    (path : DataPath C E) where
  -- Over a channel that represents a queue, `receive_task` hands a sequence of packets of any bytes to the
  -- controller, each once and in order, and queues their replies in that order, if each of them is shorter
  -- than 2 ^ 16 bytes and the ring has room for all of them. It goes on behind them.
  pub receive_task-replies :
      {size : ℕ} {r : TransportHalf.Receiver} (pkts : List (List ℕ)) (ctrl : C) {s : Sender M}
      {region : SharedMemoryRegion} {q : Queue}
      → AllShort set path ctrl pkts
      → footprint q + footprint (replies set path ctrl pkts) < size
      → Represents t size s.transport region r q
      → (s' : Sender M) × (region' : SharedMemoryRegion) × (receive_task
            (net_controller t set path)
            (ctrl, done (s, region))
            (map ok pkts)
          ≡ ((all_executed set path ctrl pkts, done (s', region')), false))
        × Represents t size s'.transport region' r (q ++ replies set path ctrl pkts)
  unfolding receive_task all_executed replies
  receive_task-replies {size} {r} [] ctrl {s} {region} {q} short room rep =
      (s, region, refl, subst (Represents t size s.transport region r) (sym (append-nil q)) rep)
  receive_task-replies {size} {r} (pkt ∷ pkts) ctrl {s} {region} {q} (short, later) room rep =
      let reply = packet_reply set path ctrl pkt in
      let ctrl' = packet_executed set path ctrl pkt in
      let (s1, region1, e, rep1, returned) = exec_h4_to_sdc_refines t set path ctrl pkt short rep in
      let now =
        subst (Represents t size s1.transport region1 r)
          (queue_after-room size q reply
            (omega (arith, footprint-++ (listed reply) (replies set path ctrl' pkts))))
          rep1 in
      let (s', region', es, rep') =
        receive_task-replies pkts ctrl' {q = q ++ listed reply} later
          (omega (
            arith,
            footprint-++ (listed reply) (replies set path ctrl' pkts),
            footprint-++ q (listed reply),
          ))
          now in
      (
        s',
        region',
        ap (λ c. receive_task (net_controller t set path) c (map ok pkts)) e ∙ es,
        subst (Represents t size s'.transport region' r)
            (append_assoc q (listed reply) (replies set path ctrl' pkts)) rep',
      )
