-- ===== src/Example/RoundTrip.antt =====
-- Commands of the host and the answers that it hears: `MyTransport` of the application core at one end, `main`
-- of the network core with its `receive_task` at the other, and a region of memory for each direction.
use icmsg_rs.Prelude.{ℕ, ◌-◌, ◌<◌, ◌≡◌, ◌∙◌, ap, false, Option, List, [], arith, length, map}
use icmsg_rs.Machine.{ok, done, Target}
use icmsg_rs.Transport.Region.{SharedMemoryRegion, Notifier}
use icmsg_rs.Transport.Queue.{footprint}
use icmsg_rs.Transport.Refine.{Represents}
use icmsg_rs.IcMsg.Defs.{Sender, Receiver, Either}
use icmsg_rs.IcMsg.Recv.{Round}
use icmsg_rs.Example.MyTransport.{parsed}
use icmsg_rs.Example.Hci.Receive.{receive_loop, IsPrompt, AllFit}
use icmsg_rs.Example.Hci.Replies.{DataPath, net_controller}
use icmsg_rs.Example.Hci.Task.{all_executed, replies, AllShort, receive_task-replies}
use icmsg_rs.Example.Dispatch.{CommandSet}
use icmsg_rs.Example.EndToEnd.{
  HostPacket, bytes_of, AllSmall, write_all, host_to_controller, IsReady, read_all,
  read_all_refines,
}
use icmsg_rs.Example.Config.{LinkerSymbols, IsLinked}
use icmsg_rs.Example.Start.{Connects, cores_connect_then}

-- What the two cores take from other crates.
module _ {C E P : Type 0} (set : CommandSet C E) (path : DataPath C E)
    (parse : List ℕ → Option P) where
  -- What the packets, the buffers and the rounds of a run have to be like, for rings of these sizes.
  pub record Run (size back : ℕ) (ctrl : C) (ps : List HostPacket) (buf : List ℕ)
      (calls : List (List Round)) (reads : List (List Round × List ℕ)) : Type 0 where
    pub small : AllSmall ps
    pub room : footprint (map bytes_of ps) < size
    pub fits : AllFit (length buf) (map bytes_of ps)
    pub prompt : IsPrompt (map bytes_of ps) calls
    pub short : AllShort set path ctrl (map bytes_of ps)
    pub back_room : footprint (replies set path ctrl (map bytes_of ps)) < back
    pub ready : IsReady (replies set path ctrl (map bytes_of ps)) reads

  module _ {M N V W : Type 0} ⦃host_notifier : Notifier M⦄ ⦃net_notifier : Notifier N⦄
      (t : Target) where
    -- What becomes of a run from two channels.
    abbrev pub Served :
        ℕ
        → ℕ
        → C
        → List HostPacket
        → List ℕ
        → List (List Round)
        → List (List Round × List ℕ)
        → Sender M
        → Receiver W
        → SharedMemoryRegion
        → Sender N
        → Receiver V
        → SharedMemoryRegion
        → Type 0
    Served size back ctrl ps buf calls reads host_send net_recv forth net_send host_recv home =
        (host_send' : Sender M) × (net_recv' : Receiver W) × (net_send' : Sender N)
        × (host_recv' : Receiver V) × (forth' forth'' home' home'' : SharedMemoryRegion)
        × (write_all t ps host_send forth ≡ done (host_send', forth', map (λ p. ok tt) ps))
        × (receive_loop (net_controller t set path) t calls net_recv forth' buf
              (ctrl, done (net_send, home))
            ≡ done (record {
              controller = (all_executed set path ctrl (map bytes_of ps), done (net_send', home'));
              returned = false;
              receiver = net_recv';
              region = forth'';
            }))
        × (read_all parse t reads host_recv home'
            ≡ done (
              host_recv',
              home'',
              map (λ m. parsed (parse m)) (replies set path ctrl (map bytes_of ps)),
            ))
        × Represents t size host_send'.transport forth'' net_recv'.transport []
        × Represents t back net_send'.transport home'' host_recv'.transport []

    -- Between two empty channels, whatever bytes the host writes: its writes succeed, `receive_task` of the
    -- network core executes each packet once and in order, and the host's reads give the answers that the
    -- packets call for, each once and in order, and no other; both channels are then empty again. The host's
    -- packets have fewer than 1024 bytes, their pieces are their bytes and their indicators, and they fit into
    -- their ring and into the task's buffer; the answers are shorter than 2 ^ 16 bytes and fit into the ring on
    -- the way back and into the host's buffers; and each call looks after the writes.
    pub replies_reach_host :
        {size back : ℕ} {ctrl : C} {ps : List HostPacket} {buf : List ℕ} {calls : List (List Round)}
        {reads : List (List Round × List ℕ)} (host_send : Sender M) (net_recv : Receiver W)
        (forth : SharedMemoryRegion) (net_send : Sender N) (host_recv : Receiver V)
        (home : SharedMemoryRegion)
        → Run size back ctrl ps buf calls reads
        → Represents t size host_send.transport forth net_recv.transport []
        → Represents t back net_send.transport home host_recv.transport []
        → Served size back ctrl ps buf calls reads host_send net_recv forth net_send host_recv home
    replies_reach_host {ctrl} {ps} {buf} {calls} {reads} host_send net_recv forth net_send host_recv
          home run to_net to_host =
        let (host_send', net_recv', forth', forth'', writes, executes, to_net') =
          host_to_controller t (net_controller t set path) (ctrl, done (net_send, home)) ps calls
            host_send net_recv forth buf run.small run.room run.fits run.prompt to_net in
        let (net_send', home', answers, to_host') =
          receive_task-replies t set path (map bytes_of ps) ctrl {s = net_send} run.short
            (omega (arith, run.back_room)) to_host in
        let (host_recv', home'', hears, to_host'') =
          read_all_refines parse t (replies set path ctrl (map bytes_of ps)) reads host_recv home'
            run.ready to_host' in
        (
          host_send',
          net_recv',
          net_send',
          host_recv',
          forth',
          forth'',
          home',
          home'',
          writes,
          executes
              ∙ ap
                  (λ out. done (record {
                    controller = out.0;
                    returned = false;
                    receiver = net_recv';
                    region = forth'';
                  }))
                  answers,
          hears,
          to_net',
          to_host'',
        )

  module _ {M W : Type 0} ⦃notifier : Notifier M⦄ (t : Target) where
    -- From power-up on: two cores with the same regions, of whole words with room for the header and 24
    -- bytes, connect, core a announcing itself first, and the host on core a is then served by the network
    -- core b: the network core executes each of its packets once and in order, and the host reads the answers
    -- that they call for, each once and in order, and no other.
    connect-Served :
        (sym : LinkerSymbols) (mbox_a mbox_b : M) (waiter_a waiter_b : W) (k_a k_b : ℕ)
        (later_a later_b : List Either) (a b : SharedMemoryRegion) {ctrl : C} {ps : List HostPacket}
        {buf : List ℕ} {calls : List (List Round)} {reads : List (List Round × List ℕ)}
        → IsLinked sym
        → length a.bytes ≡ sym.tx_end - sym.tx_start - 8
        → length b.bytes ≡ sym.rx_end - sym.rx_start - 8
        → Run
            (sym.tx_end - sym.tx_start - 8)
            (sym.rx_end - sym.rx_start - 8)
            ctrl
            ps
            buf
            calls
            reads
        → Connects t sym mbox_a mbox_b waiter_a waiter_b k_a k_b later_a later_b a b (
            Served t
              (sym.tx_end - sym.tx_start - 8)
              (sym.rx_end - sym.rx_start - 8)
              ctrl
              ps
              buf
              calls
              reads)
    connect-Served sym mbox_a mbox_b waiter_a waiter_b k_a k_b later_a later_b a b linked whole_a
          whole_b run =
        cores_connect_then t sym mbox_a mbox_b waiter_a waiter_b k_a k_b later_a later_b a b _
          linked whole_a whole_b
          (λ send_a recv_b forth send_b recv_a home to_net to_host.
            replies_reach_host t send_a recv_b forth send_b recv_a home run to_net to_host)
