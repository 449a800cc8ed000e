-- ===== src/Example/Cores/Start.antt =====
-- The two cores from power-up on: they connect, and then take turns.
use icmsg_rs.Prelude.{ℕ, ◌-◌, ◌≡◌, refl, false, List, [], length}
use icmsg_rs.Machine.{Target}
use icmsg_rs.Transport.Region.{SharedMemoryRegion, Notifier}
use icmsg_rs.IcMsg.Defs.{Sender, Receiver, Either}
use icmsg_rs.Example.Config.{LinkerSymbols, IsLinked}
use icmsg_rs.Example.Start.{Connects, cores_connect_then}
use icmsg_rs.Example.Hci.Short.{IsSized}
use icmsg_rs.Example.Cores.{Parts, Turn, Cores, take_turns, Queues, run_queues}
use icmsg_rs.Example.Cores.Simulates.{AllGoodTurns, Matches}
use icmsg_rs.Example.Cores.Refine.{take_turns_refine}

-- The cores behind their start, and the queues that they stand for.
abbrev pub started :
    {M W C P : Type 0}
    → Sender M
    → Receiver W
    → SharedMemoryRegion
    → Sender M
    → Receiver W
    → SharedMemoryRegion
    → C
    → List ℕ
    → Cores M W C P
started host_sender net_receiver forth net_sender host_receiver home controller buf = record {
  host_sender = host_sender;
  net_receiver = net_receiver;
  forth = forth;
  net_sender = net_sender;
  host_receiver = host_receiver;
  home = home;
  controller = controller;
  buf = buf;
  returned = false;
  written = [];
  heard = [];
}

abbrev pub empty_queues : {C P : Type 0} → C → Queues C P
empty_queues controller = record {
  to_net = [];
  to_host = [];
  controller = controller;
  returned = false;
  written = [];
  heard = [];
}

module _ {M W C E P : Type 0} ⦃notifier : Notifier M⦄ (t : Target) (parts : Parts C E P)
    (sized : IsSized parts.set) where
  -- From power-up on: two cores with the same regions, aligned and of whole words, with room for the header
  -- and 24 bytes, connect, core a announcing itself first. The host on core a and the network core b then take
  -- turns in any order. If each packet that the host writes has fewer than 1024 bytes and its pieces are its
  -- bytes and its indicator, if the headers of the controller's packets state their lengths, which are below
  -- 2 ^ 16 with the indicator, and if the controller's return values have their commands' lengths, at most 251
  -- bytes, then the cores do what the controller between two empty queues does, and panic only where it does.
  pub connect-take_turns :
      (sym : LinkerSymbols) (mbox_a mbox_b : M) (waiter_a waiter_b : W) (k_a k_b : ℕ)
      (later_a later_b : List Either) (a b : SharedMemoryRegion) (controller : C) (buf : List ℕ)
      (turns : List Turn)
      → IsLinked sym
      → length a.bytes ≡ sym.tx_end - sym.tx_start - 8
      → length b.bytes ≡ sym.rx_end - sym.rx_start - 8
      → AllGoodTurns parts turns
      → Connects t sym mbox_a mbox_b waiter_a waiter_b k_a k_b later_a later_b a b
          (λ send_a recv_b forth send_b recv_a home.
            Matches t
              (sym.tx_end - sym.tx_start - 8)
              (sym.rx_end - sym.rx_start - 8)
              (length buf)
              (take_turns t parts
                (started send_a recv_b forth send_b recv_a home controller buf)
                turns)
              (run_queues parts
                (sym.tx_end - sym.tx_start - 8)
                (sym.rx_end - sym.rx_start - 8)
                (length buf)
                (empty_queues controller)
                turns))
  connect-take_turns sym mbox_a mbox_b waiter_a waiter_b k_a k_b later_a later_b a b controller buf
        turns linked whole_a whole_b good =
      cores_connect_then t sym mbox_a mbox_b waiter_a waiter_b k_a k_b later_a later_b a b _ linked
        whole_a whole_b
        (λ send_a recv_b forth send_b recv_a home to_net to_host.
          take_turns_refine t parts (sym.tx_end - sym.tx_start - 8) (sym.rx_end - sym.rx_start - 8)
            (length buf) sized turns (started send_a recv_b forth send_b recv_a home controller buf)
            (empty_queues controller) good
            (record {
              forth = to_net;
              home = to_host;
              controller = refl;
              buf = refl;
              returned = refl;
              written = refl;
              heard = refl;
            }))
