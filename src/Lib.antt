-- ===== src/Lib.antt =====
-- A verification library for the icmsg crate of this repository: two ring buffers in shared memory that
-- carry messages between two cores (README.md, src/).
--
-- Prelude holds the helpers that the other files share. Machine is what the code takes from the language
-- and the machine: `Exec` is a run of Rust code, which gives a value, panics or meets undefined behaviour
-- (an access outside a buffer); `Target` is the byte order, whether overflow and debug assertions are
-- checked, and what uninitialised bytes hold.
--
-- Integer is `mod integer` of src/transport.rs. Transport is the rest of that file:
--   Transport/Region        SharedMemoryRegionHeader with its data, PacketHeader, the error types, Notifier
--   Transport/Layout        the repr(C) layout of Index and SharedMemoryRegionHeader
--   Transport/Cursor        the index arithmetic of send and try_recv
--   Transport/Sender        Sender::send, cut at its accesses to shared indices: load, fill, publish
--   Transport/Receiver      Receiver::try_recv, likewise: load, take_packet, release
--   Transport/IcMsgTransport  IcMsgTransport::new and the methods that pass on to the halves
--   Transport/Queue         the specification: a queue of messages, bounded by the bytes of its packets
--   Transport/Stream        how a data buffer holds a queue, and what a receiver beside the sender sees
--                           (Sees)
--   Transport/Refine        the halves implement the queue
--   Transport/Calls         any sequence of calls
--   Transport/Untrusted     what holds when the peer writes anything at all
--   Transport/Truncation    messages of 2 ^ 16 bytes or more
--   Transport/Reference     a reference that goes round the ring byte by byte (Bytes)
--   Transport/Tests, ReferenceTests  runs and instances
--   Transport/Fixtures      data for tests, here and in the modules above
--
-- IcMsg is src/lib.rs, over the transport:
--   IcMsg/Defs              MemoryConfig, InitError, the channel and its halves; IcMsg::init in its phases
--                           announce, wait_for_peer and bond
--   IcMsg/Bonding           what the phases do, init on two cores (Both), and when it returns (Ends)
--   IcMsg/Recv              Receiver::recv, with the poll of src/poll.rs
--   IcMsg/Methods           IcMsg::{send, try_recv, split} and Sender::send
--   IcMsg/Duplex            two bonded channels and any calls on the two cores
--   IcMsg/Handshake         two cores from power-up on in any order of turns: what holds of one direction
--                           (Direction) and of one core (Sound, Live), that a turn keeps it (Turns), and
--                           what follows (Safety, Liveness)
--   IcMsg/Tests, HandshakeTests  runs and instances
-- What the environment chooses is an argument: the answers of `select`, of the polls and of the awaits as
-- lists, and the peer as a function on the shared regions. `none` is a future that is still pending when
-- the list ends. What a failed `init` leaves in memory is not returned.
--
-- Interleaving runs one direction of the channel with both ends at work at once, in steps that are one
-- access to a shared index, one copy, one notification or one poll each. A message may have any length; the
-- theorems are about runs with messages shorter than 2 ^ 16 bytes (AllShort), whose length a header states
-- without truncation. A copy of the receiver reads the packets in front of the write index that it has loaded,
-- and any bytes elsewhere, since the sender may be writing there:
--   Interleaving            the states and the steps of Sender::send and Receiver::recv
--   Interleaving/Knowledge  what each end knows at each of its program points
--   Interleaving/Packets    fill and take_packet, told in those terms
--   Interleaving/Invariant  the invariant, one lemma for each step
--   Interleaving/Delivery   what follows for reachable states
--   Interleaving/Progress   what the receiver does by itself
--   Interleaving/Tests      runs and instances
--
-- The region that a raw pointer leads to is passed in and out of a function as a value, the data after the
-- header as a list of bytes. A `u32` is a natural number, and its arithmetic is written out with the
-- overflow behaviour of the build; `usize` arithmetic on slice lengths cannot overflow, since a slice has
-- fewer than 2 ^ 31 or 2 ^ 63 bytes, and is that of the natural numbers. The rings are at most 2 ^ 31 bytes
-- long, as `isize::MAX` demands on the 32-bit targets. Nothing takes fuel: the code of the transport has no
-- loop.
--
-- Example is examples/trouble-sdc-nrf5340 and embassy-zephyr-nrf5340, their logic without the peripherals:
--   Example/Hci             packet_len, parse_cmd_after_h4, exec_h4_to_sdc and receive_task of
--                           net-core/src/main.rs; receive_task over the channel (Receive) and the loop
--                           at the end of main (Forward); the reply that a packet calls for (Replies),
--                           that exec_h4_to_sdc sends it (Answers), to the byte (Events), its length
--                           (Short), and a sequence of packets (Task)
--   Example/Dispatch        net-core/src/cmd_dispatch.rs (Commands: the list of commands; Replies: what is
--                           sent; Events: its bytes)
--   Example/WriteBuf        app-core/src/uninit_write_buf.rs
--   Example/MyTransport     app-core/src/transport.rs, with the error kinds of src/transport.rs
--   Example/EndToEnd        MyTransport on one core and the loops of net-core/src/main.rs on the other
--   Example/Config          get_icmsg_config of app-core/src/main.rs and net-core/src/main.rs
--   Example/Spu             grant_spu of app-core/src/main.rs
--   Example/Start           what the main functions do with the channel up to split
--   Example/RoundTrip       commands of the host and the answers that it hears, from power-up on
--   Example/Cores           the host, receive_task and the loop of main in any order of turns, and the
--                           specification; that each turn keeps to it (Simulates, Received, Refine), from
--                           power-up on (Start), and how the cores come to rest (Drain, Settle)
--   Example/BondStore       the byte formats of app-core/src/ble_bas_peripheral_bonding.rs, and the storing
--                           and loading of a bond (Flash)
--   Example/Gatt            gatt_events_task of the same file, what holds when it ends (Safety), what it
--                           leaves in the flash (Stored), and the loop of run with custom_task
--                           (Connections)
--   Example/Zephyr          main and receive (Tasks) of examples/embassy-zephyr-nrf5340/app-core/src/main.rs
--   Example/Tests, ChannelTests, StartTests, CommandTests, CoresTests  runs and instances, with the data
--                           of Fixtures and FlashFixtures
-- The controller, the HCI types, the host's types and the flash storage are records of functions, since they
-- come from other crates.
--
-- Not modelled: loads of an index that give an older value than the newest (the bytes that Acquire and
-- Release leave open are arbitrary here), data caches, `Display` texts, the start-up of the peripherals and
-- the controller, register writes other than grant_spu's, and advertising.
pub mod Prelude
pub mod Machine
pub mod Integer
pub mod Transport
pub mod Interleaving
pub mod IcMsg
pub mod Example
