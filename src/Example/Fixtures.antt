-- ===== src/Example/Fixtures.antt =====
-- Data for the tests of the example.
use icmsg_rs.Prelude.{
  ℕ, ◌+◌, ◌==◌, if◌then◌else◌, refl, arith, replicate, Option, none, some, List, [], ◌∷◌, drop,
  true,
}
use icmsg_rs.Machine.{ok, err}
use icmsg_rs.Integer
use icmsg_rs.Transport.Fixtures.{debug, counting, ring_24, blank}
use icmsg_rs.Transport.IcMsgTransport.New.{fresh-Represents}
use icmsg_rs.Transport.Refine.{Represents}
use icmsg_rs.IcMsg.Defs.{Sender, Receiver}
use icmsg_rs.IcMsg.Recv.{Round}
use icmsg_rs.Transport.Region.{SharedMemoryRegion}
use icmsg_rs.Example.Config.{LinkerSymbols, IsLinked}
use icmsg_rs.Example.Hci.Replies.{DataPath}
use icmsg_rs.Example.Dispatch.{CommandSet}
use icmsg_rs.Example.Dispatch.Commands.{Command, le_rand}
use icmsg_rs.Example.EndToEnd.{HostPacket}
use icmsg_rs.Example.Hci.{PacketKind, cmd, acl_data, Controller, HeaderLengths}

-- A controller that keeps the ACL packets it is given; the first byte of a packet is 2 for those.
abbrev pub recorder : Controller (List (List ℕ)) ℕ
recorder = record {
  packet_kind = λ pkt. some (acl_data, drop 1 pkt);
  hci_data_put = λ c rest. (rest ∷ c, ok tt);
  hci_iso_data_put = λ c rest. (c, err 22);
  exec_cmd = λ c opcode payload. (c, ok tt);
}

abbrev second_byte : List ℕ → Option ℕ
second_byte (code ∷ len ∷ params) = some len
second_byte _ = none

abbrev pub lengths : HeaderLengths
lengths = record {
  acl_data_len = λ bytes. none;
  sync_data_len = λ bytes. none;
  event_params_len = second_byte;
  iso_data_load_len = λ bytes. none;
}

-- An empty channel with a ring of 24 bytes, and a round of `recv` at once after which nothing comes.
abbrev pub sender : Sender ℕ
sender = record { transport = record { send_buffer_len = 24; mbox = 0; send_wr_idx = 0 } }

abbrev pub receiver : Receiver ℕ
receiver = record { transport = record { recv_buffer_len = 24; recv_rd_idx = 0 }; waiter = 5 }

pub fresh_channel : Represents debug 24 sender.transport blank receiver.transport []
unfolding Integer.new
fresh_channel = fresh-Represents debug 0 blank ring_24 refl

abbrev pub still_round : Round
still_round = record { peer = λ region. region; pending = true; woken = true }

-- A region of 80 bytes in one direction, and one of 32 in the other.
abbrev pub symbols : LinkerSymbols
symbols = record {
  tx_start = 0x20070000;
  tx_end = 0x20070050;
  rx_start = 0x20078000;
  rx_end = 0x20078020;
}

pub symbols-IsLinked : IsLinked symbols
symbols-IsLinked = record {
  tx = record {
    aligned = refl;
    whole_words = refl;
    room = omega arith;
    small = omega arith;
    addressable = omega arith;
  };
  rx = record {
    aligned = refl;
    whole_words = refl;
    room = omega arith;
    small = omega arith;
    addressable = omega arith;
  };
}

abbrev pub blank_72 : SharedMemoryRegion
blank_72 = record blank { bytes = replicate 72 0 }

-- A controller that counts what it is handed, and knows one command.
abbrev rand_opcode : Command → ℕ
rand_opcode le_rand = 8216
rand_opcode _ = 0

abbrev pub set : CommandSet ℕ ℕ
set = record {
  opcode = rand_opcode;
  params_ok = λ c payload. true;
  exec_async = λ ctrl c payload. (ctrl + 1, ok tt);
  exec_sync = λ ctrl c payload. (ctrl + 1, ok (replicate 8 5));
  return_len = λ c. 8;
  event_code = 14;
  success = 0;
  to_status = λ e. 1;
  eio = 5;
}

abbrev h4_kind : List ℕ → Option (PacketKind × List ℕ)
h4_kind [] = none
h4_kind (kind ∷ rest) =
    if kind == 1 then some (cmd, rest) else if kind == 2 then some (acl_data, rest) else none

abbrev pub path : DataPath ℕ ℕ
path = record {
  packet_kind = h4_kind;
  hci_data_put = λ ctrl rest. (ctrl + 100, ok tt);
  hci_iso_data_put = λ ctrl rest. (ctrl, ok tt);
}

abbrev pub rand_command : List ℕ
rand_command = 1 ∷ 24 ∷ 32 ∷ 0 ∷ []

abbrev pub rand_event : List ℕ
rand_event = 4 ∷ 14 ∷ 12 ∷ 1 ∷ 24 ∷ 32 ∷ 0 ∷ replicate 8 5

-- The command, and an ACL packet in two pieces.
abbrev pub host_packets : List HostPacket
host_packets =
    record { size = 3; srcs = rand_command ∷ [] }
    ∷ record { size = 2; srcs = (2 ∷ []) ∷ (7 ∷ 8 ∷ []) ∷ [] }
    ∷ []
