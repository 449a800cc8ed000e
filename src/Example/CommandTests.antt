-- ===== src/Example/CommandTests.antt =====
-- A command of the host and its answer, over two channels with rings of 24 bytes.
use icmsg_rs.Prelude.{ℕ, ◌≡◌, ◌≤◌, refl, Option, some, List, [], ◌∷◌, arith, replicate, length}
use icmsg_rs.Machine.{done, Result}
use icmsg_rs.Transport.Region.{SharedMemoryRegion}
use icmsg_rs.Transport.Fixtures.{debug, counting, blank}
use icmsg_rs.IcMsg.Recv.{Round}
use icmsg_rs.Example.Hci.{CmdErr, exec_h4_to_sdc, Opcode, command}
use icmsg_rs.Example.Hci.Replies.{Channel, packet_reply, packet_executed, send_over, net_controller}
use icmsg_rs.Example.Hci.Events.{exec_h4_to_sdc-Completes}
use icmsg_rs.Example.Hci.Answers.{Answers, exec_h4_to_sdc_refines}
use icmsg_rs.Example.Hci.Task.{replies}
use icmsg_rs.Example.Dispatch.{answer}
use icmsg_rs.Example.Dispatch.Events.{with_opcode, HasSent}
use icmsg_rs.Example.Dispatch.Replies.{arm_of}
use icmsg_rs.Example.Dispatch.Commands.{le_rand}
use icmsg_rs.Example.RoundTrip.{Run, Served, replies_reach_host}
use icmsg_rs.Example.Fixtures.{
  set, path, rand_command, rand_event, host_packets, sender, receiver, fresh_channel, still_round,
}

rand_answered : packet_reply set path 0 rand_command ≡ some rand_event
unfolding packet_reply arm_of answer
rand_answered = refl

exec_h4_to_sdc_refines_example :
    Answers debug set 24 [] receiver.transport
      (packet_reply set path 0 rand_command)
      (packet_executed set path 0 rand_command)
      (exec_h4_to_sdc (net_controller debug set path) (0, done (sender, blank)) rand_command)
unfolding packet_reply arm_of answer
exec_h4_to_sdc_refines_example =
    exec_h4_to_sdc_refines debug set path 0 rand_command (omega arith) fresh_channel

abbrev rand_op : Opcode
rand_op = record { ogf = 8; ocf = 24 }

abbrev rand_run : (ℕ × Channel ℕ) × Result (Unit {0}) (CmdErr ℕ)
rand_run =
    exec_h4_to_sdc (net_controller debug set path) (0, done (sender, blank))
      (1 ∷ command rand_op [])

-- The event's bytes are those of `rand_event`.
exec_h4_to_sdc-Completes_example :
    HasSent set
      (send_over debug)
      (done (sender, blank))
      1
      rand_event
      (rand_run.0.0, rand_run.0.1, rand_run.1)
unfolding with_opcode
exec_h4_to_sdc-Completes_example =
    exec_h4_to_sdc-Completes debug set path 0 (done (sender, blank)) rand_op [] {c = le_rand}
      (omega arith) (omega arith) refl refl refl (omega arith)

abbrev calls : List (List Round)
calls = (still_round ∷ []) ∷ (still_round ∷ []) ∷ []

abbrev reads : List (List Round × List ℕ)
reads = (still_round ∷ [], replicate 16 0) ∷ []

still : (region : SharedMemoryRegion) → still_round.peer region ≡ region
still region = refl

abbrev parse : List ℕ → Option ℕ
parse bytes = some (length bytes)

heard : replies set path 0 (rand_command ∷ (2 ∷ 7 ∷ 8 ∷ []) ∷ []) ≡ rand_event ∷ []
unfolding replies packet_reply packet_executed arm_of answer
heard = refl

abbrev Rings : ℕ → Type 0
Rings size = Run set path parse size 24 0 host_packets (replicate 4 0) calls reads

run : (size : ℕ) → 24 ≤ size → Rings size
unfolding replies packet_reply packet_executed arm_of answer
run size large = record {
  small = (
    record { small = omega arith; whole = refl },
    (record { small = omega arith; whole = refl }, tt),
  );
  room = omega arith;
  fits = (omega arith, (omega arith, tt));
  prompt = (still, (still, tt));
  short = (omega arith, (tt, tt));
  back_room = omega arith;
  ready = (still, omega arith, tt);
}

replies_reach_host_example :
    Served set path parse debug 24 24 0 host_packets
      (replicate 4 0)
      calls
      reads
      sender
      receiver
      blank
      sender
      receiver
      blank
replies_reach_host_example =
    replies_reach_host set path parse debug sender receiver blank sender receiver blank
      (run 24 (omega arith)) fresh_channel fresh_channel
