-- ===== src/Example/Hci/Replies.antt =====
-- `exec_h4_to_sdc` of net-core/src/main.rs with `exec_cmd_by_opcode` of net-core/src/cmd_dispatch.rs behind it,
-- whose answers go back over the channel.
use icmsg_rs.Prelude.{ℕ, ◌+◌, ◌*◌, ◌^◌, ◌≡◌, refl, Option, none, some, List}
use icmsg_rs.Machine.{Exec, done, panicked, undefined, ◌>>=◌, Result, ok, err, Target}
use icmsg_rs.Transport.Region.{SharedMemoryRegion, SendError, Notifier}
use icmsg_rs.IcMsg.Defs.{Sender}
use icmsg_rs.IcMsg.Methods.{send_half}
use icmsg_rs.Example.Hci.{
  PacketKind, cmd, acl_data, sync_data, event, iso_data, invalid_hci_parameters, unsupported,
  unspecified, CmdErr, hci, Opcode, parse_cmd_after_h4, Controller, exec_command, io_result,
  exec_kind, exec_h4_to_sdc,
}
use icmsg_rs.Example.Dispatch.{CommandSet, Send, exec_cmd_by_opcode}
use icmsg_rs.Example.Dispatch.Commands.{commands}
use icmsg_rs.Example.Dispatch.Replies.{
  arm_of, reply_of, executed, after_reply, IsAnswered, Replies, exec_cmd_by_opcode-Replies,
}

-- The sending half behind its lock, with the region; a panic of `send` stays.
abbrev pub Channel : Type 0 → Type 0
Channel M = Exec (Sender M × SharedMemoryRegion)

-- What the packets that are not commands are handed to.
pub record DataPath (C E : Type 0) : Type 0 where
  pub packet_kind : List ℕ → Option (PacketKind × List ℕ)
  pub hci_data_put : C → List ℕ → C × Result (Unit {0}) E
  pub hci_iso_data_put : C → List ℕ → C × Result (Unit {0}) E

-- An opcode as a number, by which the dispatch compares it.
abbrev pub into_inner : Opcode → ℕ
into_inner op = op.ocf + 2 ^ 10 * op.ogf

module _ {M : Type 0} where
  unfoldable pub sent_over :
      Exec (Sender M × SharedMemoryRegion × Result (Unit {0}) SendError)
      → Channel M × Result (Unit {0}) SendError
  sent_over (done (s, region, res)) = (done (s, region), res)
  sent_over panicked = (panicked, ok tt)
  sent_over undefined = (undefined, ok tt)

module _ {M C E : Type 0} where
  with_channel : Channel M → C × Result (Unit {0}) E → (C × Channel M) × Result (Unit {0}) E
  with_channel ch (c, res) = ((c, ch), res)

  unfoldable pub with_sent :
      C × Channel M × Result (Unit {0}) (CmdErr E) → (C × Channel M) × Result (Unit {0}) (CmdErr E)
  with_sent (c, ch, res) = ((c, ch), res)

module _ {M : Type 0} ⦃notifier : Notifier M⦄ (t : Target) where
  -- `send.lock(|x| x.borrow_mut().send(..))`
  unfoldable pub send_over : Send (Channel M)
  unfolding sent_over send_half
  send_over ch msg = sent_over (do out ← ch; send_half t out.0 out.1 msg)

module _ {C E : Type 0} (set : CommandSet C E) (path : DataPath C E) where
  -- The message that a packet of the host is answered with: that of a command, if it has one.
  abbrev pub command_reply : C → Result (Opcode × List ℕ) (CmdErr E) → Option (List ℕ)
  command_reply ctrl (err e) = none
  command_reply ctrl (ok (opcode, payload)) =
      reply_of set ctrl payload (arm_of set commands (into_inner opcode))

  abbrev pub kind_reply : C → Option (PacketKind × List ℕ) → Option (List ℕ)
  kind_reply ctrl (some (cmd, rest)) = command_reply ctrl (parse_cmd_after_h4 rest)
  kind_reply ctrl _ = none

  unfoldable pub packet_reply : C → List ℕ → Option (List ℕ)
  unfolding arm_of parse_cmd_after_h4
  packet_reply ctrl pkt = kind_reply ctrl (path.packet_kind pkt)

  -- What a packet of the host leaves of the controller.
  abbrev command_executed : C → Result (Opcode × List ℕ) (CmdErr E) → C
  command_executed ctrl (err e) = ctrl
  command_executed ctrl (ok (opcode, payload)) =
      executed set ctrl payload (arm_of set commands (into_inner opcode))

  abbrev kind_executed : C → Option (PacketKind × List ℕ) → C
  kind_executed ctrl (some (cmd, rest)) = command_executed ctrl (parse_cmd_after_h4 rest)
  kind_executed ctrl (some (acl_data, rest)) = (path.hci_data_put ctrl rest).0
  kind_executed ctrl (some (iso_data, rest)) = (path.hci_iso_data_put ctrl rest).0
  kind_executed ctrl _ = ctrl

  unfoldable pub packet_executed : C → List ℕ → C
  unfolding arm_of parse_cmd_after_h4
  packet_executed ctrl pkt = kind_executed ctrl (path.packet_kind pkt)

module _ {M C E : Type 0} ⦃notifier : Notifier M⦄ (t : Target) (set : CommandSet C E)
    (path : DataPath C E) where
  -- What `exec_h4_to_sdc` works on: the controller and the channel.
  unfoldable pub net_controller : Controller (C × Channel M) E
  unfolding send_over with_channel with_sent exec_cmd_by_opcode
  net_controller = record {
    packet_kind = path.packet_kind;
    hci_data_put = λ c rest. with_channel c.1 (path.hci_data_put c.0 rest);
    hci_iso_data_put = λ c rest. with_channel c.1 (path.hci_iso_data_put c.0 rest);
    exec_cmd = λ c opcode payload.
        with_sent (exec_cmd_by_opcode set (send_over t) c.0 c.1 (into_inner opcode) payload);
  }

  -- What a packet leaves of the controller and the channel, and what `exec_h4_to_sdc` returns if there is a
  -- reply.
  pub record Leaves (ch : Channel M) (reply : Option (List ℕ)) (ctrl : C)
      (out : (C × Channel M) × Result (Unit {0}) (CmdErr E)) : Type 0 where
    pub controller : out.0.0 ≡ ctrl
    pub channel : out.0.1 ≡ after_reply set (send_over t) ch reply
    pub answered : IsAnswered set (send_over t) ch reply out.1

  with_sent-Leaves :
      (ch : Channel M) {reply : Option (List ℕ)} {ctrl : C}
      (out : C × Channel M × Result (Unit {0}) (CmdErr E))
      → Replies set (send_over t) ch reply ctrl out
      → Leaves ch reply ctrl (with_sent out)
  unfolding with_sent
  with_sent-Leaves ch (c, ch', res) r = record {
    controller = r.controller;
    channel = r.channel;
    answered = r.answered;
  }

  untouched :
      (ch : Channel M) (out : C × Result (Unit {0}) E)
      → Leaves ch none out.0 (io_result net_controller (with_channel ch out))
  unfolding io_result with_channel
  untouched ch (c, res) = record { controller = refl; channel = refl; answered = tt }

  refused : (ch : Channel M) (ctrl : C) (e : CmdErr E) → Leaves ch none ctrl ((ctrl, ch), err e)
  refused ch ctrl e = record { controller = refl; channel = refl; answered = tt }

  exec_command-Leaves :
      (ctrl : C) (ch : Channel M) (parsed : Result (Opcode × List ℕ) (CmdErr E))
      → Leaves ch
          (command_reply set path ctrl parsed)
          (command_executed set path ctrl parsed)
          (exec_command net_controller (ctrl, ch) parsed)
  unfolding exec_command net_controller
  exec_command-Leaves ctrl ch (err e) = refused ch ctrl e
  exec_command-Leaves ctrl ch (ok (opcode, payload)) =
      with_sent-Leaves ch (exec_cmd_by_opcode set (send_over t) ctrl ch (into_inner opcode) payload)
        (exec_cmd_by_opcode-Replies set (send_over t) ctrl ch (into_inner opcode) payload)

  exec_kind-Leaves :
      (ctrl : C) (ch : Channel M) (kind : Option (PacketKind × List ℕ))
      → Leaves ch
          (kind_reply set path ctrl kind)
          (kind_executed set path ctrl kind)
          (exec_kind net_controller (ctrl, ch) kind)
  unfolding exec_kind net_controller
  exec_kind-Leaves ctrl ch none = refused ch ctrl (hci invalid_hci_parameters)
  exec_kind-Leaves ctrl ch (some (cmd, rest)) =
      exec_command-Leaves ctrl ch (parse_cmd_after_h4 rest)
  exec_kind-Leaves ctrl ch (some (acl_data, rest)) = untouched ch (path.hci_data_put ctrl rest)
  exec_kind-Leaves ctrl ch (some (iso_data, rest)) = untouched ch (path.hci_iso_data_put ctrl rest)
  exec_kind-Leaves ctrl ch (some (sync_data, rest)) = refused ch ctrl (hci unsupported)
  exec_kind-Leaves ctrl ch (some (event, rest)) = refused ch ctrl (hci unspecified)

  pub exec_h4_to_sdc-Leaves :
      (ctrl : C) (ch : Channel M) (pkt : List ℕ)
      → Leaves ch
          (packet_reply set path ctrl pkt)
          (packet_executed set path ctrl pkt)
          (exec_h4_to_sdc net_controller (ctrl, ch) pkt)
  unfolding exec_h4_to_sdc packet_reply packet_executed net_controller
  exec_h4_to_sdc-Leaves ctrl ch pkt = exec_kind-Leaves ctrl ch (path.packet_kind pkt)
