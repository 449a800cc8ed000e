-- ===== src/Example/Hci.antt =====
-- net-core/src/main.rs: which bytes are an HCI packet, and what becomes of a packet from the host.
-- Forward is the loop that sends the controller's packets, Receive the task over the channel.
pub mod Forward
pub mod Receive
pub mod Replies
pub mod Events
pub mod Answers
pub mod Task
pub mod Short
use icmsg_rs.Prelude.{
  ℕ, ◌+◌, ◌*◌, ◌/◌, ◌%◌, ◌^◌, ◌<◌, ◌≡◌, Bool, true, false, Option, none, some, List, [], ◌∷◌, ◌++◌,
  arith, ltb, le→not-ltb, if◌then◌else◌, length, take, drop, get_or, take-append, length-append,
}
use icmsg_rs.Transport.Region.{RecvError}
use icmsg_rs.Machine.{Result, ok, err, map_err}

-- `bt_hci::PacketKind`
pub data PacketKind : Type 0 where
  cmd acl_data sync_data event iso_data : PacketKind

-- The errors of `bt_hci::param::Error` that the code names, and all others by their code.
pub data HciError : Type 0 where
  invalid_hci_parameters unsupported unspecified : HciError
  other : ℕ → HciError

-- `CmdErr`
pub data CmdErr (E : Type 0) : Type 0 where
  hci : HciError → CmdErr E
  io : E → CmdErr E

-- What the lengths of the packet headers of `bt_hci` are read from; `none` is `InvalidSize`.
pub record HeaderLengths : Type 0 where
  pub acl_data_len : List ℕ → Option ℕ
  pub sync_data_len : List ℕ → Option ℕ
  pub event_params_len : List ℕ → Option ℕ
  pub iso_data_load_len : List ℕ → Option ℕ

plus : ℕ → Option ℕ → Option ℕ
plus n none = none
plus n (some k) = some (k + n)

-- `packet_len`
unfoldable pub packet_len : HeaderLengths → PacketKind → List ℕ → Option ℕ
unfolding plus
packet_len h cmd bytes = if ltb (length bytes) 3 then none else some (get_or bytes 2 0 + 3)
packet_len h acl_data bytes = plus 4 (h.acl_data_len bytes)
packet_len h sync_data bytes = plus 3 (h.sync_data_len bytes)
packet_len h event bytes = plus 2 (h.event_params_len bytes)
packet_len h iso_data bytes = plus 4 (h.iso_data_load_len bytes)

-- `Opcode::new`, by its group and its command.
pub record Opcode : Type 0 where
  pub ogf : ℕ
  pub ocf : ℕ

-- `parse_cmd_after_h4`
unfoldable pub parse_cmd_after_h4 : {E : Type 0} → List ℕ → Result (Opcode × List ℕ) (CmdErr E)
parse_cmd_after_h4 rest =
    if ltb (length rest) 3
    then err (hci invalid_hci_parameters)
    else (let raw = get_or rest 0 0 + 256 * get_or rest 1 0 in
        let plen = get_or rest 2 0 in
        if ltb (length rest) (3 + plen)
        then err (hci invalid_hci_parameters)
        else ok (record { ogf = raw / 2 ^ 10 % 64; ocf = raw % 2 ^ 10 }, take plen (drop 3 rest)))

-- A command packet as the host writes it.
abbrev pub command : Opcode → List ℕ → List ℕ
command op payload =
    (op.ocf + 2 ^ 10 * op.ogf) % 256 ∷ (op.ocf + 2 ^ 10 * op.ogf) / 256 ∷ length payload ∷ payload

raw-ogf :
    (op : Opcode)
    → op.ogf < 64
    → op.ocf < 2 ^ 10
    → ((op.ocf + 1024 * op.ogf) % 256 + 256 * ((op.ocf + 1024 * op.ogf) / 256)) / 1024 % 64 ≡ op.ogf
raw-ogf op g c = omega arith

raw-ocf :
    (op : Opcode)
    → op.ocf < 2 ^ 10
    → ((op.ocf + 1024 * op.ogf) % 256 + 256 * ((op.ocf + 1024 * op.ogf) / 256)) % 1024 ≡ op.ocf
raw-ocf op c = omega arith

-- A command is read back as it was written, whatever bytes follow it.
pub parse_cmd_after_h4-command :
    {E : Type 0} (op : Opcode) (payload after : List ℕ)
    → op.ogf < 64
    → op.ocf < 2 ^ 10
    → parse_cmd_after_h4 {E = E} (command op payload ++ after) ≡ ok (op, payload)
unfolding parse_cmd_after_h4
parse_cmd_after_h4-command op payload after g c = rw (
  le→not-ltb (length (command op payload ++ after)) 3 (omega (arith, length-append payload after)),
  le→not-ltb (length (command op payload ++ after)) (3 + length payload)
      (omega (arith, length-append payload after)),
  take-append payload after,
  raw-ogf op g c,
  raw-ocf op c,
)

-- The controller, and the rest of what the code takes from other crates.
pub record Controller (C E : Type 0) : Type 0 where
  pub packet_kind : List ℕ → Option (PacketKind × List ℕ)
  pub hci_data_put : C → List ℕ → C × Result (Unit {0}) E
  pub hci_iso_data_put : C → List ℕ → C × Result (Unit {0}) E
  pub exec_cmd : C → Opcode → List ℕ → C × Result (Unit {0}) (CmdErr E)

module _ {C E : Type 0} (ctl : Controller C E) where
  exec_command : C → Result (Opcode × List ℕ) (CmdErr E) → C × Result (Unit {0}) (CmdErr E)
  exec_command c (err e) = (c, err e)
  exec_command c (ok (opcode, payload)) = ctl.exec_cmd c opcode payload

  io_result : C × Result (Unit {0}) E → C × Result (Unit {0}) (CmdErr E)
  io_result (c, res) = (c, map_err io res)

  exec_kind : C → Option (PacketKind × List ℕ) → C × Result (Unit {0}) (CmdErr E)
  unfolding parse_cmd_after_h4 exec_command io_result
  exec_kind c none = (c, err (hci invalid_hci_parameters))
  exec_kind c (some (cmd, rest)) = exec_command c (parse_cmd_after_h4 rest)
  exec_kind c (some (acl_data, rest)) = io_result (ctl.hci_data_put c rest)
  exec_kind c (some (iso_data, rest)) = io_result (ctl.hci_iso_data_put c rest)
  exec_kind c (some (sync_data, rest)) = (c, err (hci unsupported))
  exec_kind c (some (event, rest)) = (c, err (hci unspecified))

  -- `exec_h4_to_sdc`
  unfoldable pub exec_h4_to_sdc : C → List ℕ → C × Result (Unit {0}) (CmdErr E)
  unfolding exec_kind
  exec_h4_to_sdc c pkt = exec_kind c (ctl.packet_kind pkt)

  -- `receive_task` on what `recv` answers one after the other: the controller at the end, and whether
  -- the task has ended. An error of `recv` ends it, an error of a packet does not.
  unfoldable pub receive_task : C → List (Result (List ℕ) RecvError) → C × Bool
  unfolding exec_h4_to_sdc
  receive_task c [] = (c, false)
  receive_task c (err e ∷ answers) = (c, true)
  receive_task c (ok pkt ∷ answers) = receive_task (exec_h4_to_sdc c pkt).0 answers
