-- ===== src/Example/Hci/Events.antt =====
-- What `exec_h4_to_sdc` of net-core/src/main.rs does with a synchronous command, to the byte.
use icmsg_rs.Prelude.{ℕ, ◌^◌, ◌<◌, ◌≤◌, ◌≡◌, append-nil, true, some, List, [], ◌∷◌, arith}
use mathlib.Core.Path.{subst}
use icmsg_rs.Machine.{Target, ok}
use icmsg_rs.Transport.Region.{Notifier}
use icmsg_rs.Example.Hci.{
  cmd, Opcode, command, parse_cmd_after_h4, parse_cmd_after_h4-command, exec_command, exec_kind,
  exec_h4_to_sdc,
}
use icmsg_rs.Example.Hci.Replies.{
  Channel, DataPath, into_inner, with_sent, send_over, net_controller,
}
use icmsg_rs.Example.Dispatch.{CommandSet}
use icmsg_rs.Example.Dispatch.Commands.{Command, synchronous, commands}
use icmsg_rs.Example.Dispatch.Events.{with_opcode, Completes, exec_cmd_by_opcode-Completes}

module _ {M C E : Type 0} ⦃notifier : Notifier M⦄ (t : Target) (set : CommandSet C E)
    (path : DataPath C E) where
  -- A whole packet of a command with a 6-bit group and a 10-bit number, whose opcode is that of one listed
  -- command, a synchronous one, with good parameters and a return value of at most 251 bytes. A return
  -- value of the controller is sent over the channel as the bytes 4, the event's code, 4 and the length of
  -- the return value, 1, the two opcode bytes of the packet, the success status and the value. An HCI error
  -- is sent likewise, with its status and zeros for the value. `exec_h4_to_sdc` then returns the answer of
  -- `send`, an error as EIO. Any other error of the controller is returned, with nothing sent.
  pub exec_h4_to_sdc-Completes :
      (ctrl : C) (ch : Channel M) (op : Opcode) (payload : List ℕ) {kind : ℕ} {c : Command}
      → op.ogf < 64
      → op.ocf < 2 ^ 10
      → path.packet_kind (kind ∷ command op payload) ≡ some (cmd, command op payload)
      → with_opcode set (into_inner op) commands ≡ (c, synchronous) ∷ []
      → set.params_ok c payload ≡ true
      → set.return_len c ≤ 251
      → (let out =
            exec_h4_to_sdc (net_controller t set path) (ctrl, ch) (kind ∷ command op payload) in
          Completes set
            (send_over t)
            (into_inner op)
            (set.return_len c)
            ch
            (set.exec_sync ctrl c payload)
            (out.0.0, out.0.1, out.1))
  unfolding exec_h4_to_sdc net_controller exec_kind exec_command with_sent
  exec_h4_to_sdc-Completes ctrl ch op payload group number split listed good small =
      let parses =
        subst (λ rest. parse_cmd_after_h4 {E = E} rest ≡ ok (op, payload))
          (append-nil (command op payload))
          (parse_cmd_after_h4-command op payload [] group number) in
      rw (split, parses)
        (exec_cmd_by_opcode-Completes set (send_over t) ctrl ch (into_inner op) payload
          (omega arith) listed good small)
