-- ===== src/Example/Dispatch/Events.antt =====
-- The bytes of the event with which net-core/src/cmd_dispatch.rs completes a synchronous command.
use icmsg_rs.Prelude.{
  ℕ, ◌+◌, ◌/◌, ◌%◌, ◌^◌, ◌<◌, ◌≤◌, ◌≡◌, refl, sym, ap₂, Bool, true, false, List, [], ◌∷◌, ◌++◌,
  arith, ◌==◌, if◌then◌else◌, replicate, ==_iff,
}
use icmsg_rs.Machine.{Result, ok, err, map_err}
use icmsg_rs.Example.Hci.{CmdErr, io, hci}
use icmsg_rs.Example.Dispatch.{
  CommandSet, Send, head, answer, send_answer, arm, dispatch_cmd, exec_cmd_by_opcode,
}
use icmsg_rs.Example.Dispatch.Replies.{sent_lem}
use icmsg_rs.Example.Dispatch.Commands.{Command, Arm, synchronous, commands}

module _ {C E : Type 0} (set : CommandSet C E) where
  -- The entries of a list of commands that have an opcode.
  unfoldable pub with_opcode : ℕ → List (Command × Arm) → List (Command × Arm)
  with_opcode opcode [] = []
  with_opcode opcode ((c, a) ∷ rest) =
      let later = with_opcode opcode rest in
      if set.opcode c == opcode then (c, a) ∷ later else later

  -- The event of a command: the kind of an event packet, its code, the length of what follows, one packet,
  -- the two bytes of the opcode, the lower one first, a status, and what the command returns.
  abbrev pub complete_event : ℕ → ℕ → ℕ → List ℕ → List ℕ
  complete_event opcode len status params =
      4 ∷ set.event_code ∷ (4 + len) ∷ 1 ∷ opcode % 256 ∷ opcode / 256 ∷ status ∷ params

  module _ {S : Type 0} (send : Send S) where
    -- The controller `ctrl`, what the channel `s` is behind a message, and the answer of its `send`, with an
    -- error as EIO.
    abbrev pub HasSent : S → C → List ℕ → C × S × Result (Unit {0}) (CmdErr E) → Type 0
    HasSent s ctrl msg out =
        (out.0 ≡ ctrl)
        × (out.1 ≡ (send s msg).0)
        × (out.2 ≡ map_err (λ e. io set.eio) (send s msg).1)

    -- A command with an opcode and a return value of this length, by what the controller did: its return
    -- value is sent as a success, an HCI error as that status with zeros for the return value, and an error
    -- of its own is returned with nothing sent.
    abbrev pub Completes :
        ℕ → ℕ → S → C × Result (List ℕ) (CmdErr E) → C × S × Result (Unit {0}) (CmdErr E) → Type 0
    Completes opcode len s (ctrl, ok ret) out =
        HasSent s ctrl (complete_event opcode len set.success ret) out
    Completes opcode len s (ctrl, err (hci e)) out =
        HasSent s ctrl (complete_event opcode len (set.to_status e) (replicate len 0)) out
    Completes opcode len s (ctrl, err (io e)) out = out ≡ (ctrl, s, err (io e))

  head-complete_event :
      (c : Command) (status : ℕ) (params : List ℕ)
      → set.opcode c < 2 ^ 16
      → set.return_len c ≤ 251
      → head set c status ++ params ≡ complete_event (set.opcode c) (set.return_len c) status params
  unfolding head
  head-complete_event c status params two_bytes small =
      ap₂ (λ len high. 4 ∷ set.event_code ∷ len ∷ 1 ∷ set.opcode c % 256 ∷ high ∷ status ∷ params)
        {x = (1 + 2 + 1 + set.return_len c) % 2 ^ 8} {y = 4 + set.return_len c}
        {u = set.opcode c / 2 ^ 8 % 256} {v = set.opcode c / 256} (omega arith) (omega arith)

  module _ {S : Type 0} (send : Send S) where
    sends :
        (s : S) (ctrl : C) {msg event : List ℕ}
        → msg ≡ event
        → HasSent send s ctrl event (send_answer set send ctrl s (ok msg))
    unfolding send_answer
    sends s ctrl {msg} e =
        rw (sent_lem set send ctrl (send s msg).0 (send s msg).1, e) (refl, refl, refl)

    send_answer-Completes :
        (s : S) (c : Command) (out : C × Result (List ℕ) (CmdErr E))
        → set.opcode c < 2 ^ 16
        → set.return_len c ≤ 251
        → Completes send
            (set.opcode c)
            (set.return_len c)
            s
            out
            (send_answer set send out.0 s (answer set c out.1))
    unfolding answer send_answer
    send_answer-Completes s c (ctrl, ok ret) two_bytes small =
        sends s ctrl (head-complete_event c set.success ret two_bytes small)
    send_answer-Completes s c (ctrl, err (hci e)) two_bytes small =
        sends s ctrl
          (head-complete_event c (set.to_status e) (replicate (set.return_len c) 0) two_bytes small)
    send_answer-Completes s c (ctrl, err (io e)) two_bytes small = refl

    arm-synchronous :
        (ctrl : C) (s : S) (c : Command) (payload : List ℕ)
        → set.params_ok c payload ≡ true
        → arm set send ctrl s c synchronous payload
          ≡ send_answer set send
              (set.exec_sync ctrl c payload).0
              s
              (answer set c (set.exec_sync ctrl c payload).1)
    unfolding arm
    arm-synchronous ctrl s c payload good = rw good refl

    pick :
        (ctrl : C) (s : S) {opcode : ℕ} (payload : List ℕ) (c' : Command) (a' : Arm) (found : Bool)
        (later : List (Command × Arm)) (out : C × S × Result (Unit {0}) (CmdErr E)) {c : Command}
        {a : Arm} {rest : List (Command × Arm)}
        → (set.opcode c' == opcode) ≡ found
        → (if found then (c', a') ∷ later else later) ≡ (c, a) ∷ rest
        → (later ≡ (c, a) ∷ rest
            → (set.opcode c ≡ opcode) × (out ≡ arm set send ctrl s c a payload))
        → (set.opcode c ≡ opcode)
          × ((if found then arm set send ctrl s c' a' payload else out)
              ≡ arm set send ctrl s c a payload)
    pick ctrl s {opcode} payload c' a' true later out same e ih =
        let equal = (==_iff (set.opcode c') opcode).0 same in (cc, cc)
    pick ctrl s payload c' a' false later out same e ih = ih e

    dispatch_cmd-with_opcode :
        (list : List (Command × Arm)) (ctrl : C) (s : S) {opcode : ℕ} (payload : List ℕ)
        {c : Command} {a : Arm} {rest : List (Command × Arm)}
        → with_opcode opcode list ≡ (c, a) ∷ rest
        → (set.opcode c ≡ opcode)
          × (dispatch_cmd set send list ctrl s opcode payload ≡ arm set send ctrl s c a payload)
    unfolding with_opcode dispatch_cmd
    dispatch_cmd-with_opcode [] ctrl s payload e = absurd cc
    dispatch_cmd-with_opcode ((c', a') ∷ list) ctrl s {opcode} payload e =
        pick ctrl s payload c' a' (set.opcode c' == opcode) (with_opcode opcode list)
          (dispatch_cmd set send list ctrl s opcode payload) refl e
          (dispatch_cmd-with_opcode list ctrl s payload)

    -- `exec_cmd_by_opcode` for a command that it lists as synchronous.
    pub exec_cmd_by_opcode-Completes :
        (ctrl : C) (s : S) (opcode : ℕ) (payload : List ℕ) {c : Command}
        → opcode < 2 ^ 16
        → with_opcode opcode commands ≡ (c, synchronous) ∷ []
        → set.params_ok c payload ≡ true
        → set.return_len c ≤ 251
        → Completes send opcode
            (set.return_len c)
            s
            (set.exec_sync ctrl c payload)
            (exec_cmd_by_opcode set send ctrl s opcode payload)
    unfolding exec_cmd_by_opcode
    exec_cmd_by_opcode-Completes ctrl s opcode payload {c} two_bytes listed good small =
        let (same, runs) = dispatch_cmd-with_opcode commands ctrl s payload listed in
        rw (runs, arm-synchronous ctrl s c payload good, sym same)
          (send_answer-Completes s c (set.exec_sync ctrl c payload) (omega (arith, same)) small)
