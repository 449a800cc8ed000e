-- ===== src/Example/Dispatch/Replies.antt =====
-- What `exec_cmd_by_opcode` of net-core/src/cmd_dispatch.rs sends: the answer of a synchronous command that it
-- lists and whose parameters are good, and nothing else.
use icmsg_rs.Prelude.{
  ℕ, ◌≡◌, refl, Bool, true, false, Option, none, some, List, [], ◌∷◌, ◌==◌, if◌then◌else◌,
}
use icmsg_rs.Machine.{Result, ok, err, map_err}
use icmsg_rs.Transport.Region.{SendError}
use icmsg_rs.Example.Hci.{CmdErr, io, hci, invalid_hci_parameters, unsupported}
use icmsg_rs.Example.Dispatch.{
  CommandSet, Send, answer, sent, send_answer, arm, dispatch_cmd, exec_cmd_by_opcode,
}
use icmsg_rs.Example.Dispatch.Commands.{Command, Arm, synchronous, asynchronous, commands}

module _ {C E : Type 0} (set : CommandSet C E) where
  -- The first command of a list with this opcode.
  unfoldable pub arm_of : List (Command × Arm) → ℕ → Option (Command × Arm)
  arm_of [] opcode = none
  arm_of ((c, a) ∷ rest) opcode =
      let later = arm_of rest opcode in if set.opcode c == opcode then some (c, a) else later

  abbrev pub bytes_of : Result (List ℕ) (CmdErr E) → Option (List ℕ)
  bytes_of (ok buf) = some buf
  bytes_of (err e) = none

  -- The answer of a command.
  abbrev pub reply_of : C → List ℕ → Option (Command × Arm) → Option (List ℕ)
  reply_of ctrl payload none = none
  reply_of ctrl payload (some (c, asynchronous)) = none
  reply_of ctrl payload (some (c, synchronous)) =
      if set.params_ok c payload
      then bytes_of (answer set c (set.exec_sync ctrl c payload).1)
      else none

  -- What a command leaves of the controller.
  abbrev pub executed : C → List ℕ → Option (Command × Arm) → C
  executed ctrl payload none = ctrl
  executed ctrl payload (some (c, asynchronous)) =
      if set.params_ok c payload then (set.exec_async ctrl c payload).0 else ctrl
  executed ctrl payload (some (c, synchronous)) =
      if set.params_ok c payload then (set.exec_sync ctrl c payload).0 else ctrl

  module _ {S : Type 0} (send : Send S) where
    -- The sender behind a reply.
    abbrev pub after_reply : S → Option (List ℕ) → S
    after_reply s none = s
    after_reply s (some buf) = (send s buf).0

    -- What the caller of a command with a reply gets.
    abbrev pub IsAnswered : S → Option (List ℕ) → Result (Unit {0}) (CmdErr E) → Type 0
    IsAnswered s none res = Unit
    IsAnswered s (some buf) res = res ≡ map_err (λ e. io set.eio) (send s buf).1

    -- What a run leaves, by the reply and the controller at the end.
    pub record Replies (s : S) (reply : Option (List ℕ)) (ctrl : C)
        (out : C × S × Result (Unit {0}) (CmdErr E)) : Type 0 where
      pub controller : out.0 ≡ ctrl
      pub channel : out.1 ≡ after_reply s reply
      pub answered : IsAnswered s reply out.2

    -- A run with no reply.
    silent :
        (s : S) (ctrl : C) (res : Result (Unit {0}) (CmdErr E)) → Replies s none ctrl (ctrl, s, res)
    silent s ctrl res = record { controller = refl; channel = refl; answered = tt }

    Replies-if :
        (s : S) (b : Bool) {reply reply' : Option (List ℕ)} {ctrl ctrl' : C}
        {out out' : C × S × Result (Unit {0}) (CmdErr E)}
        → Replies s reply ctrl out
        → Replies s reply' ctrl' out'
        → Replies s
            (if b then reply else reply')
            (if b then ctrl else ctrl')
            (if b then out else out')
    Replies-if s true r r' = r
    Replies-if s false r r' = r'

    Replies-if_none :
        (s : S) (b : Bool) {ctrl ctrl' : C} {out out' : C × S × Result (Unit {0}) (CmdErr E)}
        → Replies s none ctrl out
        → Replies s none ctrl' out'
        → Replies s none (if b then ctrl else ctrl') (if b then out else out')
    Replies-if_none s true r r' = r
    Replies-if_none s false r r' = r'

    pub sent_lem :
        (ctrl : C) (s' : S) (res : Result (Unit {0}) SendError)
        → sent set send (ctrl, s', res) ≡ (ctrl, s', map_err (λ e. io set.eio) res)
    unfolding sent
    sent_lem ctrl s' (ok _) = refl
    sent_lem ctrl s' (err e) = refl

    send_answer-Replies :
        (ctrl : C) (s : S) (ret : Result (List ℕ) (CmdErr E))
        → Replies s (bytes_of ret) ctrl (send_answer set send ctrl s ret)
    unfolding send_answer
    send_answer-Replies ctrl s (ok buf) =
        rw (sent_lem ctrl (send s buf).0 (send s buf).1)
          (record { controller = refl; channel = refl; answered = refl })
    send_answer-Replies ctrl s (err e) = silent s ctrl (err e)

    arm-Replies :
        (ctrl : C) (s : S) (c : Command) (a : Arm) (payload : List ℕ)
        → Replies s
            (reply_of ctrl payload (some (c, a)))
            (executed ctrl payload (some (c, a)))
            (arm set send ctrl s c a payload)
    unfolding arm
    arm-Replies ctrl s c asynchronous payload =
        Replies-if_none s (set.params_ok c payload)
          (silent s (set.exec_async ctrl c payload).0 (set.exec_async ctrl c payload).1)
          (silent s ctrl (err (hci invalid_hci_parameters)))
    arm-Replies ctrl s c synchronous payload =
        Replies-if s (set.params_ok c payload)
          (send_answer-Replies (set.exec_sync ctrl c payload).0 s
            (answer set c (set.exec_sync ctrl c payload).1))
          (silent s ctrl (err (hci invalid_hci_parameters)))

    Replies-choice :
        (s : S) (ctrl : C) (payload : List ℕ) (found : Bool) (c : Command) (a : Arm)
        (later : Option (Command × Arm)) (out : C × S × Result (Unit {0}) (CmdErr E))
        → Replies s (reply_of ctrl payload later) (executed ctrl payload later) out
        → Replies s
            (reply_of ctrl payload (if found then some (c, a) else later))
            (executed ctrl payload (if found then some (c, a) else later))
            (if found then arm set send ctrl s c a payload else out)
    Replies-choice s ctrl payload true c a later out r = arm-Replies ctrl s c a payload
    Replies-choice s ctrl payload false c a later out r = r

    dispatch_cmd-Replies :
        (list : List (Command × Arm)) (ctrl : C) (s : S) (opcode : ℕ) (payload : List ℕ)
        → Replies s
            (reply_of ctrl payload (arm_of list opcode))
            (executed ctrl payload (arm_of list opcode))
            (dispatch_cmd set send list ctrl s opcode payload)
    unfolding dispatch_cmd arm_of
    dispatch_cmd-Replies [] ctrl s opcode payload = silent s ctrl (err (hci unsupported))
    dispatch_cmd-Replies ((c, a) ∷ rest) ctrl s opcode payload =
        Replies-choice s ctrl payload (set.opcode c == opcode) c a (arm_of rest opcode)
          (dispatch_cmd set send rest ctrl s opcode payload)
          (dispatch_cmd-Replies rest ctrl s opcode payload)

    -- The sender gets the reply and nothing else, and the controller the command.
    pub exec_cmd_by_opcode-Replies :
        (ctrl : C) (s : S) (opcode : ℕ) (payload : List ℕ)
        → Replies s
            (reply_of ctrl payload (arm_of commands opcode))
            (executed ctrl payload (arm_of commands opcode))
            (exec_cmd_by_opcode set send ctrl s opcode payload)
    unfolding exec_cmd_by_opcode
    exec_cmd_by_opcode-Replies = dispatch_cmd-Replies commands
