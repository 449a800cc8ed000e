-- ===== src/Example/Dispatch.antt =====
-- net-core/src/cmd_dispatch.rs: how a command is executed, and the event with which the network core answers
-- a synchronous one.
pub mod Commands
pub mod Replies
pub mod Events
use icmsg_rs.Prelude.{
  ℕ, zero, suc, ◌+◌, ◌*◌, ◌/◌, ◌%◌, ◌^◌, ◌≤◌, ◌<◌, ◌≡◌, ◌≢◌, refl, ap, Bool, true, false, Option,
  none, some, List, [], ◌∷◌, ◌++◌, arith, ◌==◌, if◌then◌else◌, length, length-append,
  length-replicate, replicate, get_or,
}
use icmsg_rs.Machine.{Result, ok, err}
use icmsg_rs.Transport.Region.{SendError}
use icmsg_rs.Example.Hci.{
  HciError, invalid_hci_parameters, unsupported, CmdErr, hci, io, HeaderLengths, event, packet_len,
}
use Commands.{Command, Arm, synchronous, asynchronous, commands}

-- What the arms take from `bt_hci` and the controller, whose errors are `E`. `exec_sync` gives the bytes
-- of the command's return value, `event_code` is `CommandComplete::EVENT_CODE`.
pub record CommandSet (C E : Type 0) : Type 0 where
  pub opcode : Command → ℕ
  pub params_ok : Command → List ℕ → Bool
  pub exec_async : C → Command → List ℕ → C × Result (Unit {0}) (CmdErr E)
  pub exec_sync : C → Command → List ℕ → C × Result (List ℕ) (CmdErr E)
  pub return_len : Command → ℕ
  pub event_code : ℕ
  pub success : ℕ
  pub to_status : HciError → ℕ
  pub eio : E

-- The sender of the channel: what `send` leaves and answers.
abbrev pub Send : Type 0 → Type 0
Send S = S → List ℕ → S × Result (Unit {0}) SendError

module _ {C E : Type 0} (set : CommandSet C E) where
  -- The first seven bytes: kind, code, length, number of packets, opcode and status.
  unfoldable pub head : Command → ℕ → List ℕ
  head c status =
      4
      ∷ set.event_code
      ∷ (1 + 2 + 1 + set.return_len c) % 2 ^ 8
      ∷ 1
      ∷ set.opcode c % 256
      ∷ set.opcode c / 2 ^ 8 % 256
      ∷ status
      ∷ []

  -- The event that answers a command; `err` is an error that goes to the caller instead.
  unfoldable pub answer : Command → Result (List ℕ) (CmdErr E) → Result (List ℕ) (CmdErr E)
  unfolding head
  answer c (ok ret) = ok (head c set.success ++ ret)
  answer c (err (hci e)) = ok (head c (set.to_status e) ++ replicate (set.return_len c) 0)
  answer c (err (io e)) = err (io e)

  module _ {S : Type 0} (send : Send S) where
    pub sent : C × S × Result (Unit {0}) SendError → C × S × Result (Unit {0}) (CmdErr E)
    sent (ctrl, s, ok _) = (ctrl, s, ok tt)
    sent (ctrl, s, err e) = (ctrl, s, err (io set.eio))

    send_answer : C → S → Result (List ℕ) (CmdErr E) → C × S × Result (Unit {0}) (CmdErr E)
    unfolding sent
    send_answer ctrl s (ok buf) = let (s', res) = send s buf in sent (ctrl, s', res)
    send_answer ctrl s (err e) = (ctrl, s, err e)

    -- The arm of a command, with the payload's parameters checked first.
    unfoldable pub arm : C → S → Command → Arm → List ℕ → C × S × Result (Unit {0}) (CmdErr E)
    unfolding answer send_answer
    arm ctrl s c synchronous payload =
        if set.params_ok c payload
        then (let (ctrl', ret) = set.exec_sync ctrl c payload in send_answer ctrl' s (answer c ret))
        else (ctrl, s, err (hci invalid_hci_parameters))
    arm ctrl s c asynchronous payload =
        if set.params_ok c payload
        then (let (ctrl', res) = set.exec_async ctrl c payload in (ctrl', s, res))
        else (ctrl, s, err (hci invalid_hci_parameters))

    -- The `match` on the opcode.
    unfoldable pub dispatch_cmd :
        List (Command × Arm) → C → S → ℕ → List ℕ → C × S × Result (Unit {0}) (CmdErr E)
    unfolding arm
    dispatch_cmd [] ctrl s opcode payload = (ctrl, s, err (hci unsupported))
    dispatch_cmd ((c, a) ∷ rest) ctrl s opcode payload =
        if set.opcode c == opcode
        then arm ctrl s c a payload
        else dispatch_cmd rest ctrl s opcode payload

    -- `exec_cmd_by_opcode`
    unfoldable pub exec_cmd_by_opcode : C → S → ℕ → List ℕ → C × S × Result (Unit {0}) (CmdErr E)
    unfolding dispatch_cmd
    exec_cmd_by_opcode = dispatch_cmd commands

  body : Command → ℕ → List ℕ → List ℕ
  body c status params =
      set.event_code
      ∷ (1 + 2 + 1 + set.return_len c) % 2 ^ 8
      ∷ 1
      ∷ set.opcode c % 256
      ∷ set.opcode c / 2 ^ 8 % 256
      ∷ status
      ∷ params

  body-packet_len :
      (h : HeaderLengths) (c : Command) (status : ℕ) (params : List ℕ)
      → ((code len : ℕ) (params : List ℕ) → h.event_params_len (code ∷ len ∷ params) ≡ some len)
      → length params ≡ set.return_len c
      → set.return_len c ≤ 251
      → packet_len h event (body c status params) ≡ some (length (body c status params))
  unfolding packet_len body
  body-packet_len h c status params reads whole small =
      rw (reads set.event_code ((1 + 2 + 1 + set.return_len c) % 2 ^ 8) _) (
        ap some {x = (1 + 2 + 1 + set.return_len c) % 2 ^ 8 + 2}
          {y = suc (suc (suc (suc (suc (suc (length params))))))} (omega arith))

  -- The event that answers a synchronous command is one packet: for a header reader that takes the
  -- length of an event from its second byte, a return value of the command's length, at most 251 bytes,
  -- and any answer of the controller, `packet_len` behind the kind byte gives all of the event.
  pub answer-packet_len :
      (h : HeaderLengths) (c : Command) (res : Result (List ℕ) (CmdErr E)) {buf : List ℕ}
      → ((code len : ℕ) (params : List ℕ) → h.event_params_len (code ∷ len ∷ params) ≡ some len)
      → ((ret : List ℕ) → res ≡ ok ret → length ret ≡ set.return_len c)
      → set.return_len c ≤ 251
      → answer c res ≡ ok buf
      → (kind : ℕ) × (body : List ℕ) × (buf ≡ kind ∷ body)
        × (packet_len h event body ≡ some (length body))
  unfolding answer head body
  answer-packet_len h c (ok ret) reads fits small e = (
    4,
    body c set.success ret,
    cc,
    body-packet_len h c set.success ret reads (fits ret refl) small,
  )
  answer-packet_len h c (err (hci e')) reads fits small e =
      let zeros = replicate (set.return_len c) 0 in
      (
        4,
        body c (set.to_status e') zeros,
        cc,
        body-packet_len h c (set.to_status e') zeros reads (length-replicate (set.return_len c) 0)
            small,
      )
  answer-packet_len h c (err (io e')) reads fits small e = absurd cc
