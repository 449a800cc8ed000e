-- ===== src/Example/Hci/Short.antt =====
-- The replies of `exec_cmd_by_opcode` of net-core/src/cmd_dispatch.rs fit into a message.
use icmsg_rs.Prelude.{
  ◌<◌, ℕ, ◌≤◌, ◌≡◌, refl, Bool, true, false, Option, none, some, List, arith, if◌then◌else◌, length,
  length-replicate,
}
use icmsg_rs.Machine.{Result, ok, err}
use icmsg_rs.Example.Hci.{
  PacketKind, cmd, acl_data, sync_data, event, iso_data, CmdErr, hci, io, Opcode,
  parse_cmd_after_h4,
}
use icmsg_rs.Example.Hci.Replies.{DataPath, into_inner, command_reply, kind_reply, packet_reply}
use icmsg_rs.Transport.Queue.{footprint}
use icmsg_rs.Example.Hci.Task.{listed}
use icmsg_rs.Example.Hci.Answers.{IsShortReply}
use icmsg_rs.Example.Dispatch.{CommandSet, head, answer}
use icmsg_rs.Example.Dispatch.Replies.{arm_of, bytes_of, reply_of}
use icmsg_rs.Example.Dispatch.Commands.{Command, Arm, synchronous, asynchronous, commands}

-- Each command's return value has the command's length, which an event has room for.
pub record IsSized {C E : Type 0} (set : CommandSet C E) : Type 0 where
  pub fits :
      (ctrl : C) (c : Command) (payload ret : List ℕ)
      → (set.exec_sync ctrl c payload).1 ≡ ok ret
      → length ret ≡ set.return_len c
  pub small : (c : Command) → set.return_len c ≤ 251

-- A reply of at most as many bytes as an event has.
abbrev IsEvent : Option (List ℕ) → Type 0
IsEvent none = Unit
IsEvent (some buf) = length buf ≤ 258

IsEvent-short : (reply : Option (List ℕ)) → IsEvent reply → IsShortReply reply
IsEvent-short none fits = tt
IsEvent-short (some buf) fits = omega (arith, fits)

IsEvent-room : (reply : Option (List ℕ)) → IsEvent reply → footprint (listed reply) ≤ 264
IsEvent-room none fits = omega arith
IsEvent-room (some buf) fits = omega (arith, fits)

IsEvent-if :
    (b : Bool) (reply : Option (List ℕ)) → IsEvent reply → IsEvent (if b then reply else none)
IsEvent-if true reply fits = fits
IsEvent-if false reply fits = tt

module _ {C E : Type 0} (set : CommandSet C E) (sized : IsSized set) where
  answer-IsEvent :
      (c : Command) (res : Result (List ℕ) (CmdErr E))
      → ((ret : List ℕ) → res ≡ ok ret → length ret ≡ set.return_len c)
      → IsEvent (bytes_of set (answer set c res))
  unfolding answer head
  answer-IsEvent c (ok ret) fits = omega (arith, fits ret refl, sized.small c)
  answer-IsEvent c (err (hci e)) fits =
      omega (arith, length-replicate {A = ℕ} (set.return_len c) 0, sized.small c)
  answer-IsEvent c (err (io e)) fits = tt

  reply_of-IsEvent :
      (ctrl : C) (payload : List ℕ) (arm : Option (Command × Arm))
      → IsEvent (reply_of set ctrl payload arm)
  reply_of-IsEvent ctrl payload none = tt
  reply_of-IsEvent ctrl payload (some (c, asynchronous)) = tt
  reply_of-IsEvent ctrl payload (some (c, synchronous)) =
      IsEvent-if (set.params_ok c payload) _
        (answer-IsEvent c (set.exec_sync ctrl c payload).1 (sized.fits ctrl c payload))

  module _ (path : DataPath C E) (ctrl : C) where
    command_reply-IsEvent :
        (parsed : Result (Opcode × List ℕ) (CmdErr E))
        → IsEvent (command_reply set path ctrl parsed)
    command_reply-IsEvent (err e) = tt
    command_reply-IsEvent (ok (opcode, payload)) =
        reply_of-IsEvent ctrl payload (arm_of set commands (into_inner opcode))

    kind_reply-IsEvent :
        (kind : Option (PacketKind × List ℕ)) → IsEvent (kind_reply set path ctrl kind)
    kind_reply-IsEvent none = tt
    kind_reply-IsEvent (some (cmd, rest)) = command_reply-IsEvent (parse_cmd_after_h4 rest)
    kind_reply-IsEvent (some (acl_data, rest)) = tt
    kind_reply-IsEvent (some (sync_data, rest)) = tt
    kind_reply-IsEvent (some (event, rest)) = tt
    kind_reply-IsEvent (some (iso_data, rest)) = tt

    -- Whatever the host sends, the reply is an event of at most 258 bytes.
    pub packet_reply-IsEvent : (pkt : List ℕ) → IsEvent (packet_reply set path ctrl pkt)
    unfolding packet_reply
    packet_reply-IsEvent pkt = kind_reply-IsEvent (path.packet_kind pkt)

    pub packet_reply-short : (pkt : List ℕ) → IsShortReply (packet_reply set path ctrl pkt)
    packet_reply-short pkt =
        IsEvent-short (packet_reply set path ctrl pkt) (packet_reply-IsEvent pkt)

    -- A ring of more than 264 bytes has room for a reply.
    pub packet_reply-room :
        (pkt : List ℕ) {size : ℕ}
        → 264 < size
        → footprint (listed (packet_reply set path ctrl pkt)) < size
    packet_reply-room pkt large =
        omega (arith, IsEvent-room (packet_reply set path ctrl pkt) (packet_reply-IsEvent pkt))
