-- ===== src/Example/Tests.antt =====
-- The example at concrete inputs, and an instance of each theorem of the modules beside this one that has
-- hypotheses.
use icmsg_rs.Prelude.{
  ℕ, ◌≡◌, ◌∙◌, refl, sym, ap, true, false, none, some, List, [], ◌∷◌, ◌++◌, arith, length,
  replicate,
}
use icmsg_rs.Machine.{Result, ok, err}
use icmsg_rs.Transport.Region.{message_too_big}
use icmsg_rs.Example.Hci.{event, CmdErr, packet_len, receive_task}
use icmsg_rs.Example.Dispatch.{answer, answer-packet_len}
use icmsg_rs.Example.Dispatch.Commands.{le_rand}
use icmsg_rs.Example.FlashFixtures.{host, one_item, one_item-IsMap, bond_info}
use icmsg_rs.Example.Fixtures.{recorder, lengths, set}
use icmsg_rs.Example.BondStore.{
  encrypted, StoredBondInformation, BondInformation, serialize_addr, serialize_bond,
  deserialize_bond, bond_roundtrip,
}
use icmsg_rs.Example.BondStore.Flash.{
  store_bonding_info, load_bonding_info, load-store_bonding_info,
}
use icmsg_rs.Example.Gatt.{
  read, write as write_request, ConnectionEvent, disconnected, pairing_complete, gatt, accept,
  reject, returned, panicked, boot, gatt_events_task,
}
use icmsg_rs.Example.Gatt.Connections.{
  Advertised, connected, advertise_failed, custom_task, run, start_run, IsSafe, run-IsSafe,
}
use icmsg_rs.Example.Gatt.Stored.{last_bond, IsKept, gatt_events_task-IsKept}

-- The task ends with the first error of `recv`.
receive_two :
    receive_task recorder []
      (ok (2 ∷ 7 ∷ []) ∷ ok (2 ∷ 8 ∷ []) ∷ err message_too_big ∷ ok (2 ∷ 9 ∷ []) ∷ [])
    ≡ ((8 ∷ []) ∷ (7 ∷ []) ∷ [], true)
unfolding receive_task
receive_two = refl

abbrev returned_len : Result (List ℕ) (CmdErr ℕ) → ℕ
returned_len (ok ret) = length ret
returned_len (err e) = 0

answer-packet_len_example :
    (kind : ℕ) × (body : List ℕ) × (4 ∷ 14 ∷ 12 ∷ 1 ∷ 24 ∷ 32 ∷ 0 ∷ replicate 8 5 ≡ kind ∷ body)
    × (packet_len lengths event body ≡ some (length body))
unfolding answer
answer-packet_len_example =
    answer-packet_len set lengths le_rand (ok (replicate 8 5)) (λ code len params. refl)
      (λ ret e. ap returned_len (sym e)) (omega arith) refl

abbrev bond_9 : StoredBondInformation ℕ ℕ
bond_9 = record { ltk = 9; security_level = encrypted }

bond_roundtrip_example :
    (out : List ℕ) × (serialize_bond host bond_9 (replicate 20 1) ≡ ok (17, out))
    × (length out ≡ 20)
    × (deserialize_bond host out ≡ ok bond_9)
bond_roundtrip_example = bond_roundtrip host bond_9 (replicate 20 1) (omega arith)

stored :
    store_bonding_info one_item none bond_info
    ≡ (some (7 ∷ replicate 5 0 ++ (9 ∷ replicate 15 0 ++ (1 ∷ []))), ok tt)
unfolding store_bonding_info serialize_addr serialize_bond
stored = refl

load-store_bonding_info_example :
    load_bonding_info one_item (some (7 ∷ replicate 5 0 ++ (9 ∷ replicate 15 0 ++ (1 ∷ []))))
    ≡ some (record bond_info { irk = none; is_bonded = true })
load-store_bonding_info_example =
    load-store_bonding_info one_item host none _ bond_info one_item-IsMap stored

-- A read before pairing, the pairing with a bond, and a write behind it.
abbrev pairing : List (ConnectionEvent (BondInformation ℕ ℕ))
pairing =
    gatt read (some false)
    ∷ pairing_complete (some bond_info)
    ∷ gatt write_request (some true)
    ∷ disconnected
    ∷ []

pairing_run :
    (gatt_events_task one_item pairing (boot one_item none)).0.replies
    ≡ (write_request, some true, accept) ∷ (read, some false, reject) ∷ []
unfolding gatt_events_task boot serialize_addr serialize_bond
pairing_run = refl

pairing_returns : (gatt_events_task one_item pairing (boot one_item none)).1 ≡ returned
unfolding gatt_events_task boot serialize_addr serialize_bond
pairing_returns = refl

gatt_events_task-IsKept_example :
    IsKept one_item none
      (last_bond none pairing)
      (gatt_events_task one_item pairing (boot one_item none)).0.storage
      (gatt_events_task one_item pairing (boot one_item none)).0.bond_stored
gatt_events_task-IsKept_example =
    gatt_events_task-IsKept one_item host one_item-IsMap none pairing
      (λ e. let impossible : returned ≡ panicked = sym pairing_returns ∙ e in cc)

-- A connection that stores a bond, a second one, and a failure to advertise.
abbrev connections : List (Advertised (BondInformation ℕ ℕ))
connections = connected true pairing ∷ connected true (disconnected ∷ []) ∷ advertise_failed ∷ []

-- The second connection is not bondable.
second_refused :
    (run one_item connections (start_run one_item none)).0.bondable
    ≡ (some (7 ∷ replicate 5 0 ++ (9 ∷ replicate 15 0 ++ (1 ∷ []))), false) ∷ (none, true) ∷ []
unfolding run boot serialize_addr serialize_bond
second_refused = refl

run-IsSafe_example : IsSafe one_item (run one_item connections (start_run one_item none)).0
run-IsSafe_example = run-IsSafe one_item host one_item-IsMap connections none

-- The counter wraps round, and the third turn's RSSI fails.
ticks_wrap :
    custom_task 254 (
      record { notify_ok = true; rssi_ok = true }
      ∷ record { notify_ok = true; rssi_ok = true }
      ∷ record { notify_ok = true; rssi_ok = false }
      ∷ record { notify_ok = true; rssi_ok = true }
      ∷ [])
    ≡ 255 ∷ 0 ∷ 1 ∷ []
unfolding custom_task
ticks_wrap = refl
