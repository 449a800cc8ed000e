-- ===== src/Example/Gatt.antt =====
-- `gatt_events_task` of app-core/src/ble_bas_peripheral_bonding.rs: the events of a connection as a list,
-- the flash and the flag `bond_stored` as state, the replies as a list, the last first.
pub mod Safety
pub mod Stored
pub mod Connections
use icmsg_rs.Prelude.{
  ℕ, ◌≡◌, ◌≢◌, refl, ap, Bool, true, false, Option, none, some, List, [], ◌∷◌, ◌++◌,
}
use icmsg_rs.Machine.{Result, ok, err}
use icmsg_rs.Example.BondStore.{HostTypes, BondInformation}
use icmsg_rs.Example.BondStore.Flash.{
  Storage, store_bonding_info, load_bonding_info, IsMap, load-store_bonding_info,
}

-- `GattEvent`: the requests that the task tells apart.
pub data GattEvent : Type 0 where
  read write other : GattEvent

-- `GattConnectionEvent`; a request comes with what `security_level()?.encrypted()` then answers, `none` if
-- it fails.
pub data ConnectionEvent (B : Type 0) : Type 0 where
  disconnected : ConnectionEvent B
  pairing_complete : Option B → ConnectionEvent B
  pairing_failed : ConnectionEvent B
  gatt : GattEvent → Option Bool → ConnectionEvent B
  ignored : ConnectionEvent B

-- `event.accept()`, and `event.reject(code)` with INSUFFICIENT_ENCRYPTION.
pub data Reply : Type 0 where
  accept reject : Reply

-- The reply to a request; `none` is the `?` on a failed `security_level`.
unfoldable pub reply_to : GattEvent → Option Bool → Option Reply
reply_to other encrypted = some accept
reply_to read (some true) = some accept
reply_to read (some false) = some reject
reply_to read none = none
reply_to write (some true) = some accept
reply_to write (some false) = some reject
reply_to write none = none

-- Where the task stands behind the events: still at work, returned, returned an error, or panicked in
-- the `unwrap` of a failed store.
pub data Outcome : Type 0 where
  running returned failed panicked : Outcome

pub record GattState (S : Type 0) : Type 0 where
  pub storage : S
  pub bond_stored : Bool
  pub replies : List (GattEvent × Option Bool × Reply)

module _ {BdAddr LongTermKey S I E : Type 0} (flash : Storage BdAddr LongTermKey S I E) where
  unfoldable stored_bond : GattState S → S × Result (Unit {0}) E → GattState S × Outcome
  stored_bond st (s, ok _) = (record st { storage = s; bond_stored = true }, running)
  stored_bond st (s, err e) = (record st { storage = s }, panicked)

  unfoldable replied : GattState S → GattEvent → Option Bool → Option Reply → GattState S × Outcome
  replied st e encrypted none = (st, failed)
  replied st e encrypted (some reply) =
      (record st { replies = (e, encrypted, reply) ∷ st.replies }, running)

  -- One turn of the loop.
  unfoldable handle_event :
      GattState S → ConnectionEvent (BondInformation BdAddr LongTermKey) → GattState S × Outcome
  unfolding stored_bond replied reply_to store_bonding_info
  handle_event st disconnected = (st, returned)
  handle_event st (pairing_complete none) = (st, running)
  handle_event st (pairing_complete (some bond)) =
      stored_bond st (store_bonding_info flash st.storage bond)
  handle_event st pairing_failed = (st, running)
  handle_event st (gatt e encrypted) = replied st e encrypted (reply_to e encrypted)
  handle_event st ignored = (st, running)

  unfoldable continue :
      (GattState S → GattState S × Outcome) → GattState S × Outcome → GattState S × Outcome
  continue rest (st, running) = rest st
  continue rest (st, returned) = (st, returned)
  continue rest (st, failed) = (st, failed)
  continue rest (st, panicked) = (st, panicked)

  -- `gatt_events_task`
  unfoldable pub gatt_events_task :
      List (ConnectionEvent (BondInformation BdAddr LongTermKey))
      → GattState S
      → GattState S × Outcome
  unfolding handle_event continue
  gatt_events_task [] st = (st, running)
  gatt_events_task (e ∷ events) st = continue (gatt_events_task events) (handle_event st e)

  -- `run`, before the first connection: whether a bond is stored.
  unfoldable is_some : Option (BondInformation BdAddr LongTermKey) → Bool
  is_some none = false
  is_some (some info) = true

  unfoldable pub boot : S → GattState S
  unfolding is_some load_bonding_info
  boot s = record { storage = s; bond_stored = is_some (load_bonding_info flash s); replies = [] }

  -- A property of the state that every turn keeps holds at the end of the task.
  module _ (P : GattState S → Outcome → Type 0) where
    continue-keeps :
        (rest : GattState S → GattState S × Outcome) (out : GattState S × Outcome)
        → ((st : GattState S) → P st running → P (rest st).0 (rest st).1)
        → P out.0 out.1
        → P (continue rest out).0 (continue rest out).1
    unfolding continue
    continue-keeps rest (st, running) keeps p = keeps st p
    continue-keeps rest (st, returned) keeps p = p
    continue-keeps rest (st, failed) keeps p = p
    continue-keeps rest (st, panicked) keeps p = p

    gatt_events_task-keeps :
        ((st : GattState S) (e : ConnectionEvent (BondInformation BdAddr LongTermKey))
          → P st running
          → P (handle_event st e).0 (handle_event st e).1)
        → (events : List (ConnectionEvent (BondInformation BdAddr LongTermKey))) (st : GattState S)
        → P st running
        → P (gatt_events_task events st).0 (gatt_events_task events st).1
    unfolding gatt_events_task
    gatt_events_task-keeps turn [] st p = p
    gatt_events_task-keeps turn (e ∷ events) st p =
        continue-keeps (gatt_events_task events) (handle_event st e)
          (gatt_events_task-keeps turn events) (turn st e p)
