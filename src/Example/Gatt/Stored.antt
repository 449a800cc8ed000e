-- ===== src/Example/Gatt/Stored.antt =====
-- What `gatt_events_task` leaves in the flash, and the flag `bond_stored`, by the events of its connection.
use icmsg_rs.Prelude.{◌≡◌, ◌≢◌, refl, Bool, true, false, Option, none, some, List, [], ◌∷◌}
use icmsg_rs.Machine.{Result, ok, err}
use icmsg_rs.Example.BondStore.{HostTypes, BondInformation}
use icmsg_rs.Example.BondStore.Flash.{
  Storage, store_bonding_info, load_bonding_info, IsMap, load-store_bonding_info,
}
use icmsg_rs.Example.Gatt.{
  read, write, other, ConnectionEvent, disconnected, pairing_complete, pairing_failed, gatt,
  ignored, panicked, GattState, stored_bond, continue, is_some, boot, gatt_events_task,
}

-- The last bond of a completed pairing, before the link is closed or fails to tell its security level; `bond`
-- is that of the events before.
abbrev pub last_bond : {B : Type 0} → Option B → List (ConnectionEvent B) → Option B
last_bond bond [] = bond
last_bond bond (disconnected ∷ events) = bond
last_bond bond (pairing_complete none ∷ events) = last_bond bond events
last_bond bond (pairing_complete (some b) ∷ events) = last_bond (some b) events
last_bond bond (pairing_failed ∷ events) = last_bond bond events
last_bond bond (gatt other encrypted ∷ events) = last_bond bond events
last_bond bond (gatt read none ∷ events) = bond
last_bond bond (gatt read (some b) ∷ events) = last_bond bond events
last_bond bond (gatt write none ∷ events) = bond
last_bond bond (gatt write (some b) ∷ events) = last_bond bond events
last_bond bond (ignored ∷ events) = last_bond bond events

module _ {BdAddr LongTermKey S I E : Type 0} (flash : Storage BdAddr LongTermKey S I E) where
  -- Whether a flag says that something was loaded.
  abbrev pub IsFlag : Option (BondInformation BdAddr LongTermKey) → Bool → Type 0
  IsFlag none flag = flag ≡ false
  IsFlag (some info) flag = flag ≡ true

  -- The flash and the flag, if the task began on the flash `s` and this was the last bond.
  abbrev pub IsKept : S → Option (BondInformation BdAddr LongTermKey) → S → Bool → Type 0
  IsKept s none storage flag = (storage ≡ s) × IsFlag (load_bonding_info flash s) flag
  IsKept s (some bond) storage flag =
      (load_bonding_info flash storage ≡ some (record bond { irk = none; is_bonded = true }))
      × (flag ≡ true)

  is_some-IsFlag :
      (answer : Option (BondInformation BdAddr LongTermKey)) → IsFlag answer (is_some flash answer)
  unfolding is_some
  is_some-IsFlag none = refl
  is_some-IsFlag (some info) = refl

  module _ (host : HostTypes BdAddr LongTermKey) (map : IsMap flash host) (s : S) where
    stored_bond-IsKept :
        (events : List (ConnectionEvent (BondInformation BdAddr LongTermKey))) (st : GattState S)
        (bond : BondInformation BdAddr LongTermKey) (res : S × Result (Unit {0}) E)
        → ((st : GattState S)
            → (gatt_events_task flash events st).1 ≢ panicked
            → IsKept s (some bond) st.storage st.bond_stored
            → IsKept s
                (last_bond (some bond) events)
                (gatt_events_task flash events st).0.storage
                (gatt_events_task flash events st).0.bond_stored)
        → store_bonding_info flash st.storage bond ≡ res
        → (continue flash (gatt_events_task flash events) (stored_bond flash st res)).1 ≢ panicked
        → IsKept s
            (last_bond (some bond) events)
            (continue flash (gatt_events_task flash events) (stored_bond flash st res)).0.storage
            (continue flash
              (gatt_events_task flash events)
              (stored_bond flash st res)).0.bond_stored
    unfolding continue stored_bond
    stored_bond-IsKept events st bond (s', ok _) later stored ran =
        later (record st { storage = s'; bond_stored = true }) ran
          (load-store_bonding_info flash host st.storage s' bond map stored, refl)
    stored_bond-IsKept events st bond (s', err e) later stored ran = absurd (ran refl)

    events-IsKept :
        (events : List (ConnectionEvent (BondInformation BdAddr LongTermKey)))
        (bond : Option (BondInformation BdAddr LongTermKey)) (st : GattState S)
        → (gatt_events_task flash events st).1 ≢ panicked
        → IsKept s bond st.storage st.bond_stored
        → IsKept s
            (last_bond bond events)
            (gatt_events_task flash events st).0.storage
            (gatt_events_task flash events st).0.bond_stored
    unfolding gatt_events_task
    events-IsKept [] bond st ran kept = kept
    events-IsKept (disconnected ∷ events) bond st ran kept = kept
    events-IsKept (pairing_complete none ∷ events) bond st ran kept =
        events-IsKept events bond st ran kept
    events-IsKept (pairing_complete (some b) ∷ events) bond st ran kept =
        stored_bond-IsKept events st b (store_bonding_info flash st.storage b)
          (events-IsKept events (some b)) refl ran
    events-IsKept (pairing_failed ∷ events) bond st ran kept = events-IsKept events bond st ran kept
    events-IsKept (gatt other encrypted ∷ events) bond st ran kept =
        events-IsKept events bond _ ran kept
    events-IsKept (gatt read none ∷ events) bond st ran kept = kept
    events-IsKept (gatt read (some true) ∷ events) bond st ran kept =
        events-IsKept events bond _ ran kept
    events-IsKept (gatt read (some false) ∷ events) bond st ran kept =
        events-IsKept events bond _ ran kept
    events-IsKept (gatt write none ∷ events) bond st ran kept = kept
    events-IsKept (gatt write (some true) ∷ events) bond st ran kept =
        events-IsKept events bond _ ran kept
    events-IsKept (gatt write (some false) ∷ events) bond st ran kept =
        events-IsKept events bond _ ran kept
    events-IsKept (ignored ∷ events) bond st ran kept = events-IsKept events bond st ran kept

    -- Over a storage that keeps what is documented of sequential_storage, and from the start of `run` on: if
    -- the task does not panic, then the last bond of a completed pairing is loaded from the flash that it
    -- leaves, with its address, key and security level, as a bonded peer without an identity key, and
    -- `bond_stored` is set. If there was none, the flash is as it was, and `bond_stored` says whether a bond
    -- was loaded from it.
    pub gatt_events_task-IsKept :
        (events : List (ConnectionEvent (BondInformation BdAddr LongTermKey)))
        → (gatt_events_task flash events (boot flash s)).1 ≢ panicked
        → IsKept s
            (last_bond none events)
            (gatt_events_task flash events (boot flash s)).0.storage
            (gatt_events_task flash events (boot flash s)).0.bond_stored
    unfolding boot
    gatt_events_task-IsKept events ran =
        events-IsKept events none (boot flash s) ran
          (refl, is_some-IsFlag (load_bonding_info flash s))
