-- ===== src/Example/Gatt/Safety.antt =====
-- What holds whenever `gatt_events_task` ends: which requests were accepted, and what the flag
-- `bond_stored` says of the flash.
use icmsg_rs.Prelude.{◌≡◌, ◌≢◌, refl, Bool, true, false, Option, none, some, List, [], ◌∷◌}
use icmsg_rs.Machine.{Result, ok, err}
use icmsg_rs.Example.BondStore.{HostTypes, BondInformation}
use icmsg_rs.Example.BondStore.Flash.{
  Storage, store_bonding_info, load_bonding_info, IsMap, load-store_bonding_info,
}
use icmsg_rs.Example.Gatt.{
  GattEvent, read, write, other, ConnectionEvent, disconnected, pairing_complete, pairing_failed,
  gatt, ignored, Reply, accept, reject, reply_to, Outcome, running, panicked, GattState,
  stored_bond, replied, is_some, boot, handle_event, gatt_events_task, gatt_events_task-keeps,
}

-- What a reply says of the link: an access is accepted on an encrypted one and rejected on another.
abbrev pub IsGuarded : GattEvent × Option Bool × Reply → Type 0
IsGuarded (other, encrypted, accept) = Unit
IsGuarded (read, encrypted, accept) = encrypted ≡ some true
IsGuarded (write, encrypted, accept) = encrypted ≡ some true
IsGuarded (e, encrypted, reject) = encrypted ≡ some false

abbrev pub AllGuarded : List (GattEvent × Option Bool × Reply) → Type 0
AllGuarded [] = Unit
AllGuarded (r ∷ rs) = IsGuarded r × AllGuarded rs

module _ {BdAddr LongTermKey S I E : Type 0} (flash : Storage BdAddr LongTermKey S I E) where
  stored_bond-guarded :
      (st : GattState S) (res : S × Result (Unit {0}) E)
      → AllGuarded st.replies
      → AllGuarded (stored_bond flash st res).0.replies
  unfolding stored_bond
  stored_bond-guarded st (s, ok _) h = h
  stored_bond-guarded st (s, err e) h = h

  replied-guarded :
      (st : GattState S) (e : GattEvent) (encrypted : Option Bool)
      → AllGuarded st.replies
      → AllGuarded (replied flash st e encrypted (reply_to e encrypted)).0.replies
  unfolding replied reply_to
  replied-guarded st other encrypted h = (tt, h)
  replied-guarded st read none h = h
  replied-guarded st read (some true) h = (refl, h)
  replied-guarded st read (some false) h = (refl, h)
  replied-guarded st write none h = h
  replied-guarded st write (some true) h = (refl, h)
  replied-guarded st write (some false) h = (refl, h)

  pub turn-guarded :
      (st : GattState S) (e : ConnectionEvent (BondInformation BdAddr LongTermKey))
      → AllGuarded st.replies
      → AllGuarded (handle_event flash st e).0.replies
  unfolding handle_event
  turn-guarded st disconnected h = h
  turn-guarded st (pairing_complete none) h = h
  turn-guarded st (pairing_complete (some bond)) h =
      stored_bond-guarded st (store_bonding_info flash st.storage bond) h
  turn-guarded st pairing_failed h = h
  turn-guarded st (gatt e encrypted) h = replied-guarded st e encrypted h
  turn-guarded st ignored h = h

  -- Whatever events come, a read or write that the task accepts was made on an encrypted link, and what
  -- it rejects was made on a link without encryption.
  gatt_events_task-guarded :
      (events : List (ConnectionEvent (BondInformation BdAddr LongTermKey))) (s : S)
      → AllGuarded (gatt_events_task flash events (boot flash s)).0.replies
  unfolding boot
  gatt_events_task-guarded events s =
      gatt_events_task-keeps flash (λ st o. AllGuarded st.replies) turn-guarded events
        (boot flash s) tt

  -- A bond that is recorded as stored can be loaded, unless the task has panicked.
  abbrev pub IsLoadable : GattState S → Outcome → Type 0
  IsLoadable st o =
      o ≢ panicked
      → st.bond_stored ≡ true
      → (info : BondInformation BdAddr LongTermKey) × (load_bonding_info flash st.storage
          ≡ some info)

  found :
      (s : S) (answer : Option (BondInformation BdAddr LongTermKey))
      → load_bonding_info flash s ≡ answer
      → is_some flash answer ≡ true
      → (info : BondInformation BdAddr LongTermKey) × (load_bonding_info flash s ≡ some info)
  unfolding is_some
  found s none e h = absurd cc
  found s (some info) e h = (info, e)

  pub boot-IsLoadable : (s : S) → IsLoadable (boot flash s) running
  unfolding boot
  boot-IsLoadable s ran h = found s (load_bonding_info flash s) refl h

  module _ (host : HostTypes BdAddr LongTermKey) (map : IsMap flash host) where
    stored_bond-IsLoadable :
        (st : GattState S) (bond : BondInformation BdAddr LongTermKey)
        (res : S × Result (Unit {0}) E)
        → store_bonding_info flash st.storage bond ≡ res
        → IsLoadable (stored_bond flash st res).0 (stored_bond flash st res).1
    unfolding stored_bond
    stored_bond-IsLoadable st bond (s, ok _) e ran h =
        (_, load-store_bonding_info flash host st.storage s bond map e)
    stored_bond-IsLoadable st bond (s, err e') e ran h = absurd (ran refl)

    replied-IsLoadable :
        (st : GattState S) (e : GattEvent) (encrypted : Option Bool) (reply : Option Reply)
        → IsLoadable st running
        → IsLoadable (replied flash st e encrypted reply).0 (replied flash st e encrypted reply).1
    unfolding replied
    replied-IsLoadable st e encrypted none p ran h = p (λ x. cc) h
    replied-IsLoadable st e encrypted (some reply) p ran h = p (λ x. cc) h

    pub turn-IsLoadable :
        (st : GattState S) (e : ConnectionEvent (BondInformation BdAddr LongTermKey))
        → IsLoadable st running
        → IsLoadable (handle_event flash st e).0 (handle_event flash st e).1
    unfolding handle_event
    turn-IsLoadable st disconnected p ran h = p (λ x. cc) h
    turn-IsLoadable st (pairing_complete none) p ran h = p ran h
    turn-IsLoadable st (pairing_complete (some bond)) p ran h =
        stored_bond-IsLoadable st bond (store_bonding_info flash st.storage bond) refl ran h
    turn-IsLoadable st pairing_failed p ran h = p ran h
    turn-IsLoadable st (gatt e encrypted) p ran h =
        replied-IsLoadable st e encrypted (reply_to e encrypted) p ran h
    turn-IsLoadable st ignored p ran h = p ran h
