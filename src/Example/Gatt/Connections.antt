-- ===== src/Example/Gatt/Connections.antt =====
-- The loop of `run` in app-core/src/ble_bas_peripheral_bonding.rs: one connection after the other, each
-- with `gatt_events_task` and `custom_task` until one of them ends.
use icmsg_rs.Prelude.{
  ap, ◌∙◌, ℕ, zero, suc, ◌+◌, ◌%◌, ◌≡◌, refl, Bool, true, false, not, some, List, [], ◌∷◌, arith,
  if◌then◌else◌, length, get_or, ◌<◌,
}
use icmsg_rs.Example.BondStore.{HostTypes, BondInformation}
use icmsg_rs.Example.BondStore.Flash.{Storage, load_bonding_info, IsMap}
use icmsg_rs.Example.Gatt.{
  ConnectionEvent, Outcome, running, returned, failed, panicked, GattState, boot, gatt_events_task,
  gatt_events_task-keeps,
}
use icmsg_rs.Example.Gatt.Safety.{
  AllGuarded, turn-guarded, IsLoadable, turn-IsLoadable, boot-IsLoadable,
}

-- What `notify` and `rssi` answer in a turn of `custom_task`: whether they succeed.
pub record Turn : Type 0 where
  pub notify_ok : Bool
  pub rssi_ok : Bool

-- `custom_task` from the counter `tick` on: the values that it notifies.
unfoldable pub custom_task : ℕ → List Turn → List ℕ
custom_task tick [] = []
custom_task tick (turn ∷ turns) =
    let tick' = (tick + 1) % 256 in
    let later = custom_task tick' turns in
    if turn.notify_ok then if turn.rssi_ok then tick' ∷ later else tick' ∷ [] else tick' ∷ []

-- A turn's value before those of the later turns.
abbrev turn_values : ℕ → List ℕ → Bool → Bool → List ℕ
turn_values tick' later notify_ok rssi_ok =
    if notify_ok then if rssi_ok then tick' ∷ later else tick' ∷ [] else tick' ∷ []

turn_values_lem :
    (tick : ℕ) (later : List ℕ) (notify_ok rssi_ok : Bool) (i : ℕ)
    → ((k : ℕ) → k < length later → get_or later k 0 ≡ (tick + 2 + k) % 256)
    → i < length (turn_values ((tick + 1) % 256) later notify_ok rssi_ok)
    → get_or (turn_values ((tick + 1) % 256) later notify_ok rssi_ok) i 0 ≡ (tick + 1 + i) % 256
turn_values_lem tick later true true zero ih h = omega arith
turn_values_lem tick later true false zero ih h = omega arith
turn_values_lem tick later false b zero ih h = omega arith
turn_values_lem tick later true true (suc k) ih h =
    ih k (omega (arith, h))
    ∙ ap (λ n. n % 256) {x = tick + 2 + k} {y = tick + 1 + suc k} (omega arith)
turn_values_lem tick later true false (suc k) ih h = absurd (omega (arith, h))
turn_values_lem tick later false b (suc k) ih h = absurd (omega (arith, h))

-- The notifications count from the start value on, modulo 256.
custom_task_lem :
    (tick : ℕ) (turns : List Turn) (i : ℕ)
    → i < length (custom_task tick turns)
    → get_or (custom_task tick turns) i 0 ≡ (tick + 1 + i) % 256
unfolding custom_task
custom_task_lem tick [] i h = absurd (omega arith)
custom_task_lem tick (turn ∷ turns) i h =
    turn_values_lem tick (custom_task ((tick + 1) % 256) turns) turn.notify_ok turn.rssi_ok i
      (λ k k_lt. custom_task_lem ((tick + 1) % 256) turns k k_lt ∙ omega arith) h

-- What `advertise` answers. A connection comes with what `set_bondable` answers and the events up to the
-- end of the `select`.
pub data Advertised (B : Type 0) : Type 0 where
  advertise_failed : Advertised B
  connected : (settable : Bool) (events : List (ConnectionEvent B)) → Advertised B

module _ {BdAddr LongTermKey S I E : Type 0} (flash : Storage BdAddr LongTermKey S I E) where
  -- With what each connection was told of bonding, and the flash at that time, the last first.
  pub record RunState : Type 0 where
    pub gatt : GattState S
    pub bondable : List (S × Bool)

  unfoldable next_connection :
      (RunState → RunState × Outcome) → RunState → GattState S × Outcome → RunState × Outcome
  next_connection again st (gatt, running) = again (record st { gatt = gatt })
  next_connection again st (gatt, returned) = again (record st { gatt = gatt })
  next_connection again st (gatt, failed) = again (record st { gatt = gatt })
  next_connection again st (gatt, panicked) = (record st { gatt = gatt }, panicked)

  -- The loop of `run`.
  unfoldable pub run :
      List (Advertised (BondInformation BdAddr LongTermKey)) → RunState → RunState × Outcome
  unfolding next_connection gatt_events_task
  run [] st = (st, running)
  run (advertise_failed ∷ later) st = (st, panicked)
  run (connected false events ∷ later) st = (st, panicked)
  run (connected true events ∷ later) st =
      let st' = record st { bondable = (st.gatt.storage, not st.gatt.bond_stored) ∷ st.bondable } in
      next_connection (run later) st' (gatt_events_task flash events st.gatt)

  abbrev pub start_run : S → RunState
  start_run s = record { gatt = boot flash s; bondable = [] }

  -- A connection that was not bondable was made while a bond could be loaded.
  abbrev pub AllBacked : List (S × Bool) → Type 0
  AllBacked [] = Unit
  AllBacked ((s, bondable) ∷ log) =
      (bondable ≡ false
        → (info : BondInformation BdAddr LongTermKey) × (load_bonding_info flash s ≡ some info))
      × AllBacked log

  pub record IsSafe (st : RunState) : Type 0 where
    pub guarded : AllGuarded st.gatt.replies
    pub backed : AllBacked st.bondable

  module _ (host : HostTypes BdAddr LongTermKey) (map : IsMap flash host) where
    backed_now :
        (st : GattState S)
        → IsLoadable flash st running
        → not st.bond_stored ≡ false
        → (info : BondInformation BdAddr LongTermKey) × (load_bonding_info flash st.storage
            ≡ some info)
    backed_now st p h = p (λ x. cc) (stored st.bond_stored h)
      where
        stored : (b : Bool) → not b ≡ false → b ≡ true
        stored true e = refl
        stored false e = absurd cc

    next_connection-IsSafe :
        (again : RunState → RunState × Outcome)
        → ((st : RunState) → IsLoadable flash st.gatt running → IsSafe st → IsSafe (again st).0)
        → (st : RunState) (out : GattState S × Outcome) → IsLoadable flash out.0 out.1
        → AllGuarded out.0.replies
        → AllBacked st.bondable
        → IsSafe (next_connection again st out).0
    unfolding next_connection
    next_connection-IsSafe again ih st (gatt, running) p g b =
        ih (record st { gatt = gatt }) p (record { guarded = g; backed = b })
    next_connection-IsSafe again ih st (gatt, returned) p g b =
        ih (record st { gatt = gatt }) (λ ran. p (λ x. cc)) (record { guarded = g; backed = b })
    next_connection-IsSafe again ih st (gatt, failed) p g b =
        ih (record st { gatt = gatt }) (λ ran. p (λ x. cc)) (record { guarded = g; backed = b })
    next_connection-IsSafe again ih st (gatt, panicked) p g b = record { guarded = g; backed = b }

    run_from-IsSafe :
        (connections : List (Advertised (BondInformation BdAddr LongTermKey))) (st : RunState)
        → IsLoadable flash st.gatt running
        → IsSafe st
        → IsSafe (run connections st).0
    unfolding run
    run_from-IsSafe [] st p safe = safe
    run_from-IsSafe (advertise_failed ∷ later) st p safe = safe
    run_from-IsSafe (connected false events ∷ later) st p safe = safe
    run_from-IsSafe (connected true events ∷ later) st p safe =
        next_connection-IsSafe (run later) (run_from-IsSafe later)
          (record st { bondable = (st.gatt.storage, not st.gatt.bond_stored) ∷ st.bondable })
          (gatt_events_task flash events st.gatt)
          (gatt_events_task-keeps flash (IsLoadable flash) (turn-IsLoadable flash host map) events
            st.gatt p)
          (gatt_events_task-keeps flash (λ g o. AllGuarded g.replies) (turn-guarded flash) events
            st.gatt safe.guarded)
          (backed_now st.gatt p, safe.backed)

    -- Over a storage that keeps what is documented of sequential_storage, whatever connections and events
    -- come from the start of `run` on: a connection is refused bonding only while a bond can be loaded from
    -- the flash, and on every connection a read or a write is accepted only on an encrypted link and
    -- rejected only on one without encryption.
    pub run-IsSafe :
        (connections : List (Advertised (BondInformation BdAddr LongTermKey))) (s : S)
        → IsSafe (run connections (start_run s)).0
    unfolding boot
    run-IsSafe connections s =
        run_from-IsSafe connections (start_run s) (boot-IsLoadable flash s)
          (record { guarded = tt; backed = tt })
