-- ===== src/Example/BondStore/Flash.antt =====
-- `store_bonding_info` and `load_bonding_info` of app-core/src/ble_bas_peripheral_bonding.rs over the map
-- of sequential_storage.
use icmsg_rs.Prelude.{
  ℕ, ◌≡◌, ◌≢◌, refl, ap, true, Option, none, some, List, ◌++◌, arith, take, drop, replicate,
}
use icmsg_rs.Machine.{Result, ok, err}
use icmsg_rs.Example.BondStore.{
  HostTypes, StoredBondInformation, BondInformation, serialize_addr, deserialize_addr,
  serialize_bond, deserialize_bond, addr_item, bond_item,
}

-- The functions of sequential_storage on the settings region of a flash `S`, with iterators `I`.
pub record Storage (BdAddr LongTermKey S I E : Type 0) : Type 0 where
  pub erase_all : S → S × Result (Unit {0}) E
  pub store_item :
      S → List ℕ → BdAddr → StoredBondInformation BdAddr LongTermKey → S × Result (Unit {0}) E
  pub fetch_all_items : S → List ℕ → Result I E
  pub next : I → List ℕ → Result (Option (BdAddr × StoredBondInformation BdAddr LongTermKey)) E

err-ne-ok : {A E : Type 0} (e : E) {a : A} → err e ≢ ok a
err-ne-ok e h = cc

module _ {BdAddr LongTermKey S I E : Type 0} (storage : Storage BdAddr LongTermKey S I E) where
  store_erased :
      BondInformation BdAddr LongTermKey → S × Result (Unit {0}) E → S × Result (Unit {0}) E
  store_erased info (s, err e) = (s, err e)
  store_erased info (s, ok _) =
      storage.store_item s (replicate 32 0) info.bd_addr
        (record { ltk = info.ltk; security_level = info.security_level })

  -- `store_bonding_info`
  unfoldable pub store_bonding_info :
      S → BondInformation BdAddr LongTermKey → S × Result (Unit {0}) E
  unfolding store_erased
  store_bonding_info s info = store_erased info (storage.erase_all s)

  loaded :
      Result (Option (BdAddr × StoredBondInformation BdAddr LongTermKey)) E
      → Option (BondInformation BdAddr LongTermKey)
  loaded (err e) = none
  loaded (ok none) = none
  loaded (ok (some (key, value))) = some (record {
    bd_addr = key;
    irk = none;
    security_level = value.security_level;
    is_bonded = true;
    ltk = value.ltk;
  })

  load_first : Result I E → Option (BondInformation BdAddr LongTermKey)
  unfolding loaded
  load_first (err e) = none
  load_first (ok iter) = loaded (storage.next iter (replicate 32 0))

  -- `load_bonding_info`
  unfoldable pub load_bonding_info : S → Option (BondInformation BdAddr LongTermKey)
  unfolding load_first
  load_bonding_info s = load_first (storage.fetch_all_items s (replicate 32 0))

  -- What sequential_storage documents of an item that is stored in an erased region: the key and the
  -- value are serialized into the buffer, one behind the other, the item is as many bytes of each as its
  -- serialization returned, and the first item fetched is what these are deserialized to, the value from
  -- behind as many bytes as the deserialization of the key returned.
  unfoldable pub IsMap : HostTypes BdAddr LongTermKey → Type 0
  IsMap host =
      (s s1 s2 : S) (buffer kb vb : List ℕ) (n m n' : ℕ) (k k' : BdAddr)
      (v v' : StoredBondInformation BdAddr LongTermKey)
      → storage.erase_all s ≡ (s1, ok tt)
      → storage.store_item s1 buffer k v ≡ (s2, ok tt)
      → serialize_addr host k buffer ≡ ok (n, kb)
      → serialize_bond host v (drop n kb) ≡ ok (m, vb)
      → deserialize_addr host (take n kb ++ take m vb) ≡ ok (k', n')
      → deserialize_bond host (drop n' (take n kb ++ take m vb)) ≡ ok v'
      → (iter : I) × (storage.fetch_all_items s2 buffer ≡ ok iter)
        × (storage.next iter buffer ≡ ok (some (k', v')))

  load-stored :
      (host : HostTypes BdAddr LongTermKey) (s s' : S) (info : BondInformation BdAddr LongTermKey)
      (erased : S × Result (Unit {0}) E)
      → IsMap host
      → storage.erase_all s ≡ erased
      → store_erased info erased ≡ (s', ok tt)
      → load_bonding_info s' ≡ some (record info { irk = none; is_bonded = true })
  unfolding store_erased load_bonding_info IsMap
  load-stored host s s' info (s1, err e) map erased stored =
      absurd (err-ne-ok e (ap (λ p. p.1) stored))
  load-stored host s s' info (s1, ok _) map erased stored =
      let value : StoredBondInformation BdAddr LongTermKey = record {
        ltk = info.ltk;
        security_level = info.security_level;
      } in
      let (kb, key_out, item_key, whole, behind) =
        addr_item host info.bd_addr (replicate 32 0) (omega arith) in
      let (vb, value_out, item_value) =
        bond_item host value (drop 6 (replicate 32 0)) (omega arith) in
      let (iter, fetched, first) =
        map s s1 s' (replicate 32 0) kb vb 6 17 6 info.bd_addr info.bd_addr value value erased
          stored key_out (rw behind value_out) (item_key (take 17 vb))
          (item_value (take 6 kb) whole) in
      rw (fetched, first)

  -- What the flash holds after a bond is stored without an error is loaded again: the address, the key
  -- and the security level of the bond, as a bonded peer without an identity key.
  pub load-store_bonding_info :
      (host : HostTypes BdAddr LongTermKey) (s s' : S) (info : BondInformation BdAddr LongTermKey)
      → IsMap host
      → store_bonding_info s info ≡ (s', ok tt)
      → load_bonding_info s' ≡ some (record info { irk = none; is_bonded = true })
  unfolding store_bonding_info
  load-store_bonding_info host s s' info map stored =
      load-stored host s s' info (storage.erase_all s) map refl stored
