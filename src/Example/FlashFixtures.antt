-- ===== src/Example/FlashFixtures.antt =====
-- A host whose addresses and keys are given by one byte, and a flash with room for one item.
use icmsg_rs.Prelude.{
  take, ◌++◌, ℕ, ◌≡◌, refl, sym, ◌∙◌, ap, true, Option, none, some, List, ◌∷◌, drop, get_or,
  replicate,
}
use icmsg_rs.Machine.{Result, ok, err}
use icmsg_rs.Example.BondStore.{
  SerializationError, encrypted, HostTypes, StoredBondInformation, BondInformation, serialize_addr,
  deserialize_addr, serialize_bond, deserialize_bond,
}
use icmsg_rs.Example.BondStore.Flash.{Storage, IsMap}

-- Addresses and keys that are given by one byte.
abbrev pub host : HostTypes ℕ ℕ
host = record {
  raw = λ a. a ∷ replicate 5 0;
  new = λ bytes. get_or bytes 0 0;
  to_le_bytes = λ k. k ∷ replicate 15 0;
  from_le_bytes = λ bytes. get_or bytes 0 0;
  length-raw = λ a. refl;
  new-raw = λ a. refl;
  length-to_le_bytes = λ k. refl;
  from_le_bytes-to_le_bytes = λ k. refl;
}

-- A flash with room for one item, as bytes.
abbrev pub Flash : Type 0
Flash = Option (List ℕ)

abbrev pub put_value : List ℕ → Result (ℕ × List ℕ) SerializationError → Flash × Result (Unit {0}) ℕ
put_value key (err e) = (none, err 1)
put_value key (ok (m, vb)) = (some (key ++ take m vb), ok tt)

abbrev pub put :
    Result (ℕ × List ℕ) SerializationError
    → (List ℕ → Result (ℕ × List ℕ) SerializationError)
    → Flash × Result (Unit {0}) ℕ
put (err e) value = (none, err 1)
put (ok (n, kb)) value = put_value (take n kb) (value (drop n kb))

abbrev pub get_value :
    ℕ
    → Result (StoredBondInformation ℕ ℕ) SerializationError
    → Result (Option (ℕ × StoredBondInformation ℕ ℕ)) ℕ
get_value k (ok v) = ok (some (k, v))
get_value k (err e) = err 1

abbrev pub get :
    Result (ℕ × ℕ) SerializationError
    → (ℕ → Result (StoredBondInformation ℕ ℕ) SerializationError)
    → Result (Option (ℕ × StoredBondInformation ℕ ℕ)) ℕ
get (ok (k, n)) value = get_value k (value n)
get (err e) value = err 1

abbrev pub next_item : Flash → Result (Option (ℕ × StoredBondInformation ℕ ℕ)) ℕ
next_item none = ok none
next_item (some item) = get (deserialize_addr host item) (λ n. deserialize_bond host (drop n item))

abbrev pub one_item : Storage ℕ ℕ Flash Flash ℕ
one_item = record {
  erase_all = λ s. (none, ok tt);
  store_item =
      λ s buffer k v. put (serialize_addr host k buffer) (λ rest. serialize_bond host v rest);
  fetch_all_items = λ s buffer. ok s;
  next = λ iter buffer. next_item iter;
}

pub one_item-IsMap : IsMap one_item host
unfolding IsMap
one_item-IsMap s s1 s2 buffer kb vb n m n' k k' v v' erased stored key_out value_out key_in
      value_in =
    let put-done : put (serialize_addr host k buffer) (λ rest. serialize_bond host v rest)
        ≡ (some (take n kb ++ take m vb), ok tt) =
      rw (key_out, value_out) refl in
    let at : s2 ≡ some (take n kb ++ take m vb) = ap (λ p. p.0) (sym stored ∙ put-done) in
    (s2, refl, rw (at, key_in, value_in))

abbrev pub bond_info : BondInformation ℕ ℕ
bond_info = record {
  bd_addr = 7;
  irk = some 3;
  security_level = encrypted;
  is_bonded = true;
  ltk = 9;
}
