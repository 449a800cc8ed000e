-- ===== src/Example/BondStore.antt =====
-- app-core/src/ble_bas_peripheral_bonding.rs: the bytes of a stored bond, and how a bond is stored and
-- loaded (Flash).
pub mod Flash
use icmsg_rs.Prelude.{
  append_assoc, ℕ, zero, suc, ◌+◌, ◌≤◌, ◌<◌, ◌≡◌, refl, ap, Bool, true, false, Option, none, some,
  List, [], ◌∷◌, ◌++◌, arith, ltb, le→not-ltb, lt→ltb, if◌then◌else◌, length, take, drop, get_or,
  replicate, take-append, length-append, length-drop, sym, ◌∙◌, get_or-append_right,
}
use icmsg_rs.Machine.{Result, ok, err}

-- `SerializationError` of sequential_storage and `SecurityLevel` of trouble_host, as far as the code
-- names them.
pub data SerializationError : Type 0 where
  buffer_too_small invalid_data : SerializationError

pub data SecurityLevel : Type 0 where
  no_encryption encrypted encrypted_authenticated : SecurityLevel

-- `BdAddr` and `LongTermKey` of trouble_host with their bytes, and what is documented of these.
pub record HostTypes (BdAddr LongTermKey : Type 0) : Type 0 where
  pub raw : BdAddr → List ℕ
  pub new : List ℕ → BdAddr
  pub to_le_bytes : LongTermKey → List ℕ
  pub from_le_bytes : List ℕ → LongTermKey
  pub length-raw : (a : BdAddr) → length (raw a) ≡ 6
  pub new-raw : (a : BdAddr) → new (raw a) ≡ a
  pub length-to_le_bytes : (k : LongTermKey) → length (to_le_bytes k) ≡ 16
  pub from_le_bytes-to_le_bytes : (k : LongTermKey) → from_le_bytes (to_le_bytes k) ≡ k

module _ (BdAddr LongTermKey : Type 0) where
  -- `StoredBondInformation`
  pub record StoredBondInformation : Type 0 where
    pub ltk : LongTermKey
    pub security_level : SecurityLevel

  -- `BondInformation` of trouble_host; its `irk` is always `None` here.
  pub record BondInformation : Type 0 where
    pub bd_addr : BdAddr
    pub irk : Option ℕ
    pub security_level : SecurityLevel
    pub is_bonded : Bool
    pub ltk : LongTermKey

level_byte : SecurityLevel → ℕ
level_byte no_encryption = 0
level_byte encrypted = 1
level_byte encrypted_authenticated = 2

level_of_byte : ℕ → Result SecurityLevel SerializationError
level_of_byte zero = ok no_encryption
level_of_byte (suc zero) = ok encrypted
level_of_byte (suc (suc zero)) = ok encrypted_authenticated
level_of_byte (suc (suc (suc n))) = err invalid_data

level_of_byte-level_byte : (l : SecurityLevel) → level_of_byte (level_byte l) ≡ ok l
unfolding level_byte level_of_byte
level_of_byte-level_byte no_encryption = refl
level_of_byte-level_byte encrypted = refl
level_of_byte-level_byte encrypted_authenticated = refl

drop-append : (xs ys : List ℕ) → drop (length xs) (xs ++ ys) ≡ ys
drop-append [] ys = refl
drop-append (x ∷ xs) ys = drop-append xs ys

module _ {BdAddr LongTermKey : Type 0} (host : HostTypes BdAddr LongTermKey) where
  -- `StoredAddr::serialize_into`, with the buffer it leaves. `StoredAddr` is the address in it.
  unfoldable pub serialize_addr : BdAddr → List ℕ → Result (ℕ × List ℕ) SerializationError
  serialize_addr self buffer =
      if ltb (length buffer) 6 then err buffer_too_small else ok (6, host.raw self ++ drop 6 buffer)

  -- `StoredAddr::deserialize_from`
  unfoldable pub deserialize_addr : List ℕ → Result (BdAddr × ℕ) SerializationError
  deserialize_addr buffer =
      if ltb (length buffer) 6 then err buffer_too_small else ok (host.new (take 6 buffer), 6)

  -- `StoredBondInformation::serialize_into`
  unfoldable pub serialize_bond :
      StoredBondInformation BdAddr LongTermKey → List ℕ → Result (ℕ × List ℕ) SerializationError
  unfolding level_byte
  serialize_bond self buffer =
      if ltb (length buffer) 17
      then err buffer_too_small
      else ok (17, host.to_le_bytes self.ltk ++ (level_byte self.security_level ∷ drop 17 buffer))

  bond_of :
      LongTermKey
      → Result SecurityLevel SerializationError
      → Result (StoredBondInformation BdAddr LongTermKey) SerializationError
  bond_of ltk (ok level) = ok (record { ltk = ltk; security_level = level })
  bond_of ltk (err e) = err e

  -- `StoredBondInformation::deserialize_from`
  unfoldable pub deserialize_bond :
      List ℕ → Result (StoredBondInformation BdAddr LongTermKey) SerializationError
  unfolding bond_of level_of_byte
  deserialize_bond buffer =
      if ltb (length buffer) 17
      then err buffer_too_small
      else bond_of (host.from_le_bytes (take 16 buffer)) (level_of_byte (get_or buffer 16 0))

  take-raw : (a : BdAddr) (rest : List ℕ) → take 6 (host.raw a ++ rest) ≡ host.raw a
  take-raw a rest =
      ap (λ n. take n (host.raw a ++ rest)) (sym (host.length-raw a))
      ∙ take-append (host.raw a) rest

  deserialize_addr-raw :
      (a : BdAddr) (rest : List ℕ) → deserialize_addr (host.raw a ++ rest) ≡ ok (a, 6)
  unfolding deserialize_addr
  deserialize_addr-raw a rest = rw (
    le→not-ltb (length (host.raw a ++ rest)) 6
        (omega (arith, length-append (host.raw a) rest, host.length-raw a)),
    take-raw a rest,
    host.new-raw a,
  )

  -- A buffer of at least 6 bytes takes an address, and keeps its length; reading its front gives the
  -- address and the length back.
  addr_roundtrip :
      (a : BdAddr) (buffer : List ℕ)
      → 6 ≤ length buffer
      → (out : List ℕ) × (serialize_addr a buffer ≡ ok (6, out))
        × (length out ≡ length buffer)
        × (deserialize_addr out ≡ ok (a, 6))
  unfolding serialize_addr
  addr_roundtrip a buffer h = (
    host.raw a ++ drop 6 buffer,
    rw (le→not-ltb (length buffer) 6 h),
    omega (
      arith,
      length-append (host.raw a) (drop 6 buffer),
      length-drop 6 buffer,
      host.length-raw a,
    ),
    deserialize_addr-raw a (drop 6 buffer),
  )

  take-ltk :
      (k : LongTermKey) (rest : List ℕ) → take 16 (host.to_le_bytes k ++ rest) ≡ host.to_le_bytes k
  take-ltk k rest =
      ap (λ n. take n (host.to_le_bytes k ++ rest)) (sym (host.length-to_le_bytes k))
      ∙ take-append (host.to_le_bytes k) rest

  level-at :
      (k : LongTermKey) (b : ℕ) (rest : List ℕ) → get_or (host.to_le_bytes k ++ (b ∷ rest)) 16 0 ≡ b
  level-at k b rest =
      get_or-append_right (host.to_le_bytes k) (b ∷ rest) 16 0 0
        (omega (arith, host.length-to_le_bytes k))

  deserialize_bond-bytes :
      (v : StoredBondInformation BdAddr LongTermKey) (rest : List ℕ)
      → deserialize_bond (host.to_le_bytes v.ltk ++ (level_byte v.security_level ∷ rest)) ≡ ok v
  unfolding deserialize_bond bond_of
  deserialize_bond-bytes v rest = rw (
    le→not-ltb (length (host.to_le_bytes v.ltk ++ (level_byte v.security_level ∷ rest))) 17 (
        omega (
          arith,
          length-append (host.to_le_bytes v.ltk) (level_byte v.security_level ∷ rest),
          host.length-to_le_bytes v.ltk,
        )),
    take-ltk v.ltk (level_byte v.security_level ∷ rest),
    level-at v.ltk (level_byte v.security_level) rest,
    level_of_byte-level_byte v.security_level,
    host.from_le_bytes-to_le_bytes v.ltk,
  )

  -- A buffer of at least 17 bytes takes a bond, and keeps its length; reading it gives the bond back.
  pub bond_roundtrip :
      (v : StoredBondInformation BdAddr LongTermKey) (buffer : List ℕ)
      → 17 ≤ length buffer
      → (out : List ℕ) × (serialize_bond v buffer ≡ ok (17, out))
        × (length out ≡ length buffer)
        × (deserialize_bond out ≡ ok v)
  unfolding serialize_bond
  bond_roundtrip v buffer h = (
    host.to_le_bytes v.ltk ++ (level_byte v.security_level ∷ drop 17 buffer),
    rw (le→not-ltb (length buffer) 17 h),
    omega (
      arith,
      length-append (host.to_le_bytes v.ltk) (level_byte v.security_level ∷ drop 17 buffer),
      length-drop 17 buffer,
      host.length-to_le_bytes v.ltk,
    ),
    deserialize_bond-bytes v (drop 17 buffer),
  )

  -- What the items of the map are: the bytes that the serializations return, one behind the other.
  drop-raw : (a : BdAddr) (rest : List ℕ) → drop 6 (host.raw a ++ rest) ≡ rest
  drop-raw a rest =
      ap (λ n. drop n (host.raw a ++ rest)) (sym (host.length-raw a))
      ∙ drop-append (host.raw a) rest

  addr_item :
      (a : BdAddr) (buffer : List ℕ)
      → 6 ≤ length buffer
      → (out : List ℕ) × (serialize_addr a buffer ≡ ok (6, out))
        × ((rest : List ℕ) → deserialize_addr (take 6 out ++ rest) ≡ ok (a, 6))
        × (length (take 6 out) ≡ 6)
        × (drop 6 out ≡ drop 6 buffer)
  unfolding serialize_addr
  addr_item a buffer h = (
    host.raw a ++ drop 6 buffer,
    rw (le→not-ltb (length buffer) 6 h),
    λ rest. rw (take-raw a (drop 6 buffer)) (deserialize_addr-raw a rest),
    rw (take-raw a (drop 6 buffer)) (host.length-raw a),
    drop-raw a (drop 6 buffer),
  )

  take-bond :
      (v : StoredBondInformation BdAddr LongTermKey) (rest : List ℕ)
      → take 17 (host.to_le_bytes v.ltk ++ (level_byte v.security_level ∷ rest))
        ≡ host.to_le_bytes v.ltk ++ (level_byte v.security_level ∷ [])
  take-bond v rest =
      let bytes = host.to_le_bytes v.ltk ++ (level_byte v.security_level ∷ []) in
      let whole : length bytes ≡ 17 = omega (
        arith,
        length-append (host.to_le_bytes v.ltk) (level_byte v.security_level ∷ []),
        host.length-to_le_bytes v.ltk,
      ) in
      ap (take 17)
        (sym (append_assoc (host.to_le_bytes v.ltk) (level_byte v.security_level ∷ []) rest))
      ∙ ap (λ n. take n (bytes ++ rest)) (sym whole)
      ∙ take-append bytes rest

  bond_item :
      (v : StoredBondInformation BdAddr LongTermKey) (buffer : List ℕ)
      → 17 ≤ length buffer
      → (out : List ℕ) × (serialize_bond v buffer ≡ ok (17, out))
        × ((key : List ℕ) → length key ≡ 6 → deserialize_bond (drop 6 (key ++ take 17 out)) ≡ ok v)
  unfolding serialize_bond
  bond_item v buffer h =
      let out = host.to_le_bytes v.ltk ++ (level_byte v.security_level ∷ drop 17 buffer) in
      (
        out,
        rw (le→not-ltb (length buffer) 17 h),
        λ key whole.
            ap (λ n. deserialize_bond (drop n (key ++ take 17 out))) (sym whole)
            ∙ ap deserialize_bond (drop-append key (take 17 out) ∙ take-bond v (drop 17 buffer))
            ∙ deserialize_bond-bytes v [],
      )
