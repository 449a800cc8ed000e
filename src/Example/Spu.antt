-- ===== src/Example/Spu.antt =====
-- `grant_spu` of app-core/src/main.rs: which RAM regions the network core may access.
use icmsg_rs.Prelude.{
  ap, ℕ, zero, suc, ◌+◌, ◌-◌, ◌*◌, ◌/◌, ◌≤◌, ◌<◌, ◌≡◌, refl, ◌∙◌, ◌⊎◌, Bool, true, false, ◌&&◌,
  Option, none, some, arith, leb, ltb, ◌==◌, if◌then◌else◌,
}
use icmsg_rs.Example.Config.{LinkerSymbols}

-- The register `PERM` of a RAM region, as far as it is written.
pub record Perm : Type 0 where
  pub read : Bool
  pub write : Bool
  pub execute : Bool
  pub secattr : Bool

pub data Mapping : Type 0 where
  non_secure secure : Mapping

-- `SPU_S`: the registers of its RAM regions and of its external domains.
pub record Spu : Type 0 where
  pub ramregion : ℕ → Perm
  pub extdomain : ℕ → Mapping

-- `RAM_BASE`
abbrev pub ram_base : ℕ
ram_base = 0x20000000

-- `REGION_SIZE`
abbrev pub region_size : ℕ
region_size = 8192

abbrev pub to_region_index : ℕ → ℕ
to_region_index addr = (addr - ram_base) / region_size

-- What `configure_range` writes.
abbrev pub granted : Perm
granted = record { read = true; write = true; execute = true; secattr = false }

abbrev pub updated {ℓ} : {A : Type ℓ} → (ℕ → A) → ℕ → A → ℕ → A
updated f i v j = if j == i then v else f j

-- The loop of `configure_range`, with the number of rounds left.
configure_from : ℕ → ℕ → Spu → Spu
configure_from zero i spu = spu
configure_from (suc n) i spu =
    configure_from n (i + 1) (record spu { ramregion = updated spu.ramregion i granted })

-- `configure_range`
unfoldable pub configure_range : ℕ → ℕ → Spu → Spu
unfolding configure_from
configure_range first last spu = configure_from (last + 1 - first) first spu

unfoldable pub set_extdomain : Option ℕ → Spu → Spu
set_extdomain none spu = spu
set_extdomain (some i) spu = record spu { extdomain = updated spu.extdomain i non_secure }

-- `grant_spu`
unfoldable pub grant_spu : LinkerSymbols → Option ℕ → Spu → Spu
grant_spu sym extdomain_idx spu =
    let tx_first = to_region_index sym.tx_start in
    let tx_last = to_region_index (sym.tx_end - 1) in
    let rx_first = to_region_index sym.rx_start in
    let rx_last = to_region_index (sym.rx_end - 1) in
    set_extdomain extdomain_idx
      (configure_range rx_first rx_last (configure_range tx_first tx_last spu))

configure_from_lem :
    (n first : ℕ) (spu : Spu) (i : ℕ)
    → (configure_from n first spu).ramregion i
      ≡ (if leb first i && ltb i (first + n) then granted else spu.ramregion i)
unfolding configure_from
configure_from_lem zero first spu i = ground arith
configure_from_lem (suc n) first spu i =
    configure_from_lem n (first + 1)
      (record spu { ramregion = updated spu.ramregion first granted }) i
    ∙ ground arith

configure_range_lem :
    (first last : ℕ) (spu : Spu) (i : ℕ)
    → (configure_range first last spu).ramregion i
      ≡ (if leb first i && leb i last then granted else spu.ramregion i)
unfolding configure_range
configure_range_lem first last spu i =
    configure_from_lem (last + 1 - first) first spu i ∙ ground arith

set_extdomain-ramregion :
    (idx : Option ℕ) (spu : Spu) → (set_extdomain idx spu).ramregion ≡ spu.ramregion
unfolding set_extdomain
set_extdomain-ramregion none spu = refl
set_extdomain-ramregion (some i) spu = refl

grant_spu_lem :
    (sym : LinkerSymbols) (idx : Option ℕ) (spu : Spu) (i : ℕ)
    → (grant_spu sym idx spu).ramregion i ≡ (
        if leb (to_region_index sym.rx_start) i && leb i (to_region_index (sym.rx_end - 1))
        then granted
        else if leb (to_region_index sym.tx_start) i && leb i (to_region_index (sym.tx_end - 1))
        then granted
        else spu.ramregion i)
unfolding grant_spu
grant_spu_lem sym idx spu i =
    let tx_first = to_region_index sym.tx_start in
    let tx_last = to_region_index (sym.tx_end - 1) in
    let rx_first = to_region_index sym.rx_start in
    let rx_last = to_region_index (sym.rx_end - 1) in
    let spu' = configure_range tx_first tx_last spu in
    rw (
      set_extdomain-ramregion idx (configure_range rx_first rx_last spu'),
      configure_range_lem rx_first rx_last spu' i,
      configure_range_lem tx_first tx_last spu i,
    )

-- The network core may read, write and execute the region from its non-secure side.
pub record IsOpen (perm : Perm) : Type 0 where
  pub readable : perm.read ≡ true
  pub writable : perm.write ≡ true
  pub executable : perm.execute ≡ true
  pub non_secure : perm.secattr ≡ false

pub record IsGranted (sym : LinkerSymbols) (idx : Option ℕ) (before after : Spu) : Type 0 where
  pub tx_open :
      (addr : ℕ)
      → sym.tx_start ≤ addr
      → addr < sym.tx_end
      → IsOpen (after.ramregion ((addr - 0x20000000) / 8192))
  pub rx_open :
      (addr : ℕ)
      → sym.rx_start ≤ addr
      → addr < sym.rx_end
      → IsOpen (after.ramregion ((addr - 0x20000000) / 8192))
  pub others_kept :
      (i : ℕ)
      → (0x20000000 + (i + 1) * 8192 ≤ sym.tx_start) ⊎ (sym.tx_end ≤ 0x20000000 + i * 8192)
      → (0x20000000 + (i + 1) * 8192 ≤ sym.rx_start) ⊎ (sym.rx_end ≤ 0x20000000 + i * 8192)
      → after.ramregion i ≡ before.ramregion i
  pub domain_mapped : (i : ℕ) → idx ≡ some i → after.extdomain i ≡ non_secure

granted-IsOpen : {perm : Perm} → perm ≡ granted → IsOpen perm
granted-IsOpen e = record {
  readable = ap (λ p. p.read) e;
  writable = ap (λ p. p.write) e;
  executable = ap (λ p. p.execute) e;
  non_secure = ap (λ p. p.secattr) e;
}

set_extdomain-mapped :
    (idx : Option ℕ) (spu : Spu) (i : ℕ)
    → idx ≡ some i
    → (set_extdomain idx spu).extdomain i ≡ non_secure
unfolding set_extdomain
set_extdomain-mapped none spu i e = absurd cc
set_extdomain-mapped (some j) spu i e = let same : j ≡ i = cc in ground (arith, same)

-- After `grant_spu` the region of every byte of the two buffers, in RAM, is open to the network core for
-- reading, writing and executing, from the non-secure side, a region that lies wholly before or behind each
-- buffer is as it was, and the external domain that is named is mapped to non-secure.
pub grant_spu-IsGranted :
    (sym : LinkerSymbols) (idx : Option ℕ) (spu : Spu)
    → ram_base ≤ sym.tx_start
    → sym.tx_start < sym.tx_end
    → ram_base ≤ sym.rx_start
    → sym.rx_start < sym.rx_end
    → IsGranted sym idx spu (grant_spu sym idx spu)
unfolding grant_spu
grant_spu-IsGranted sym idx spu tx_ram tx rx_ram rx = record {
  tx_open = λ addr lo hi.
      granted-IsOpen (grant_spu_lem sym idx spu (to_region_index addr) ∙ ground arith);
  rx_open = λ addr lo hi.
      granted-IsOpen (grant_spu_lem sym idx spu (to_region_index addr) ∙ ground arith);
  others_kept = λ i no_tx no_rx. grant_spu_lem sym idx spu i ∙ ground arith;
  domain_mapped = λ i e. set_extdomain-mapped idx _ i e;
}
