-- ===== src/Transport/Layout.antt =====
-- The `#[repr(C)]` layout of `Index` and `SharedMemoryRegionHeader` in src/transport.rs.
use Prim.Native.Nat.{max}
use native.Mathlib.Nat.{div-eq_of_lt-le}
use icmsg_rs.Prelude.{ℕ, ◌+◌, ◌-◌, ◌*◌, ◌/◌, ◌≤◌, ◌<◌, ◌≡◌, refl, sym, ap, ◌∙◌, arith}

pub record TypeLayout : Type 0 where
  pub size : ℕ
  pub align : ℕ

-- `n` rounded up to a multiple of `align`.
abbrev pub round_up : ℕ → ℕ → ℕ
round_up n align = (n + align - 1) / align * align

-- Where a field of a `#[repr(C)]` struct comes to stand, behind the fields in `l`.
abbrev pub offset : TypeLayout → TypeLayout → ℕ
offset l field = round_up l.size field.align

abbrev pub extend : TypeLayout → TypeLayout → TypeLayout
extend l field = record { size = offset l field + field.size; align = max l.align field.align }

abbrev pub pad_to_align : TypeLayout → TypeLayout
pad_to_align l = record l { size = round_up l.size l.align }

abbrev pub no_fields : TypeLayout
no_fields = record { size = 0; align = 1 }

-- `elain::Align<ALIGN>`: no bytes, aligned to `ALIGN`.
abbrev pub align_layout : ℕ → TypeLayout
align_layout align = record { size = 0; align = align }

-- `LeAtomicU32`, transparent over `AtomicU32`.
abbrev pub atomic_layout : TypeLayout
atomic_layout = record { size = 4; align = 4 }

-- `Index`
unfoldable pub index_layout : ℕ → TypeLayout
index_layout align = pad_to_align (extend (extend no_fields (align_layout align)) atomic_layout)

-- The fields `rd_idx` and `wr_idx` of `SharedMemoryRegionHeader`.
unfoldable pub rd_idx_offset : ℕ → ℕ
unfolding index_layout
rd_idx_offset align = offset no_fields (index_layout align)

unfoldable pub wr_idx_offset : ℕ → ℕ
unfolding index_layout
wr_idx_offset align = offset (extend no_fields (index_layout align)) (index_layout align)

-- `SharedMemoryRegionHeader`
unfoldable pub header_layout : ℕ → TypeLayout
unfolding index_layout
header_layout align =
    pad_to_align (extend (extend no_fields (index_layout align)) (index_layout align))

-- The multiple `k * align` that `n` is rounded up to.
round_up-eq : (n align k : ℕ) {v : ℕ} → v ≡ k * align → n ≤ v → v < n + align → round_up n align ≡ v
round_up-eq n align k e h lt =
    ap (λ q. q * align) (div-eq_of_lt-le {k = k} align (omega arith) (omega arith)) ∙ sym e

module _ (align : ℕ) (h : 0 < align) where
  abbrev unit : ℕ
  unit = max (max 1 align) 4

  value_offset : round_up (round_up 0 align + 0) 4 ≡ 0
  value_offset =
      ap (λ k. round_up (k + 0) 4) {y = 0}
        (round_up-eq 0 align 0 (omega arith) (omega arith) (omega arith))

  index_size : (index_layout align).size ≡ unit
  unfolding index_layout
  index_size =
      ap (λ k. round_up (k + 4) unit) value_offset
      ∙ round_up-eq 4 unit 1 (omega arith) (omega arith) (omega arith)

  index_align : (index_layout align).align ≡ unit
  unfolding index_layout
  index_align = refl

  -- The indices stand `max ALIGN 4` bytes apart, each at a multiple of it, and the data is directly
  -- behind them. The alignment is not 0.
  pub header_layout_lem :
      (rd_idx_offset align ≡ 0)
      × (wr_idx_offset align ≡ unit)
      × ((header_layout align).size ≡ unit + unit)
      × ((header_layout align).align ≡ unit)
  unfolding rd_idx_offset wr_idx_offset header_layout
  header_layout_lem = (first, second, total, omega arith)
    where
      first : round_up 0 (index_layout align).align ≡ 0
      first = round_up-eq 0 unit 0 (omega arith) (omega arith) (omega arith)

      second :
          round_up
            (round_up 0 (index_layout align).align + (index_layout align).size)
            (index_layout align).align
          ≡ unit
      second =
          (λ i. round_up (first i + index_size i) unit)
          ∙ round_up-eq (0 + unit) unit 1 (omega arith) (omega arith) (omega arith)

      total :
          round_up
            (round_up
                (round_up 0 (index_layout align).align + (index_layout align).size)
                (index_layout align).align
              + (index_layout align).size)
            (max (max 1 (index_layout align).align) (index_layout align).align)
          ≡ unit + unit
      total =
          (λ i. round_up (second i + index_size i) (widest i))
          ∙ round_up-eq (unit + unit) unit 2 (omega arith) (omega arith) (omega arith)
        where
          widest : max (max 1 unit) unit ≡ unit
          widest = omega arith
