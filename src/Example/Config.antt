-- ===== src/Example/Config.antt =====
-- `get_icmsg_config` of app-core/src/main.rs and net-core/src/main.rs (and of the example
-- embassy-zephyr-nrf5340, which has the same text): the configuration of a core from its linker's symbols.
use icmsg_rs.Prelude.{ℕ, ◌+◌, ◌-◌, ◌%◌, ◌^◌, ◌≤◌, ◌<◌, ◌≡◌, false, arith, length}
use icmsg_rs.Machine.{Exec, done, ◌>>=◌, Target, sub_u32, u32_mod}
use icmsg_rs.Transport.Region.{SharedMemoryRegion}
use icmsg_rs.Transport.Layout.{header_layout}
use icmsg_rs.IcMsg.Defs.{MemoryConfig}
use icmsg_rs.IcMsg.Bonding.Both.{IsGood, mirrored}

-- `ALIGN`
abbrev pub align : ℕ
align = 4

-- The addresses of `__icmsg_tx_start` and the other symbols.
pub record LinkerSymbols : Type 0 where
  pub tx_start : ℕ
  pub tx_end : ℕ
  pub rx_start : ℕ
  pub rx_end : ℕ

-- `end.byte_offset_from(start) as u32 - size_of::<SharedMemoryRegionHeader<ALIGN>>() as u32`
unfoldable pub buffer_len : Target → ℕ → ℕ → Exec ℕ
unfolding sub_u32 header_layout
buffer_len t start end =
    sub_u32 t.overflow_checks ((end + u32_mod - start) % u32_mod)
      ((header_layout align).size % u32_mod)

-- `get_icmsg_config`
unfoldable pub get_icmsg_config : Target → LinkerSymbols → Exec MemoryConfig
unfolding buffer_len
get_icmsg_config t sym = do
  send_buffer_len ← buffer_len t sym.tx_start sym.tx_end
  recv_buffer_len ← buffer_len t sym.rx_start sym.rx_end
  done (record {
    send_region = sym.tx_start;
    recv_region = sym.rx_start;
    send_buffer_len = send_buffer_len;
    recv_buffer_len = recv_buffer_len;
  })

-- The symbols of the core at the other end, whose linker script has the same regions the other way.
abbrev pub swapped : LinkerSymbols → LinkerSymbols
swapped sym = record {
  tx_start = sym.rx_start;
  tx_end = sym.rx_end;
  rx_start = sym.tx_start;
  rx_end = sym.tx_end;
}

-- A region of whole words with room for the header and 24 bytes of data.
pub record IsRegion (start end : ℕ) : Type 0 where
  pub aligned : start % 4 ≡ 0
  pub whole_words : (end - start) % 4 ≡ 0
  pub room : start + 32 ≤ end
  pub small : end - start ≤ 2 ^ 31
  pub addressable : end < 2 ^ 32

buffer_len-IsRegion :
    (t : Target) {start end : ℕ}
    → IsRegion start end
    → buffer_len t start end ≡ done (end - start - 8)
unfolding buffer_len header_layout
buffer_len-IsRegion t h = ground arith

pub record IsLinked (sym : LinkerSymbols) : Type 0 where
  pub tx : IsRegion sym.tx_start sym.tx_end
  pub rx : IsRegion sym.rx_start sym.rx_end

-- The whole of each region behind its header.
abbrev pub linked_config : LinkerSymbols → MemoryConfig
linked_config sym = record {
  send_region = sym.tx_start;
  recv_region = sym.rx_start;
  send_buffer_len = sym.tx_end - sym.tx_start - 8;
  recv_buffer_len = sym.rx_end - sym.rx_start - 8;
}

module _ (t : Target) (sym : LinkerSymbols) (linked : IsLinked sym) where
  pub get_icmsg_config-linked_config : get_icmsg_config t sym ≡ done (linked_config sym)
  unfolding get_icmsg_config
  get_icmsg_config-linked_config =
      rw (buffer_len-IsRegion t linked.tx, buffer_len-IsRegion t linked.rx)

  pub get_icmsg_config-swapped :
      get_icmsg_config t (swapped sym) ≡ done (mirrored (linked_config sym))
  unfolding get_icmsg_config
  get_icmsg_config-swapped = rw (buffer_len-IsRegion t linked.tx, buffer_len-IsRegion t linked.rx)

pub linked_config-IsGood :
    (sym : LinkerSymbols) (a b : SharedMemoryRegion)
    → IsLinked sym
    → length a.bytes ≡ sym.tx_end - sym.tx_start - 8
    → length b.bytes ≡ sym.rx_end - sym.rx_start - 8
    → IsGood align (linked_config sym) (record { send_region = a; recv_region = b })
unfolding header_layout
linked_config-IsGood sym a b linked whole_a whole_b =
    let tx = linked.tx in
    let rx = linked.rx in
    record {
      config_good = record {
        send_ring = record {
          whole_words = omega (arith, tx.whole_words, tx.room);
          nonempty = omega (arith, tx.room);
          small = omega (arith, tx.small);
        };
        recv_ring = record {
          whole_words = omega (arith, rx.whole_words, rx.room);
          nonempty = omega (arith, rx.room);
          small = omega (arith, rx.small);
        };
        send_aligned = tx.aligned;
        recv_aligned = rx.aligned;
        send_whole = whole_a;
        recv_whole = whole_b;
      };
      send_large = omega (arith, tx.room);
      recv_large = omega (arith, rx.room);
    }

-- Two cores whose linker scripts name the same regions, of whole words with room for the header and 24
-- bytes, the other way round, get good configurations without an overflow, and one's is the mirror of
-- the other's.
get_icmsg_config_lem :
    (t : Target) (sym : LinkerSymbols) (a b : SharedMemoryRegion)
    → IsLinked sym
    → length a.bytes ≡ sym.tx_end - sym.tx_start - 8
    → length b.bytes ≡ sym.rx_end - sym.rx_start - 8
    → (config : MemoryConfig) × (get_icmsg_config t sym ≡ done config)
      × (get_icmsg_config t (swapped sym) ≡ done (mirrored config))
      × IsGood align config (record { send_region = a; recv_region = b })
get_icmsg_config_lem t sym a b linked whole_a whole_b = (
  linked_config sym,
  get_icmsg_config-linked_config t sym linked,
  get_icmsg_config-swapped t sym linked,
  linked_config-IsGood sym a b linked whole_a whole_b,
)

-- In a build without overflow checks, a region that ends before its header does gives a length that wraps
-- round to nearly 2 ^ 32; if the region holds whole words the length passes both checks of `init`.
pub buffer_len_wraps :
    (t : Target) (start end : ℕ)
    → t.overflow_checks ≡ false
    → start ≤ end
    → end < start + 8
    → end < 2 ^ 32
    → (end - start) % 4 ≡ 0
    → (n : ℕ) × (buffer_len t start end ≡ done n) × (2 ^ 32 - 8 ≤ n) × (n % 4 ≡ 0)
unfolding buffer_len header_layout
buffer_len_wraps t start end unchecked le short addressable words =
    (2 ^ 32 - 8 + (end - start), rw unchecked (ground arith), omega arith, omega arith)
