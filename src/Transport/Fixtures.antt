-- ===== src/Transport/Fixtures.antt =====
-- Data for the tests of the transport and of the modules above it.
pub mod Holding
use icmsg_rs.Prelude.{ℕ, suc, true, refl, arith, replicate}
use icmsg_rs.Machine.{Target, little}
use icmsg_rs.Transport.Region.{SharedMemoryRegion, Notifier}
use icmsg_rs.Transport.Cursor.Laws.{IsRing}

-- A debug build on a little-endian machine; its uninitialised bytes hold 170.
abbrev pub debug : Target
debug = record {
  endian = little;
  overflow_checks = true;
  debug_assertions = true;
  uninit0 = 170;
  uninit1 = 170;
}

-- A notifier that counts.
instance abbrev pub counting : Notifier ℕ
counting = record { notify = suc }

abbrev pub ring_24 : IsRing 24
ring_24 = record { whole_words = refl; nonempty = omega arith; small = omega arith }

abbrev pub blank : SharedMemoryRegion
blank = record { rd_idx = record { raw = 0 }; wr_idx = record { raw = 0 }; bytes = replicate 24 0 }
