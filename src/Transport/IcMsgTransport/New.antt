-- ===== src/Transport/IcMsgTransport/New.antt =====
-- Two cores that have each made a transport over the same two regions are connected.
use icmsg_rs.Prelude.{ℕ, ◌%◌, ◌≡◌, refl, [], length, arith, ==_iff}
use icmsg_rs.Machine.{done, Target}
use icmsg_rs.Machine.Laws.{debug_assert-eq}
use icmsg_rs.Integer
use icmsg_rs.Integer.Laws.{load-new}
use icmsg_rs.Transport.Region.{SharedMemoryRegion}
use icmsg_rs.Transport.Layout.{header_layout}
use icmsg_rs.Transport.Cursor.Laws.{IsRing}
use icmsg_rs.Transport.Refine.{Represents}
use icmsg_rs.Transport.IcMsgTransport.{IcMsgTransport, Regions, new}

-- What `MemoryConfig` asks of the arguments of `new`.
pub record IsConfig (align send_addr recv_addr send_buffer_len recv_buffer_len : ℕ) (mem : Regions)
    : Type 0 where
  pub send_ring : IsRing send_buffer_len
  pub recv_ring : IsRing recv_buffer_len
  pub send_aligned : send_addr % (header_layout align).align ≡ 0
  pub recv_aligned : recv_addr % (header_layout align).align ≡ 0
  pub send_whole : length mem.send_region.bytes ≡ send_buffer_len
  pub recv_whole : length mem.recv_region.bytes ≡ recv_buffer_len

-- A region after `new`.
abbrev pub zeroed : Target → SharedMemoryRegion → SharedMemoryRegion
zeroed t region = record region { wr_idx = Integer.new t.endian 0; rd_idx = Integer.new t.endian 0 }

module _ {ℓ} {M : Type ℓ} (t : Target) where
  abbrev pub fresh : ℕ → ℕ → M → IcMsgTransport M
  fresh send_len recv_len mbox = record {
    sender = record { send_buffer_len = send_len; mbox = mbox; send_wr_idx = 0 };
    receiver = record { recv_buffer_len = recv_len; recv_rd_idx = 0 };
  }

  -- With a good configuration no debug assertion fails.
  pub new_lem :
      (align send_addr recv_addr send_len recv_len : ℕ) (mbox : M) (mem : Regions)
      → IsConfig align send_addr recv_addr send_len recv_len mem
      → new t align send_addr recv_addr send_len recv_len mbox mem
        ≡ done (fresh send_len recv_len mbox, record mem { send_region = zeroed t mem.send_region })
  unfolding new
  new_lem align send_addr recv_addr send_len recv_len mbox mem c = rw (
    debug_assert-eq t _ ((==_iff _ _).1 c.send_ring.whole_words),
    debug_assert-eq t _ ((==_iff _ _).1 c.recv_ring.whole_words),
    debug_assert-eq t _ ((==_iff _ _).1 c.send_aligned),
    debug_assert-eq t _ ((==_iff _ _).1 c.recv_aligned),
  )

  -- A zeroed region is an empty channel between a fresh sender and a fresh receiver.
  pub fresh-Represents :
      {size : ℕ} (mbox : M) (region : SharedMemoryRegion)
      → IsRing size
      → length region.bytes ≡ size
      → Represents t size
          (record { send_buffer_len = size; mbox = mbox; send_wr_idx = 0 })
          (zeroed t region)
          (record { recv_buffer_len = size; recv_rd_idx = 0 })
          []
  fresh-Represents mbox region ring whole = record {
    send_len = refl;
    recv_len = refl;
    rd_shared = load-new t.endian 0 (omega arith);
    wr_shared = load-new t.endian 0 (omega arith);
    stored = record {
      ring = ring;
      whole = whole;
      reader = record { aligned = refl; in_ring = ring.nonempty };
      room = ring.nonempty;
      writer = ground arith;
      holds = tt;
    };
  }

  -- Each core makes its transport on the region that the other one receives from. Neither fails, and
  -- then each sender and the receiver at the other end represent the empty queue.
  new_connects :
      (align addr_a addr_b len_a len_b : ℕ) (mbox_a mbox_b : M) (a b : SharedMemoryRegion)
      → IsConfig align addr_a addr_b len_a len_b (record { send_region = a; recv_region = b })
      → (ta tb : IcMsgTransport M) × (a' b' : SharedMemoryRegion) × (new t align addr_a addr_b len_a
            len_b mbox_a
            (record { send_region = a; recv_region = b })
          ≡ done (ta, record { send_region = a'; recv_region = b }))
        × (new t align addr_b addr_a len_b len_a mbox_b
              (record { send_region = b; recv_region = a' })
            ≡ done (tb, record { send_region = b'; recv_region = a' }))
        × Represents t len_a ta.sender a' tb.receiver []
        × Represents t len_b tb.sender b' ta.receiver []
  new_connects align addr_a addr_b len_a len_b mbox_a mbox_b a b c = (
    _,
    _,
    _,
    _,
    new_lem align addr_a addr_b len_a len_b mbox_a _ c,
    new_lem align addr_b addr_a len_b len_a mbox_b
        (record { send_region = b; recv_region = zeroed t a })
        (record {
          send_ring = c.recv_ring;
          recv_ring = c.send_ring;
          send_aligned = c.recv_aligned;
          recv_aligned = c.send_aligned;
          send_whole = c.recv_whole;
          recv_whole = c.send_whole;
        }),
    fresh-Represents mbox_a a c.send_ring c.send_whole,
    fresh-Represents mbox_b b c.recv_ring c.recv_whole,
  )
