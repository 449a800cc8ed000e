-- ===== src/Transport/Cursor.antt =====
-- The index arithmetic that `send` and `try_recv` share, with the overflow behaviour of the build.
pub mod Laws
use icmsg_rs.Prelude.{ℕ, ◌+◌, ◌<◌, Bool, ltb, leb, if◌then◌else◌}
use icmsg_rs.Machine.{Exec, done, ◌>>=◌, add_u32, sub_u32, as_u32}
use icmsg_rs.Transport.Region.{padded_len}

-- The free space of the ring, one byte less than the data buffer.
unfoldable pub free_space : Bool → ℕ → ℕ → ℕ → Exec ℕ
unfolding add_u32 sub_u32
free_space checks buffer_len rd_idx wr_idx =
    if ltb wr_idx rd_idx then (do gap ← sub_u32 checks rd_idx wr_idx; sub_u32 checks gap 1) else (do
      far ← add_u32 checks rd_idx buffer_len
      gap ← sub_u32 checks far wr_idx
      sub_u32 checks gap 1)

-- Past a packet header.
unfoldable pub after_header : Bool → ℕ → ℕ → Exec ℕ
unfolding add_u32
after_header checks buffer_len idx = do
  idx' ← add_u32 checks idx 4
  done (if leb buffer_len idx' then 0 else idx')

-- Past a padded payload.
unfoldable pub after_payload : Bool → ℕ → ℕ → ℕ → Exec ℕ
unfolding add_u32 sub_u32
after_payload checks buffer_len idx padded_msg_len = do
  idx' ← add_u32 checks idx (as_u32 padded_msg_len)
  if leb buffer_len idx' then sub_u32 checks idx' buffer_len else done idx'
