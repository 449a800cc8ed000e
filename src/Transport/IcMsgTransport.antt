-- ===== src/Transport/IcMsgTransport.antt =====
-- `IcMsgTransport` of src/transport.rs: both halves over two regions. A core's memory is the region that
-- it sends on and the one that it receives on; `send_addr` and `recv_addr` are their addresses.
pub mod New
use icmsg_rs.Prelude.{ℕ, ◌%◌, List, ◌==◌}
use icmsg_rs.Machine.{Exec, done, ◌>>=◌, ◌>>◌, Result, Target, debug_assert}
use icmsg_rs.Integer
use icmsg_rs.Transport.Region.{SharedMemoryRegion, SendError, RecvError, Notifier}
use icmsg_rs.Transport.Layout.{header_layout}
use icmsg_rs.Transport.Sender
use icmsg_rs.Transport.Sender.{Sender}
use icmsg_rs.Transport.Receiver
use icmsg_rs.Transport.Receiver.{Receiver}

pub record Regions : Type 0 where
  pub send_region : SharedMemoryRegion
  pub recv_region : SharedMemoryRegion

-- `IcMsgTransport`
pub record IcMsgTransport {ℓ} (M : Type ℓ) : Type ℓ where
  pub sender : Sender M
  pub receiver : Receiver

module _ {ℓ} {M : Type ℓ} where
  -- `IcMsgTransport::new`
  unfoldable pub new : Target → ℕ → ℕ → ℕ → ℕ → ℕ → M → Regions → Exec (IcMsgTransport M × Regions)
  unfolding debug_assert Integer.new
  new t align send_addr recv_addr send_buffer_len recv_buffer_len mbox mem = do
    debug_assert t (send_buffer_len % 4 == 0)
    debug_assert t (recv_buffer_len % 4 == 0)
    debug_assert t (send_addr % (header_layout align).align == 0)
    debug_assert t (recv_addr % (header_layout align).align == 0)
    let zeroed = record mem.send_region {
      wr_idx = Integer.new t.endian 0;
      rd_idx = Integer.new t.endian 0;
    }
    let sender : Sender M = record {
      send_buffer_len = send_buffer_len;
      mbox = mbox;
      send_wr_idx = 0;
    }
    let receiver : Receiver = record { recv_buffer_len = recv_buffer_len; recv_rd_idx = 0 }
    done (record { sender = sender; receiver = receiver }, record mem { send_region = zeroed })

  -- `IcMsgTransport::split`
  unfoldable pub split : IcMsgTransport M → Sender M × Receiver
  split self = (self.sender, self.receiver)

  -- `IcMsgTransport::try_recv`
  unfoldable pub try_recv :
      Target
      → IcMsgTransport M
      → Regions
      → List ℕ
      → Exec (IcMsgTransport M × Regions × List ℕ × Result ℕ RecvError)
  unfolding Receiver.try_recv
  try_recv t self mem msg = do
    out ← Receiver.try_recv t self.receiver mem.recv_region msg
    done (record self { receiver = out.0 }, record mem { recv_region = out.1 }, out.2, out.3)

module _ {ℓ} {M : Type ℓ} ⦃notifier : Notifier M⦄ where
  -- `IcMsgTransport::notify`
  unfoldable pub notify : IcMsgTransport M → IcMsgTransport M
  unfolding Sender.notify
  notify self = record self { sender = Sender.notify self.sender }

  -- `IcMsgTransport::send`
  unfoldable pub send :
      Target
      → IcMsgTransport M
      → Regions
      → List ℕ
      → Exec (IcMsgTransport M × Regions × Result (Unit {0}) SendError)
  unfolding Sender.send
  send t self mem msg = do
    out ← Sender.send t self.sender mem.send_region msg
    done (record self { sender = out.0 }, record mem { send_region = out.1 }, out.2)
