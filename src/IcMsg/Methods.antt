-- ===== src/IcMsg/Methods.antt =====
-- The methods of `IcMsg` and `Sender` of src/lib.rs that pass on to the halves.
use icmsg_rs.Prelude.{ℕ, List}
use icmsg_rs.Machine.{Exec, done, ◌>>=◌, Result, Target}
use icmsg_rs.Transport.Region.{SharedMemoryRegion, SendError, RecvError, Notifier}
use icmsg_rs.Transport.Sender as TransportHalf
use icmsg_rs.Transport.IcMsgTransport.{Regions}
use icmsg_rs.IcMsg.Defs.{Sender, Receiver, IcMsg}
use icmsg_rs.IcMsg.Recv
use icmsg_rs.IcMsg.Recv.{Round}

-- `Sender::send`
unfoldable pub send_half {ℓ} :
    {M : Type ℓ}
    → ⦃notifier : Notifier M⦄ → Target
    → Sender M
    → SharedMemoryRegion
    → List ℕ
    → Exec (Sender M × SharedMemoryRegion × Result (Unit {0}) SendError)
send_half t s region msg = do
  out ← TransportHalf.send t s.transport region msg
  done (record { transport = out.0 }, out.1, out.2)

module _ {ℓ κ} {M : Type ℓ} {W : Type κ} where
  -- `IcMsg::send`
  unfoldable pub send :
      ⦃notifier : Notifier M⦄
      → Target
      → IcMsg M W
      → Regions
      → List ℕ
      → Exec (IcMsg M W × Regions × Result (Unit {0}) SendError)
  unfolding send_half
  send t self mem msg = do
    out ← send_half t self.sender mem.send_region msg
    done (record self { sender = out.0 }, record mem { send_region = out.1 }, out.2)

  -- `IcMsg::try_recv`
  unfoldable pub try_recv :
      Target
      → IcMsg M W
      → Regions
      → List ℕ
      → Exec (IcMsg M W × Regions × List ℕ × Result ℕ RecvError)
  unfolding Recv.try_recv
  try_recv t self mem msg = do
    out ← Recv.try_recv t self.receiver mem.recv_region msg
    done (record self { receiver = out.0 }, record mem { recv_region = out.1 }, out.2, out.3)

  -- `IcMsg::split`
  unfoldable pub split : IcMsg M W → Sender M × Receiver W
  split self = (self.sender, self.receiver)
