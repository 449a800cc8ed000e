-- ===== src/Example/MyTransport.antt =====
-- app-core/src/transport.rs: the application core's HCI transport, and the error kinds of src/transport.rs
-- that it answers. The locks are free when they are taken, since each call holds its own to the end.
use icmsg_rs.Prelude.{
  refl, ◌≤◌, ◌++◌, [], ◌∷◌, ◌⊎◌, inl, inr, dec_lt, ℕ, ◌+◌, ◌<◌, ◌≡◌, Option, none, some, List,
  arith, if◌then◌else◌, length, take, replicate, length-replicate, ltb, le→not-ltb,
}
use icmsg_rs.Machine.{Exec, done, panicked, ◌>>=◌, Result, ok, err, map_err, Target}
use icmsg_rs.Transport.Region.{
  SharedMemoryRegion, Notifier, SendError, insufficient_capacity, invalid_state, RecvError,
  message_too_big, empty, invalid_message,
}
use icmsg_rs.Transport.Queue.{Queue, packet_size, footprint}
use icmsg_rs.Transport.Receiver as TransportHalf
use icmsg_rs.Transport.Refine.{Represents, send-ok, send-full}
use icmsg_rs.IcMsg.Defs.{Sender, Receiver}
use icmsg_rs.IcMsg.Recv.{Round, recv}
use icmsg_rs.IcMsg.Methods.{send_half}
use icmsg_rs.Example.WriteBuf.{MaybeUninit, new, writes, as_init, concat, as_init-writes}

-- `embedded_io::ErrorKind`, as far as the code names it.
pub data ErrorKind : Type 0 where
  write_zero other_kind out_of_memory interrupted : ErrorKind

-- `kind` of `SendError`
abbrev pub send_kind : SendError → ErrorKind
send_kind insufficient_capacity = write_zero
send_kind invalid_state = other_kind

-- `kind` of `RecvError`
abbrev pub recv_kind : RecvError → ErrorKind
recv_kind message_too_big = out_of_memory
recv_kind empty = interrupted
recv_kind invalid_message = other_kind

-- `bt_hci::transport::Error`: of the channel, or of the packet's bytes.
pub data TransportError : Type 0 where
  io_error : ErrorKind → TransportError
  from_hci : TransportError

unfoldable pub parsed {ℓ} : {P : Type ℓ} → Option P → Result P TransportError
parsed none = err from_hci
parsed (some pkt) = ok pkt

-- What `MyTransport::read` makes of an answer of `recv` and the buffer; `parse` is
-- `ControllerToHostPacket::from_hci_bytes_complete`.
unfoldable pub read_answer {ℓ} :
    {P : Type ℓ} → (List ℕ → Option P) → List ℕ → Result ℕ RecvError → Result P TransportError
unfolding parsed
read_answer parse rx (err e) = err (io_error (recv_kind e))
read_answer parse rx (ok n) = parsed (parse (take n rx))

module _ {ℓ κ} {P : Type ℓ} {W : Type κ} (parse : List ℕ → Option P) where
  answered :
      Option (Receiver W × SharedMemoryRegion × List ℕ × Result ℕ RecvError)
      → Option (Receiver W × SharedMemoryRegion × Result P TransportError)
  unfolding read_answer
  answered none = none
  answered (some (r, region, rx, res)) = some (r, region, read_answer parse rx res)

  -- `MyTransport::read`; `none` while it waits.
  unfoldable pub read :
      Target
      → Receiver W
      → List Round
      → SharedMemoryRegion
      → List ℕ
      → Exec (Option (Receiver W × SharedMemoryRegion × Result P TransportError))
  unfolding answered
  read t r rounds region rx = do out ← recv t r rounds region rx; done (answered out)

module _ {ℓ} {M : Type ℓ} where
  unfoldable pub write_result :
      Sender M × SharedMemoryRegion × Result (Unit {0}) SendError
      → Sender M × SharedMemoryRegion × Result (Unit {0}) TransportError
  write_result (s, region, res) = (s, region, map_err (λ e. io_error (send_kind e)) res)

module _ {ℓ} {M : Type ℓ} ⦃notifier : Notifier M⦄ (t : Target) where
  -- `MyTransport::write` of a packet of `size` bytes that `write_hci_async` writes, its indicator first,
  -- as the pieces `srcs`.
  unfoldable pub write :
      ℕ
      → List (List ℕ)
      → Sender M
      → SharedMemoryRegion
      → Exec (Sender M × SharedMemoryRegion × Result (Unit {0}) TransportError)
  unfolding as_init new write_result
  write size srcs s region = if ltb 1024 (size + 1) then panicked else (do
    buf ← as_init (writes (new (replicate (size + 1) none)) srcs)
    out ← send_half t s region buf
    done (write_result out))

  -- A packet of fewer than 1024 bytes, whose pieces are its bytes and its indicator, is handed to `send`
  -- whole: `write` neither panics itself nor reads an uninitialised byte, and it answers what `send`
  -- answers, an error as its kind.
  pub write_lem :
      (size : ℕ) (srcs : List (List ℕ)) (s : Sender M) (region : SharedMemoryRegion)
      → size < 1024
      → length (concat srcs) ≡ size + 1
      → write size srcs s region
        ≡ (do out ← send_half t s region (concat srcs); done (write_result out))
  unfolding write
  write_lem size srcs s region small whole = rw (
    le→not-ltb 1024 (size + 1) (omega arith),
    as_init-writes (replicate (size + 1) none) srcs
        (omega (arith, length-replicate {A = MaybeUninit} (size + 1) none)),
  )

  -- `write` of a packet of fewer than 1024 bytes, whose pieces are its bytes and its indicator, into a channel
  -- that represents a queue neither panics nor leaves the region. If the ring has room, it succeeds, and the
  -- packet is then the last in the queue; if not, it answers the error kind `WriteZero` and leaves everything
  -- as it was.
  pub write_refines :
      {ring : ℕ} {r : TransportHalf.Receiver} {q : Queue} (size : ℕ) (srcs : List (List ℕ))
      (s : Sender M) (region : SharedMemoryRegion)
      → size < 1024
      → length (concat srcs) ≡ size + 1
      → Represents t ring s.transport region r q
      → ((footprint q + packet_size (size + 1) < ring)
          × (s' : Sender M) × (region' : SharedMemoryRegion) × (write size srcs s region
              ≡ done (s', region', ok tt))
          × Represents t ring s'.transport region' r (q ++ (concat srcs ∷ [])))
        ⊎ ((ring ≤ footprint q + packet_size (size + 1))
            × (write size srcs s region ≡ done (s, region, err (io_error write_zero))))
  unfolding send_half write_result
  write_refines {ring} {q} size srcs s region small whole rep =
      elim (dec_lt (footprint q + packet_size (size + 1)) ring) [
        | yes room ↦
            let (s', region', sent, rep') =
              send-ok t (concat srcs) rep (omega (arith, small, whole)) (omega (arith, whole)) in
            inl (
              room,
              record { transport = s' },
              region',
              rw (write_lem size srcs s region small whole, sent) refl,
              rep',
            )
        | no full ↦ inr (
          omega arith,
          rw
              (
                write_lem size srcs s region small whole,
                send-full t (concat srcs) rep (omega (arith, whole)),
              )
              refl,
        )
      ]
