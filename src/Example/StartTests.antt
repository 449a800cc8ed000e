-- ===== src/Example/StartTests.antt =====
-- Two cores from power-up on, at a concrete input.
use icmsg_rs.Prelude.{ℕ, ◌≡◌, refl, false, some, List, [], ◌∷◌, arith, replicate}
use icmsg_rs.Machine.{done, ok}
use icmsg_rs.Transport.Region.{SharedMemoryRegion}
use icmsg_rs.Transport.IcMsgTransport.{IcMsgTransport}
use icmsg_rs.Transport.Fixtures.{debug, counting, blank}
use icmsg_rs.IcMsg.Defs.{Sender, Receiver, first, second, announce}
use icmsg_rs.IcMsg.Recv.{Round}
use icmsg_rs.Example.Config.{align, swapped, linked_config}
use icmsg_rs.Example.Start.{connect}
use icmsg_rs.Example.Zephyr.{main, main_lem}
use icmsg_rs.Example.Zephyr.Tasks.{msgs, receive}
use icmsg_rs.Example.Fixtures.{still_round, symbols, symbols-IsLinked, blank_72}

abbrev calls : List (List Round)
calls = replicate 7 (still_round ∷ [])

still : (region : SharedMemoryRegion) → still_round.peer region ≡ region
still region = refl

main_lem_example :
    (send_a send_b : Sender ℕ) × (recv_a recv_b recv_b' : Receiver ℕ)
    × (transport_a : IcMsgTransport ℕ) × (a' a'' a3 a4 b' b'' : SharedMemoryRegion) × (announce
          debug align
          (linked_config symbols)
          0
          (record { send_region = blank_72; recv_region = blank })
        ≡ done (ok (transport_a, record { send_region = a'; recv_region = blank })))
    × (connect debug
          (swapped symbols)
          0
          6
          (first ∷ [])
          (λ mem. mem)
          (record { send_region = blank; recv_region = a' })
        ≡ done (some (ok (send_b, recv_b, record { send_region = b'; recv_region = a'' }))))
    × (main debug symbols 0 5
          (second ∷ first ∷ [])
          (λ mem. record { send_region = a''; recv_region = b' })
          (record { send_region = blank_72; recv_region = blank })
        ≡ done (some (ok (send_a, recv_a, record { send_region = a3; recv_region = b'' }))))
    × (receive debug calls recv_b a3
        ≡ done (record { log = msgs; returned = false; receiver = recv_b'; region = a4 }))
main_lem_example =
    main_lem debug symbols 0 0 5 6 1 0 [] [] blank_72 blank calls symbols-IsLinked (omega arith)
      refl refl (still, (still, (still, (still, (still, (still, (still, tt)))))))
