-- ===== src/Transport/ReferenceTests.antt =====
-- The reference for the packet code at concrete inputs.
use icmsg_rs.Prelude.{◌≡◌, refl, [], ◌∷◌, ◌++◌, arith, replicate, splice}
use icmsg_rs.Machine.{done, ok}
use icmsg_rs.Integer.{from_u16}
use icmsg_rs.Transport.Sender.{fill}
use icmsg_rs.Transport.Receiver.{take_packet}
use icmsg_rs.Transport.Reference.{
  fill_reference, take_packet_reference, fill-eq-reference, take_packet-eq-reference,
}
use icmsg_rs.Transport.Fixtures.{debug, ring_24, blank}
use icmsg_rs.Transport.Fixtures.Holding.{region_78}

-- A packet whose payload goes over the end of the ring.
fill-eq-reference_example :
    fill debug 24 16 16 blank.bytes (1 ∷ 2 ∷ 3 ∷ 4 ∷ 5 ∷ 6 ∷ [])
    ≡ done (fill_reference debug 24 16 16 0 blank.bytes (1 ∷ 2 ∷ 3 ∷ 4 ∷ 5 ∷ 6 ∷ []))
fill-eq-reference_example =
    fill-eq-reference debug ring_24 16 16 0 (1 ∷ 2 ∷ 3 ∷ 4 ∷ 5 ∷ 6 ∷ []) blank.bytes refl
      (record { aligned = refl; in_ring = omega arith }) refl (omega arith) refl

wrapped_round :
    fill_reference debug 24 16 16 0 blank.bytes (1 ∷ 2 ∷ 3 ∷ 4 ∷ 5 ∷ 6 ∷ [])
    ≡ ok (4, 5 ∷ 6 ∷ 0 ∷ 0 ∷ (replicate 12 0 ++ (0 ∷ 6 ∷ 170 ∷ 170 ∷ 1 ∷ 2 ∷ 3 ∷ 4 ∷ [])))
unfolding fill_reference splice from_u16
wrapped_round = refl

take_packet-eq-reference_example :
    take_packet debug 24 0 8 region_78.bytes (0 ∷ 0 ∷ 1 ∷ [])
    ≡ done (take_packet_reference 24 0 8 region_78.bytes (0 ∷ 0 ∷ 1 ∷ []))
take_packet-eq-reference_example =
    take_packet-eq-reference debug ring_24 0 8 region_78.bytes (0 ∷ 0 ∷ 1 ∷ []) refl
      (record { aligned = refl; in_ring = omega arith }) (omega arith) (omega arith)
