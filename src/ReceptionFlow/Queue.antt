-- ===== src/ReceptionFlow/Queue.antt =====
-- The first-in-first-out queue of datagrams that the ring buffer of src/reception_flow.cc stands for,
-- and the events of its two threads.
use uvg_rtp.Prelude.{
  ◌==◌, if◌then◌else◌, length, take, ℕ, suc, ◌<◌, none, some, List, [], ◌∷◌, ◌++◌,
}
use uvg_rtp.ReceptionFlow.Ring.{
  Ring, Received, same_index, receive_one, process_one, datagram, nothing, failed,
}

-- A round of the receiving thread's inner loop, or a test and round of the processing thread's.
pub data Event : Type 0 where
  receive : Received → Event
  process : Event

unfoldable pub process_next : Ring → Ring × List (List ℕ)
process_next ring =
    if same_index ring.ring_read_index ring.last_ring_write_index
    then (ring, [])
    else (let s = process_one ring in (s.0, elim s.1 [ none ↦ [] | some p ↦ take p.1 p.0 ∷ [] ]))

-- The ring after the events in this order, and the datagrams that were handed on.
unfoldable pub run_ring : ℕ → List Event → Ring → Ring × List (List ℕ)
run_ring payload_size [] ring = (ring, [])
run_ring payload_size (receive r ∷ events) ring =
    run_ring payload_size events (receive_one payload_size r ring).0
run_ring payload_size (process ∷ events) ring =
    let s = process_next ring in
    let rest = run_ring payload_size events s.0 in (rest.0, s.1 ++ rest.1)

-- What a queue keeps of a call of recvfrom().
unfoldable pub arrivals : ℕ → Received → List (List ℕ)
arrivals payload_size (datagram d) =
    let octets = take payload_size d in if length octets == 0 then [] else octets ∷ []
arrivals payload_size nothing = []
arrivals payload_size failed = []

unfoldable pub run_queue : ℕ → List Event → List (List ℕ) → List (List ℕ) × List (List ℕ)
run_queue payload_size [] q = (q, [])
run_queue payload_size (receive r ∷ events) q =
    run_queue payload_size events (q ++ arrivals payload_size r)
run_queue payload_size (process ∷ events) [] = run_queue payload_size events []
run_queue payload_size (process ∷ events) (d ∷ q) =
    let rest = run_queue payload_size events q in (rest.0, d ∷ rest.1)

-- At each arrival fewer datagrams are waiting than the ring has buffers, less one.
unfoldable pub Fits : ℕ → ℕ → List Event → List (List ℕ) → Type 0
Fits size payload_size [] q = Unit {0}
Fits size payload_size (receive r ∷ events) q =
    (suc (length q) < size) × Fits size payload_size events (q ++ arrivals payload_size r)
Fits size payload_size (process ∷ events) [] = Fits size payload_size events []
Fits size payload_size (process ∷ events) (d ∷ q) = Fits size payload_size events q
