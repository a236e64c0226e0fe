-- ===== src/ReceptionFlow/Delivery.antt =====
-- What the inner loop of process_packet() in src/reception_flow.cc hands on.
use uvg_rtp.Prelude.{
  if◌then◌else◌, length, take, length-replicate, ℕ, zero, suc, ◌+◌, ◌/◌, ◌%◌, ◌≤◌, ◌<◌, ◌≡◌, refl,
  sym, ap, ◌∙◌, Bool, true, false, Option, none, some, List, [], ◌∷◌, ◌++◌, map, append-nil,
  append_assoc, arith,
}
use mathlib.Core.Path.{subst}
use native.Mathlib.Nat.{add-mod_right}
use uvg_rtp.ReceptionFlow.Ring.{
  Buffer, Ring, create_ring_buffer, new_ring, next_write, same_index, Round, receive_one,
  process_one, process_available, datagram,
}
use uvg_rtp.ReceptionFlow.Queue.{Event, run_ring, arrivals, run_queue, Fits, receive, process}
use uvg_rtp.ReceptionFlow.RingLaws.{index_at, Hold, Represents, later}
use uvg_rtp.ReceptionFlow.Refine.{next_write-Represents, receive_one_full}
use uvg_rtp.ReceptionFlow.Process.{
  freed_ring, process_one-Represents, Represents-freed_ring, idle_test,
}
use uvg_rtp.ReceptionFlow.Fifo.{run_ring-run_queue}

-- The octets of a datagram, out of the buffer that it stands in.
abbrev pub octets : List ℕ × ℕ → List ℕ
octets (b, n) = take n b

process_available_step :
    (fuel : ℕ) (ring after : Ring) (p : List ℕ × ℕ)
    → same_index ring.ring_read_index ring.last_ring_write_index ≡ false
    → process_one ring ≡ (after, some p)
    → process_available (suc fuel) ring
      ≡ ((process_available fuel after).0, p ∷ (process_available fuel after).1)
unfolding process_available
process_available_step fuel ring after p test moved =
    ap
      (λ (same : Bool). if same then (ring, []) else (
        (process_available fuel (process_one ring).0).0,
        elim (process_one ring).1 [
          | none ↦ (process_available fuel (process_one ring).0).1
          | some x ↦ x ∷ (process_available fuel (process_one ring).0).1
        ],
      ))
      test
    ∙ ap
        (λ (s : Ring × Option (List ℕ × ℕ)). (
          (process_available fuel s.0).0,
          elim (s.1) [
            | none ↦ (process_available fuel s.0).1
            | some x ↦ x ∷ (process_available fuel s.0).1
          ],
        ))
        moved

-- The loop hands on what waits and then stops.
process_available-Represents :
    (fuel : ℕ) (ring : Ring) (n : ℕ) (q : List (List ℕ))
    → Represents ring n q
    → length q ≤ fuel
    → Represents (process_available fuel ring).0 (n + length q) []
      × (map octets (process_available fuel ring).1 ≡ q)
unfolding process_available
process_available-Represents zero ring n [] rep h =
    (subst (λ (k : ℕ). Represents ring k []) (omega arith) rep, refl)
process_available-Represents zero ring n (d ∷ q) rep h = absurd (omega arith)
process_available-Represents (suc fuel) ring n [] rep h =
    let idle : process_available (suc fuel) ring ≡ (ring, []) = rw (idle_test ring n rep) refl in
    subst (λ (x : Ring × List (List ℕ × ℕ)). Represents x.0 (n + 0) [] × (map octets x.1 ≡ []))
      (sym idle) (subst (λ (k : ℕ). Represents ring k []) (omega arith) rep, refl)
process_available-Represents (suc fuel) ring n (d ∷ q) rep h =
    let (test, (b, moved, first)) = process_one-Represents ring n d q rep in
    let after = freed_ring ring (n % length ring.ring_buffer) b in
    let tail = process_available fuel after in
    let step : process_available (suc fuel) ring ≡ (tail.0, (b.data_octets, length d) ∷ tail.1) =
      process_available_step fuel ring after (b.data_octets, length d) test moved in
    let (kept, same) =
      process_available-Represents fuel after (suc n) q (Represents-freed_ring ring n d q b rep)
        (omega arith) in
    subst
      (λ (x : Ring × List (List ℕ × ℕ)).
        Represents x.0 (n + suc (length q)) [] × (map octets x.1 ≡ d ∷ q))
      (sym step)
      (subst (λ (k : ℕ). Represents tail.0 k []) (later n (length q)) kept, λ i. first i ∷ same i)

-- A new ring is empty.
new_ring-Represents :
    (buffer_size payload_size : ℕ) (fresh : List ℕ)
    → 0 < buffer_size / payload_size
    → Represents (new_ring buffer_size payload_size fresh) 0 []
unfolding new_ring create_ring_buffer index_at Hold
new_ring-Represents buffer_size payload_size fresh h = record {
  read_index = refl;
  write_index = refl;
  waiting = tt;
  room =
      let unused : Buffer = record { data_octets = take payload_size fresh; read = some 0 } in
      let size = length-replicate (buffer_size / payload_size) unused in omega (arith, size);
}

-- All datagrams of the events, in their order.
unfoldable pub arrived : ℕ → List Event → List (List ℕ)
arrived payload_size [] = []
arrived payload_size (receive r ∷ events) = arrivals payload_size r ++ arrived payload_size events
arrived payload_size (process ∷ events) = arrived payload_size events

-- A queue loses nothing and keeps the order.
run_queue_complete :
    (payload_size : ℕ) (events : List Event) (q : List (List ℕ))
    → (run_queue payload_size events q).1 ++ (run_queue payload_size events q).0
      ≡ q ++ arrived payload_size events
unfolding run_queue arrived
run_queue_complete payload_size [] q = sym (append-nil q)
run_queue_complete payload_size (receive r ∷ events) q =
    run_queue_complete payload_size events (q ++ arrivals payload_size r)
    ∙ append_assoc q (arrivals payload_size r) (arrived payload_size events)
run_queue_complete payload_size (process ∷ events) [] = run_queue_complete payload_size events []
run_queue_complete payload_size (process ∷ events) (d ∷ q) =
    ap (λ (l : List (List ℕ)). d ∷ l) (run_queue_complete payload_size events q)

-- After any events at a new ring, in which every round of the receiving thread finds fewer datagrams
-- waiting than the ring has buffers, less one: what was handed on, and then what the loop of the
-- processing thread hands on in no more rounds than there are buffers, are all datagrams that arrived
-- and were not empty, cut to the payload size, in order; and the loop has stopped.
pub process_available-run_ring :
    (buffer_size payload_size : ℕ) (fresh : List ℕ) (events : List Event)
    → 0 < buffer_size / payload_size
    → Fits (length (new_ring buffer_size payload_size fresh).ring_buffer) payload_size events []
    → let run = run_ring payload_size events (new_ring buffer_size payload_size fresh) in
      let last = process_available (length run.0.ring_buffer) run.0 in
      (run.1 ++ map octets last.1 ≡ arrived payload_size events)
      × (last.0.ring_read_index ≡ last.0.last_ring_write_index)
process_available-run_ring buffer_size payload_size fresh events some_room fits =
    let ring = new_ring buffer_size payload_size fresh in
    let start = new_ring-Represents buffer_size payload_size fresh some_room in
    let (n, rep, same) = run_ring-run_queue payload_size events ring 0 [] start fits in
    let end = (run_ring payload_size events ring).0 in
    let (stopped, all) =
      process_available-Represents (length end.ring_buffer) end n
        (run_queue payload_size events []).0 rep (let most = rep.room in omega arith) in
    (
      (λ i. same i ++ all i) ∙ run_queue_complete payload_size events [],
      stopped.read_index
          ∙ (ap (index_at _) {x = n + length (run_queue payload_size events []).0} (omega arith))
          ∙ sym stopped.write_index,
    )

same_index_refl : (o : Option ℕ) → same_index o o ≡ true
unfolding same_index
same_index_refl none = refl
same_index_refl (some i) = ground arith

index_around : (size n k : ℕ) → suc k ≡ size → (suc n + k) % size ≡ n % size
index_around size n k h =
    ap (λ (m : ℕ). m % size) {x = suc n + k} {y = n + size} (omega arith) ∙ add-mod_right n size

-- In a ring that has handed on a packet before, with as many datagrams waiting as it has buffers less
-- one, the arrival of one more, of which at least an octet fits, sets the writing index to the
-- reading one: the loop of the processing thread hands on nothing at all.
pub process_available-receive_one_full :
    (payload_size fuel n : ℕ) (d : List ℕ) (ring : Ring) (q : List (List ℕ))
    → Represents ring (suc n) q
    → suc (length q) ≡ length ring.ring_buffer
    → 0 < length (take payload_size d)
    → process_available fuel (receive_one payload_size (datagram d) ring).0
      ≡ ((receive_one payload_size (datagram d) ring).0, [])
unfolding process_available index_at
process_available-receive_one_full payload_size zero n d ring q rep full some_octet = refl
process_available-receive_one_full payload_size (suc fuel) n d ring q rep full some_octet =
    let after = receive_one_full payload_size d ring (ground arith) in
    let meet : some (next_write ring) ≡ ring.ring_read_index =
      ap some (
        next_write-Represents ring (suc n) q rep
        ∙ index_around (length ring.ring_buffer) n (length q) full)
      ∙ sym rep.read_index in
    let test : same_index ring.ring_read_index (some (next_write ring)) ≡ true =
      ap (same_index ring.ring_read_index) meet ∙ same_index_refl ring.ring_read_index in
    subst (λ (x : Ring × Round). process_available (suc fuel) x.0 ≡ (x.0, [])) (sym after)
      (rw test refl)
