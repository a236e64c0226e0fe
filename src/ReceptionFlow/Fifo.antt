-- ===== src/ReceptionFlow/Fifo.antt =====
-- The two threads of src/reception_flow.cc, in any order of their rounds.
use uvg_rtp.Prelude.{
  Bool-cases, length, length-set, ℕ, suc, ◌≡◌, refl, sym, ap, ◌∙◌, inl, inr, Option, none, some,
  List, [], ◌∷◌, ◌++◌, arith,
}
use mathlib.Core.Path.{subst}
use uvg_rtp.ReceptionFlow.Ring.{
  Buffer, Ring, Received, same_index, Round, settle, receive_one, hand_on, process_one, go_on,
  leave, stop_flow,
}
use uvg_rtp.ReceptionFlow.Queue.{
  Event, process_next, run_ring, arrivals, run_queue, Fits, receive, process,
}
use uvg_rtp.ReceptionFlow.RingLaws.{Represents}
use uvg_rtp.ReceptionFlow.Refine.{receive_one-Represents}
use uvg_rtp.ReceptionFlow.Process.{process_next-Represents, process_next_idle}

settle_size :
    (ring : Ring) (buffers : List Buffer) (i : ℕ) (round : Round)
    → (settle ring buffers i round).0.ring_buffer ≡ buffers
unfolding settle
settle_size ring buffers i go_on = refl
settle_size ring buffers i leave = refl
settle_size ring buffers i stop_flow = refl

receive_one_size :
    (payload_size : ℕ) (r : Received) (ring : Ring)
    → length (receive_one payload_size r ring).0.ring_buffer ≡ length ring.ring_buffer
unfolding receive_one
receive_one_size payload_size r ring =
    ap length (settle_size ring _ _ _) ∙ length-set ring.ring_buffer _ _

hand_on_size :
    (ring : Ring) (i : ℕ) (b : Buffer) (n : Option ℕ)
    → length (hand_on ring i b n).0.ring_buffer ≡ length ring.ring_buffer
unfolding hand_on
hand_on_size ring i b none = refl
hand_on_size ring i b (some n) =
    let kept = length-set ring.ring_buffer i (record b { read = some 0 }) in ground arith

process_next_size :
    (ring : Ring) → length (process_next ring).0.ring_buffer ≡ length ring.ring_buffer
unfolding process_next process_one
process_next_size ring =
    elim (Bool-cases (same_index ring.ring_read_index ring.last_ring_write_index)) [
      | inl e ↦ rw e refl
      | inr e ↦ rw e (hand_on_size ring _ _ _)
    ]

-- The two threads' rounds keep the ring what the queue is, and hand on what leaves it.
pub run_ring-run_queue :
    (payload_size : ℕ) (events : List Event) (ring : Ring) (n : ℕ) (q : List (List ℕ))
    → Represents ring n q
    → Fits (length ring.ring_buffer) payload_size events q
    → ((m : ℕ) × Represents
          (run_ring payload_size events ring).0
          m
          (run_queue payload_size events q).0
        × ((run_ring payload_size events ring).1 ≡ (run_queue payload_size events q).1))
unfolding run_ring run_queue Fits
run_ring-run_queue payload_size [] ring n q rep fits = (n, rep, refl)
run_ring-run_queue payload_size (receive r ∷ events) ring n q rep fits =
    run_ring-run_queue payload_size events (receive_one payload_size r ring).0 n
      (q ++ arrivals payload_size r) (receive_one-Represents payload_size r ring n q fits.0 rep)
      (subst (λ (s : ℕ). Fits s payload_size events (q ++ arrivals payload_size r))
        (sym (receive_one_size payload_size r ring)) fits.1)
run_ring-run_queue payload_size (process ∷ events) ring n [] rep fits =
    subst
      (λ (x : Ring × List (List ℕ)).
        (m : ℕ) × Represents (run_ring payload_size events x.0).0 m
          (run_queue payload_size events []).0
        × (x.1 ++ (run_ring payload_size events x.0).1 ≡ (run_queue payload_size events []).1))
      (sym (process_next_idle ring n rep))
      (run_ring-run_queue payload_size events ring n [] rep fits)
run_ring-run_queue payload_size (process ∷ events) ring n (d ∷ q) rep fits =
    let next = process_next-Represents ring n d q rep in
    let (m, kept, same) =
      run_ring-run_queue payload_size events (process_next ring).0 (suc n) q next.0
        (subst (λ (s : ℕ). Fits s payload_size events q) (sym (process_next_size ring)) fits) in
    (m, kept, λ i. next.1 i ++ same i)
