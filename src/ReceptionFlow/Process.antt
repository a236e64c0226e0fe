-- ===== src/ReceptionFlow/Process.antt =====
-- The processing thread's rounds of src/reception_flow.cc on the ring buffer.
use uvg_rtp.Prelude.{
  lt→ltb, Option-cases, length, get_elem?, set, length-set, get_or, take, ℕ, zero, suc, ◌+◌, ◌%◌,
  ◌<◌, ◌≡◌, refl, sym, ap, ◌∙◌, ◌≢◌, inl, inr, true, false, Option, some, List, [], ◌∷◌, arith,
}
use mathlib.Core.Path.{subst}
use native.Mathlib.Numerals.{unary_clauses}
use uvg_rtp.ReceptionFlow.Ring.{
  Buffer, Ring, next_buffer_location, same_index, empty_buffer, hand_on, process_one,
}
use uvg_rtp.ReceptionFlow.Queue.{process_next}
use uvg_rtp.ReceptionFlow.RingLaws.{
  index_at, next_buffer_location-index_at, turn, Holds, Hold, Represents, later, Hold-set,
}

get_or-get_elem? :
    {A : Type 0} (xs : List A) (i : ℕ) (x d : A) → get_elem? xs i ≡ some x → get_or xs i d ≡ x
get_or-get_elem? [] i x d h = absurd (cc)
get_or-get_elem? (y ∷ xs) zero x d h = cc
get_or-get_elem? (y ∷ xs) (suc i) x d h = get_or-get_elem? xs i x d h

-- The indices agree only if nothing waits.
pub same_index_none : (size n : ℕ) → same_index (index_at size n) (index_at size (n + 0)) ≡ true
unfolding same_index index_at
same_index_none size zero = refl
same_index_none size (suc n) = ground arith

pub same_index_some :
    (size n k : ℕ) → suc k < size → same_index (index_at size n) (index_at size (n + suc k)) ≡ false
unfolding same_index index_at
same_index_some size zero k h = simp unary_clauses refl
same_index_some size (suc n) k h =
    let apart : (n + suc k) % size ≢ n % size = turn n (suc k) size (omega arith) h in ground arith

-- A buffer with a datagram is read, and is free afterwards.
pub process_one_holding :
    (ring : Ring) (b : Buffer) (d : List ℕ) (i : ℕ)
    → next_buffer_location (length ring.ring_buffer) ring.ring_read_index ≡ i
    → get_elem? ring.ring_buffer i ≡ some b
    → Holds (some b) d
    → process_one ring ≡ (
      record ring {
        ring_buffer = set ring.ring_buffer i (record b { read = some 0 });
        ring_read_index = some i;
      },
      some (b.data_octets, length d),
    )
unfolding process_one hand_on Holds
process_one_holding ring b d i place found h =
    let at_i = get_or-get_elem? ring.ring_buffer i b empty_buffer found in
    ap
      (λ (j : ℕ).
        hand_on ring j (get_or ring.ring_buffer j empty_buffer)
          ((get_or ring.ring_buffer j empty_buffer).read))
      place
    ∙ ap (λ (c : Buffer). hand_on ring i c c.read) at_i
    ∙ ap (hand_on ring i b) h.0
    ∙ rw (lt→ltb 0 (length d) h.2) refl

-- The ring after that.
abbrev pub freed_ring : Ring → ℕ → Buffer → Ring
freed_ring ring i b = record ring {
  ring_buffer = set ring.ring_buffer i (record b { read = some 0 });
  ring_read_index = some i;
}

-- The round that reads the first packet that waits.
pub process_one-Represents :
    (ring : Ring) (n : ℕ) (d : List ℕ) (q : List (List ℕ))
    → Represents ring n (d ∷ q)
    → (same_index ring.ring_read_index ring.last_ring_write_index ≡ false)
      × ((b : Buffer) × (process_one ring
            ≡ (freed_ring ring (n % length ring.ring_buffer) b, some (b.data_octets, length d)))
          × (take (length d) b.data_octets ≡ d))
unfolding Hold Holds
process_one-Represents ring n d q rep =
    let size = length ring.ring_buffer in
    let at_n = get_elem? ring.ring_buffer (n % size) in
    (
      (λ i. same_index (rep.read_index i) (rep.write_index i))
          ∙ same_index_some size n (length q) rep.room,
      elim (Option-cases at_n) [
        | inl e ↦ absurd (subst (λ (o : Option Buffer). Holds o d) e rep.waiting.0)
        | inr (b, e) ↦
            let h : Holds (some b) d = subst (λ (o : Option Buffer). Holds o d) e rep.waiting.0 in
            let place : next_buffer_location size ring.ring_read_index ≡ n % size =
              ap (next_buffer_location size) rep.read_index
              ∙ next_buffer_location-index_at size n in
            (b, process_one_holding ring b d (n % size) place e h, h.1)
      ],
    )

-- What waits behind it stays.
pub Represents-freed_ring :
    (ring : Ring) (n : ℕ) (d : List ℕ) (q : List (List ℕ)) (b : Buffer)
    → Represents ring n (d ∷ q)
    → Represents (freed_ring ring (n % length ring.ring_buffer) b) (suc n) q
unfolding index_at Hold
Represents-freed_ring ring n d q b rep =
    let i = n % length ring.ring_buffer in
    let emptied : Buffer = record b { read = some 0 } in
    let size : length (set ring.ring_buffer i emptied) ≡ length ring.ring_buffer =
      length-set ring.ring_buffer i emptied in
    record {
      read_index = ap (λ (s : ℕ). some (n % s)) (sym size);
      write_index = rep.write_index ∙ (λ j. index_at (sym size j) (sym (later n (length q)) j));
      waiting =
          Hold-set ring.ring_buffer i (suc n) q emptied
            (λ j l e.
              turn n (suc j) (length ring.ring_buffer) (omega arith)
                (let most = rep.room in omega arith)
                (ap (λ (k : ℕ). k % length ring.ring_buffer) (sym (later n j)) ∙ sym e))
            rep.waiting.1;
      room = let most = rep.room in omega (arith, size);
    }

-- The processing thread goes on by one packet: the first that waits.
pub process_next-Represents :
    (ring : Ring) (n : ℕ) (d : List ℕ) (q : List (List ℕ))
    → Represents ring n (d ∷ q)
    → Represents (process_next ring).0 (suc n) q × ((process_next ring).1 ≡ d ∷ [])
unfolding process_next
process_next-Represents ring n d q rep =
    let (test, (b, moved, octets)) = process_one-Represents ring n d q rep in
    let next : process_next ring
        ≡ (freed_ring ring (n % length ring.ring_buffer) b, take (length d) b.data_octets ∷ []) =
      rw (test, moved) refl in
    (
      subst (λ (x : Ring). Represents x (suc n) q)
          (sym (ap (λ (x : Ring × List (List ℕ)). x.0) next))
          (Represents-freed_ring ring n d q b rep),
      ap (λ (x : Ring × List (List ℕ)). x.1) next ∙ ap (λ (x : List ℕ). x ∷ []) octets,
    )

-- With nothing waiting it stays where it is.
pub idle_test :
    (ring : Ring) (n : ℕ)
    → Represents ring n []
    → same_index ring.ring_read_index ring.last_ring_write_index ≡ true
idle_test ring n rep =
    (λ i. same_index (rep.read_index i) (rep.write_index i))
    ∙ same_index_none (length ring.ring_buffer) n

pub process_next_idle :
    (ring : Ring) (n : ℕ) → Represents ring n [] → process_next ring ≡ (ring, [])
unfolding process_next
process_next_idle ring n rep = rw (idle_test ring n rep) refl
