-- ===== src/ReceptionFlow/Refine.antt =====
-- The ring buffer of src/reception_flow.cc as a first-in-first-out queue.
use uvg_rtp.Prelude.{
  ◌==◌, Bool-cases, length, get_elem?, set, length-append, length-set, get_elem?-set_self, get_or,
  take, ℕ, suc, ◌+◌, ◌-◌, ◌%◌, ◌<◌, ◌≡◌, refl, sym, ap, ◌∙◌, ◌≢◌, inl, inr, true, false, Option,
  some, List, [], ◌∷◌, ◌++◌, append-nil, arith,
}
use mathlib.Core.Path.{subst}
use native.Mathlib.Nat.{mod-lt}
use uvg_rtp.ReceptionFlow.Ring.{
  Buffer, Ring, Received, next_buffer_location, next_write, empty_buffer, recvfrom, after_recvfrom,
  settle, receive_one, datagram, nothing, failed, go_on, leave,
}
use uvg_rtp.ReceptionFlow.Queue.{arrivals}
use uvg_rtp.ReceptionFlow.RingLaws.{
  index_at, next_buffer_location-index_at, turn, Holds, Represents, Hold-set, Hold-append,
  Holds-recvfrom,
}

-- The buffer that the next datagram goes to.
pub next_write-Represents :
    (ring : Ring) (n : ℕ) (q : List (List ℕ))
    → Represents ring n q
    → next_write ring ≡ (n + length q) % length ring.ring_buffer
unfolding next_write
next_write-Represents ring n q rep =
    ap (next_buffer_location (length ring.ring_buffer)) rep.write_index
    ∙ next_buffer_location-index_at (length ring.ring_buffer) (n + length q)

pub next_write_bound :
    (ring : Ring) (n : ℕ) (q : List (List ℕ))
    → Represents ring n q
    → next_write ring < length ring.ring_buffer
next_write_bound ring n q rep =
    let place = next_write-Represents ring n q rep in
    let inside : (n + length q) % length ring.ring_buffer < length ring.ring_buffer =
      mod-lt (n + length q) (let most = rep.room in omega arith) in
    omega (arith, place, inside)

-- It holds none of those that wait.
next_write_free :
    (ring : Ring) (n : ℕ) (q : List (List ℕ)) (j : ℕ)
    → Represents ring n q
    → j < length q
    → next_write ring ≢ (n + j) % length ring.ring_buffer
next_write_free ring n q j rep l e =
    let ahead : n + j + (length q - j) ≡ n + length q = omega arith in
    turn (n + j) (length q - j) (length ring.ring_buffer) (omega arith)
      (let most = rep.room in omega arith)
      (ap (λ (k : ℕ). k % length ring.ring_buffer) ahead
        ∙ sym (next_write-Represents ring n q rep)
        ∙ e)

-- A write to the next buffer leaves what waits.
pub Represents-set :
    (ring : Ring) (n : ℕ) (q : List (List ℕ)) (b : Buffer)
    → Represents ring n q
    → Represents (record ring { ring_buffer = set ring.ring_buffer (next_write ring) b }) n q
Represents-set ring n q b rep =
    let size : length (set ring.ring_buffer (next_write ring) b) ≡ length ring.ring_buffer =
      length-set ring.ring_buffer (next_write ring) b in
    record {
      read_index = rep.read_index ∙ ap (λ (s : ℕ). index_at s n) (sym size);
      write_index = rep.write_index ∙ ap (λ (s : ℕ). index_at s (n + length q)) (sym size);
      waiting =
          Hold-set ring.ring_buffer (next_write ring) n q b
            (λ j l. next_write_free ring n q j rep l) rep.waiting;
      room = rw size rep.room;
    }

-- A datagram in it is one more that waits.
Represents-append :
    (ring : Ring) (n : ℕ) (q : List (List ℕ)) (b : Buffer) (d : List ℕ)
    → Represents ring n q
    → suc (length q) < length ring.ring_buffer
    → Holds (some b) d
    → Represents
        (record ring {
          ring_buffer = set ring.ring_buffer (next_write ring) b;
          last_ring_write_index = some (next_write ring);
        })
        n
        (q ++ (d ∷ []))
unfolding index_at
Represents-append ring n q b d rep more h =
    let i = next_write ring in
    let buffers = set ring.ring_buffer i b in
    let kept = Represents-set ring n q b rep in
    let size : length buffers ≡ length ring.ring_buffer = length-set ring.ring_buffer i b in
    let place : i ≡ (n + length q) % length buffers =
      next_write-Represents ring n q rep ∙ ap (λ (s : ℕ). (n + length q) % s) (sym size) in
    let count : length (q ++ (d ∷ [])) ≡ suc (length q) = omega (arith, length-append q (d ∷ [])) in
    record {
      read_index = kept.read_index;
      write_index =
          ap some place ∙ ap (index_at (length buffers)) {x = suc (n + length q)} (omega arith);
      waiting = Hold-append buffers n q d kept.waiting (
          subst (λ (o : Option Buffer). Holds o d)
            (sym (get_elem?-set_self ring.ring_buffer i b (next_write_bound ring n q rep))
              ∙ ap (get_elem? buffers) place)
            h);
      room = omega (arith, size, count);
    }

module _ (payload_size : ℕ) (d : List ℕ) (ring : Ring) where
  abbrev pub written : Buffer
  written =
      recvfrom payload_size (datagram d) (get_or ring.ring_buffer (next_write ring) empty_buffer)

  receive_one_empty :
      (length (take payload_size d) == 0) ≡ true
      → receive_one payload_size (datagram d) ring
        ≡ (record ring { ring_buffer = set ring.ring_buffer (next_write ring) written }, leave)
  unfolding receive_one settle after_recvfrom recvfrom
  receive_one_empty e =
      ap (settle ring (set ring.ring_buffer (next_write ring) written) (next_write ring))
        {y = leave} (rw e refl)

  pub receive_one_full :
      (length (take payload_size d) == 0) ≡ false
      → receive_one payload_size (datagram d) ring ≡ (
        record ring {
          ring_buffer = set ring.ring_buffer (next_write ring) written;
          last_ring_write_index = some (next_write ring);
        },
        go_on,
      )
  unfolding receive_one settle after_recvfrom recvfrom
  receive_one_full e =
      ap (settle ring (set ring.ring_buffer (next_write ring) written) (next_write ring))
        {y = go_on} (rw e refl)

-- A round of the receiving thread is an arrival in the queue.
pub receive_one-Represents :
    (payload_size : ℕ) (r : Received) (ring : Ring) (n : ℕ) (q : List (List ℕ))
    → suc (length q) < length ring.ring_buffer
    → Represents ring n q
    → Represents (receive_one payload_size r ring).0 n (q ++ arrivals payload_size r)
unfolding receive_one settle after_recvfrom arrivals
receive_one-Represents payload_size nothing ring n q more rep =
    subst (λ (l : List (List ℕ)). Represents (receive_one payload_size nothing ring).0 n l)
      (sym (append-nil q)) (Represents-set ring n q _ rep)
receive_one-Represents payload_size failed ring n q more rep =
    subst (λ (l : List (List ℕ)). Represents (receive_one payload_size failed ring).0 n l)
      (sym (append-nil q)) (Represents-set ring n q _ rep)
receive_one-Represents payload_size (datagram d) ring n q more rep =
    elim (Bool-cases (length (take payload_size d) == 0)) [
      | inl empty ↦
          let written = receive_one_empty payload_size d ring empty in
          let none_new : q ++ arrivals payload_size (datagram d) ≡ q = rw empty (append-nil q) in
          subst (λ (x : Ring × List (List ℕ)). Represents x.0 n x.1)
            (λ i. ((sym written i).0, sym none_new i)) (Represents-set ring n q _ rep)
      | inr full ↦
          let written = receive_one_full payload_size d ring full in
          let one_new : q ++ arrivals payload_size (datagram d) ≡ q ++ (take payload_size d ∷ []) =
            rw full refl in
          subst (λ (x : Ring × List (List ℕ)). Represents x.0 n x.1)
            (λ i. ((sym written i).0, sym one_new i))
            (Represents-append ring n q _ (take payload_size d) rep more
              (Holds-recvfrom payload_size d _ (ground (arith, full))))
    ]
