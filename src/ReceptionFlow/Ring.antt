-- ===== src/ReceptionFlow/Ring.antt =====
-- src/reception_flow.cc: the ring buffer, of which receiver() is the writer and process_packet() the
-- reader. The index -1, before the first packet, is `none`, as is a count of -1 octets.
use uvg_rtp.Prelude.{
  ltb, ◌==◌, if◌then◌else◌, length, set, get_or, take, drop, replicate, ℕ, zero, suc, ◌/◌, ◌%◌,
  Bool, true, false, Option, none, some, List, [], ◌∷◌, ◌++◌,
}

-- struct Buffer: `read` is the number of octets that were read into `data`.
pub record Buffer : Type 0 where
  pub data_octets : List ℕ
  pub read : Option ℕ

pub record Ring : Type 0 where
  pub ring_buffer : List Buffer
  pub ring_read_index : Option ℕ
  pub last_ring_write_index : Option ℕ

-- What socket::recvfrom() does: a datagram, nothing to read, or an error.
pub data Received : Type 0 where
  datagram : List ℕ → Received
  nothing failed : Received

-- create_ring_buffer(): the octets of new memory are arbitrary.
unfoldable pub create_ring_buffer : ℕ → ℕ → List ℕ → List Buffer
create_ring_buffer buffer_size payload_size fresh =
    replicate (buffer_size / payload_size)
      (record { data_octets = take payload_size fresh; read = some 0 })

unfoldable pub new_ring : ℕ → ℕ → List ℕ → Ring
new_ring buffer_size payload_size fresh = record {
  ring_buffer = create_ring_buffer buffer_size payload_size fresh;
  ring_read_index = none;
  last_ring_write_index = none;
}

unfoldable pub next_buffer_location : ℕ → Option ℕ → ℕ
next_buffer_location size none = 0 % size
next_buffer_location size (some i) = suc i % size

unfoldable pub next_write : Ring → ℕ
next_write ring = next_buffer_location (length ring.ring_buffer) ring.last_ring_write_index

-- `ring_read_index_ != last_ring_write_index_`.
unfoldable pub same_index : Option ℕ → Option ℕ → Bool
same_index none none = true
same_index none (some j) = false
same_index (some i) none = false
same_index (some i) (some j) = i == j

unfoldable pub empty_buffer : Buffer
empty_buffer = record { data_octets = []; read = some 0 }

-- recvfrom() into a buffer: what does not fit is cut off, and octets behind the datagram stay.
unfoldable pub recvfrom : ℕ → Received → Buffer → Buffer
recvfrom payload_size (datagram d) b =
    let octets = take payload_size d in
    record {
      data_octets = octets ++ drop (length octets) b.data_octets;
      read = some (length octets);
    }
recvfrom payload_size nothing b = record b { read = some 0 }
recvfrom payload_size failed b = record b { read = none }

-- What a round of receiver()'s inner loop leads to.
pub data Round : Type 0 where
  go_on leave stop_flow : Round

unfoldable pub after_recvfrom : Received → Buffer → Round
after_recvfrom (datagram d) b = elim b.read [
  | none ↦ go_on
  | some n ↦ if n == 0 then leave else go_on
]
after_recvfrom nothing b = leave
after_recvfrom failed b = stop_flow

-- The end of a round, with the buffers as they are and the index of the one that was written to.
unfoldable pub settle : Ring → List Buffer → ℕ → Round → Ring × Round
settle ring buffers i go_on =
    (record ring { ring_buffer = buffers; last_ring_write_index = some i }, go_on)
settle ring buffers i leave = (record ring { ring_buffer = buffers }, leave)
settle ring buffers i stop_flow = (record ring { ring_buffer = buffers }, stop_flow)

-- One round of the inner loop of receiver().
unfoldable pub receive_one : ℕ → Received → Ring → Ring × Round
receive_one payload_size r ring =
    let i = next_write ring in
    let b = recvfrom payload_size r (get_or ring.ring_buffer i empty_buffer) in
    settle ring (set ring.ring_buffer i b) i (after_recvfrom r b)

-- The inner loop of receiver(): the rounds until there is nothing to read, and whether the flow stops.
unfoldable pub receive_available : ℕ → List Received → Ring → Ring × Bool
receive_available payload_size [] ring = (ring, false)
receive_available payload_size (r ∷ rest) ring =
    let s = receive_one payload_size r ring in
    elim s.1 [
      | go_on ↦ receive_available payload_size rest s.0
      | leave ↦ (s.0, false)
      | stop_flow ↦ (s.0, true)
    ]

-- The buffer and the number of its octets that are handed to the handlers, if there are any.
unfoldable pub hand_on : Ring → ℕ → Buffer → Option ℕ → Ring × Option (List ℕ × ℕ)
hand_on ring i b none = (record ring { ring_read_index = some i }, none)
hand_on ring i b (some n) =
    if ltb 0 n
    then (
      record ring {
        ring_buffer = set ring.ring_buffer i (record b { read = some 0 });
        ring_read_index = some i;
      },
      some (b.data_octets, n),
    )
    else (record ring { ring_read_index = some i }, none)

-- One round of process_packet()'s inner loop.
unfoldable pub process_one : Ring → Ring × Option (List ℕ × ℕ)
process_one ring =
    let i = next_buffer_location (length ring.ring_buffer) ring.ring_read_index in
    let b = get_or ring.ring_buffer i empty_buffer in hand_on ring i b b.read

-- The inner loop of process_packet(): the packets that are handed on, in order.
unfoldable pub process_available : ℕ → Ring → Ring × List (List ℕ × ℕ)
process_available zero ring = (ring, [])
process_available (suc fuel) ring =
    let s = process_one ring in
    let rest = process_available fuel s.0 in
    if same_index ring.ring_read_index ring.last_ring_write_index
    then (ring, [])
    else (rest.0, elim s.1 [ none ↦ rest.1 | some p ↦ p ∷ rest.1 ])
