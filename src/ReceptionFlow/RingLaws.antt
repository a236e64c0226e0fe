-- ===== src/ReceptionFlow/RingLaws.antt =====
-- The ring buffer of src/reception_flow.cc holds the datagrams that wait.
use uvg_rtp.Prelude.{
  ltb, ltb→lt, Bool-cases, length, get_elem?, set, length-set, get_elem?-set_ne, take, ℕ, zero, suc,
  ◌+◌, ◌-◌, ◌%◌, ◌≤◌, ◌<◌, ◌≡◌, refl, sym, ap, ◌∙◌, ◌≢◌, inl, inr, Option, none, some, List, [],
  ◌∷◌, ◌++◌, arith,
}
use native.Mathlib.Nat.{suc-mod, mod-add-mod, mod-lt, mod-eq_of_lt, mod-eq-sub-mod}
use mathlib.Core.Path.{subst}
use uvg_rtp.ReceptionFlow.Ring.{Buffer, Ring, next_buffer_location, recvfrom, datagram}

-- The index that stands for n packets, counted from the start.
unfoldable pub index_at : ℕ → ℕ → Option ℕ
index_at size zero = none
index_at size (suc n) = some (n % size)

pub next_buffer_location-index_at :
    (size n : ℕ) → next_buffer_location size (index_at size n) ≡ n % size
unfolding next_buffer_location index_at
next_buffer_location-index_at size zero = refl
next_buffer_location-index_at size (suc n) = sym (suc-mod n size)

shifted : (r k m : ℕ) → r < m → 0 < k → k < m → (r + k) % m ≢ r
shifted r k m h0 h1 h2 e = elim (Bool-cases (ltb (r + k) m)) [
  | inl small ↦
      let same : (r + k) % m ≡ r + k = mod-eq_of_lt (ltb→lt (r + k) m small) in omega (arith, same)
  | inr large ↦
      let reach : m ≤ r + k = ground arith in
      let below : r + k - m < m = omega arith in
      let same : (r + k) % m ≡ r + k - m = mod-eq-sub-mod reach ∙ mod-eq_of_lt below in
      omega (arith, same)
]

-- Fewer than m steps do not lead back to the same buffer.
pub turn : (n k m : ℕ) → 0 < k → k < m → (n + k) % m ≢ n % m
turn n k m h1 h2 e =
    let room : 0 < m = omega arith in
    shifted (n % m) k m (mod-lt n room) h1 h2 (mod-add-mod n m k ∙ e)

-- A buffer with a datagram in it.
unfoldable pub Holds : Option Buffer → List ℕ → Type 0
Holds none d = ⊥
Holds (some b) d = (b.read ≡ some (length d)) × (take (length d) b.data_octets ≡ d) × (0 < length d)

-- The buffers from the n-th on, around the ring, hold these datagrams.
unfoldable pub Hold : List Buffer → ℕ → List (List ℕ) → Type 0
Hold buffers n [] = Unit {0}
Hold buffers n (d ∷ q) = Holds (get_elem? buffers (n % length buffers)) d × Hold buffers (suc n) q

-- The ring after n packets, with these datagrams waiting.
pub record Represents (ring : Ring) (n : ℕ) (q : List (List ℕ)) : Type 0 where
  pub read_index : ring.ring_read_index ≡ index_at (length ring.ring_buffer) n
  pub write_index : ring.last_ring_write_index ≡ index_at (length ring.ring_buffer) (n + length q)
  pub waiting : Hold ring.ring_buffer n q
  pub room : length q < length ring.ring_buffer

-- A write to another buffer.
pub get_elem?-set_other :
    (buffers : List Buffer) (i m : ℕ) (b : Buffer)
    → i ≢ m % length buffers
    → get_elem? (set buffers i b) (m % length (set buffers i b))
      ≡ get_elem? buffers (m % length buffers)
get_elem?-set_other buffers i m b other =
    ap (λ (k : ℕ). get_elem? (set buffers i b) (m % k)) (length-set buffers i b)
    ∙ get_elem?-set_ne buffers b other

pub later : (m j : ℕ) → suc m + j ≡ m + suc j
later m j = omega arith

-- A write to a buffer that holds none of them.
pub Hold-set :
    (buffers : List Buffer) (i m : ℕ) (q : List (List ℕ)) (b : Buffer)
    → ((j : ℕ) → j < length q → i ≢ (m + j) % length buffers)
    → Hold buffers m q
    → Hold (set buffers i b) m q
unfolding Hold
Hold-set buffers i m [] b other h = h
Hold-set buffers i m (d ∷ q) b other h =
    let first : m + 0 ≡ m = omega arith in
    let apart : i ≢ m % length buffers =
      λ e. other 0 (omega arith) (e ∙ ap (λ (k : ℕ). k % length buffers) (sym first)) in
    (
      subst (λ (o : Option Buffer). Holds o d) (sym (get_elem?-set_other buffers i m b apart)) h.0,
      Hold-set buffers i (suc m) q b
          (λ j l e.
            other (suc j) (omega arith) (e ∙ ap (λ (k : ℕ). k % length buffers) (later m j)))
          h.1,
    )

-- One more datagram behind the others.
pub Hold-append :
    (buffers : List Buffer) (m : ℕ) (q : List (List ℕ)) (d : List ℕ)
    → Hold buffers m q
    → Holds (get_elem? buffers ((m + length q) % length buffers)) d
    → Hold buffers m (q ++ (d ∷ []))
unfolding Hold
Hold-append buffers m [] d h last =
    (subst (λ (k : ℕ). Holds (get_elem? buffers (k % length buffers)) d) (omega arith) last, h)
Hold-append buffers m (e ∷ q) d h last = (
  h.0,
  Hold-append buffers (suc m) q d h.1 (
      subst (λ (k : ℕ). Holds (get_elem? buffers (k % length buffers)) d) (sym (later m (length q)))
        last),
)

take-octets : (xs ys : List ℕ) → take (length xs) (xs ++ ys) ≡ xs
take-octets [] ys = refl
take-octets (x ∷ xs) ys = ap (λ (l : List ℕ). x ∷ l) (take-octets xs ys)

-- What recvfrom() leaves in a buffer.
pub Holds-recvfrom :
    (payload_size : ℕ) (d : List ℕ) (b : Buffer)
    → 0 < length (take payload_size d)
    → Holds (some (recvfrom payload_size (datagram d) b)) (take payload_size d)
unfolding Holds recvfrom
Holds-recvfrom payload_size d b h = (refl, take-octets (take payload_size d) _, h)
