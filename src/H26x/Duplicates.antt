-- ===== src/H26x/Duplicates.antt =====
-- src/formats/h26x.cc, is_duplicate_frame(): the window of packets that were seen.
use uvg_rtp.Prelude.{
  sub64, ltb, ◌==◌, Bool-cases, ℕ, ◌+◌, ◌≤◌, ◌≡◌, refl, sym, ap, ◌∙◌, inl, inr, Bool, true, false,
  ◌||◌, List, [], ◌∷◌, ◌++◌, arith,
}
use mathlib.Core.Path.{subst}
use uvg_rtp.H26x.Reassembly.{
  H26xState, member, set_insert, set_erase, expire_seen, seen_key, is_duplicate_frame,
}

member-set_erase :
    (j k : ℕ) (xs : List ℕ) → (j == k) ≡ false → member j (set_erase k xs) ≡ member j xs
unfolding member set_erase
member-set_erase j k [] ne = refl
member-set_erase j k (x ∷ xs) ne = ground (arith, member-set_erase j k xs ne)

member-set_insert : (j k : ℕ) (xs : List ℕ) → member j (set_insert k xs) ≡ ((j == k) || member j xs)
unfolding member set_insert
member-set_insert j k [] = refl
member-set_insert j k (x ∷ xs) = ground (arith, member-set_insert j k xs)

abbrev keys : List (ℕ × ℕ) → List ℕ
keys [] = []
keys ((k, t) ∷ order) = k ∷ keys order

-- The window lists each packet once, and every one that it lists is in the set.
unfoldable pub Window : List (ℕ × ℕ) → List ℕ → Type 0
Window [] seen = Unit {0}
Window ((k, t) ∷ order) seen =
    (member k seen ≡ true) × (member k (keys order) ≡ false) × Window order seen

Window-set_erase :
    (k : ℕ) (order : List (ℕ × ℕ)) (seen : List ℕ)
    → member k (keys order) ≡ false
    → Window order seen
    → Window order (set_erase k seen)
unfolding Window member
Window-set_erase k [] seen new w = w
Window-set_erase k ((j, t) ∷ order) seen new (here, once, w) =
    let apart : (j == k) ≡ false = ground arith in
    let others : member k (keys order) ≡ false = ground arith in
    (member-set_erase j k seen apart ∙ here, once, Window-set_erase k order seen others w)

Window-expire_seen :
    (now : ℕ) (order : List (ℕ × ℕ)) (seen : List ℕ)
    → Window order seen
    → Window (expire_seen now order seen).0 (expire_seen now order seen).1
unfolding expire_seen Window
Window-expire_seen now [] seen w = tt
Window-expire_seen now ((k, t) ∷ order) seen (here, once, w) =
    elim (Bool-cases (ltb 5000 (sub64 now t))) [
      | inl old ↦
          rw old
            (Window-expire_seen now order (set_erase k seen) (Window-set_erase k order seen once w))
      | inr fresh ↦ rw fresh (here, once, w)
    ]

member-keys_append :
    (j k t : ℕ) (order : List (ℕ × ℕ))
    → member j (keys (order ++ ((k, t) ∷ []))) ≡ (member j (keys order) || (j == k))
unfolding member
member-keys_append j k t [] = ground arith
member-keys_append j k t ((i, u) ∷ order) = ground (arith, member-keys_append j k t order)

-- What is in the window is in the set.
member-keys :
    (j : ℕ) (order : List (ℕ × ℕ)) (seen : List ℕ)
    → Window order seen
    → member j seen ≡ false
    → member j (keys order) ≡ false
unfolding Window member
member-keys j [] seen w absent = refl
member-keys j ((k, t) ∷ order) seen (here, once, w) absent =
    let rest = member-keys j order seen w absent in
    elim (Bool-cases (j == k)) [
      | inl same ↦
          let equal : j ≡ k = ground arith in
          absurd
            (let both : member j seen ≡ true = ap (λ (i : ℕ). member i seen) equal ∙ here in cc)
      | inr other ↦ rw (other, rest) refl
    ]

-- A packet at the end of the window.
Window-append :
    (k t : ℕ) (order : List (ℕ × ℕ)) (seen : List ℕ)
    → Window order seen
    → member k seen ≡ false
    → Window (order ++ ((k, t) ∷ [])) (set_insert k seen)
unfolding Window member
Window-append k t [] seen w absent = (member-set_insert k k seen ∙ ground arith, refl, tt)
Window-append k t ((j, u) ∷ order) seen (here, once, w) absent =
    let apart : (j == k) ≡ false = elim (Bool-cases (j == k)) [
      | inl same ↦
          let equal : j ≡ k = ground arith in
          absurd
            (let both : member j seen ≡ false = ap (λ (i : ℕ). member i seen) equal ∙ absent in cc)
      | inr other ↦ other
    ] in
    (
      member-set_insert j k seen ∙ ground (arith, here),
      member-keys_append j k t order ∙ rw (once, apart) refl,
      Window-append k t order seen w absent,
    )

member_at_end :
    (k t : ℕ) (order : List (ℕ × ℕ)) (seen : List ℕ)
    → Window (order ++ ((k, t) ∷ [])) seen
    → member k seen ≡ true
unfolding Window
member_at_end k t [] seen (here, once, w) = here
member_at_end k t ((j, u) ∷ order) seen (here, once, w) = member_at_end k t order seen w

-- A packet at the end of the window stays in the set while it is not too old.
expire_seen-last :
    (now k t : ℕ) (order : List (ℕ × ℕ)) (seen : List ℕ)
    → t ≤ now
    → now ≤ t + 5000
    → Window (order ++ ((k, t) ∷ [])) seen
    → member k (expire_seen now (order ++ ((k, t) ∷ [])) seen).1 ≡ true
unfolding expire_seen Window member sub64
expire_seen-last now k t [] seen after soon (here, once, w) =
    let fresh : ltb 5000 (sub64 now t) ≡ false = ground arith in rw fresh here
expire_seen-last now k t ((j, u) ∷ order) seen after soon (here, once, w) =
    let parts = member-keys_append j k t order in
    let later = Window-set_erase j (order ++ ((k, t) ∷ [])) seen once w in
    elim (Bool-cases (ltb 5000 (sub64 now u))) [
      | inl old ↦ rw old (expire_seen-last now k t order (set_erase j seen) after soon later)
      | inr fresh ↦ rw fresh (member_at_end k t order seen w)
    ]

-- A state whose window lists each packet once.
abbrev pub Tracking : H26xState → Type 0
Tracking s = Window s.seen_order s.seen_packets

module _ (now timestamp seq : ℕ) (s : H26xState) where
  -- The state after a packet that is new.
  abbrev seen_state : H26xState
  seen_state = record s {
    seen_order =
        (expire_seen now s.seen_order s.seen_packets).0 ++ ((seen_key timestamp seq, now) ∷ []);
    seen_packets =
        set_insert (seen_key timestamp seq) (expire_seen now s.seen_order s.seen_packets).1;
  }

  found :
      member (seen_key timestamp seq) (expire_seen now s.seen_order s.seen_packets).1 ≡ true
      → (is_duplicate_frame now timestamp seq s).0 ≡ true
  unfolding is_duplicate_frame
  found e = rw e refl

  not_found :
      (is_duplicate_frame now timestamp seq s).0 ≡ false
      → member (seen_key timestamp seq) (expire_seen now s.seen_order s.seen_packets).1 ≡ false
  not_found new =
      elim (Bool-cases
        (member (seen_key timestamp seq) (expire_seen now s.seen_order s.seen_packets).1)) [
          | inl e ↦ absurd (let dup = found e in cc)
          | inr e ↦ e
        ]

  accepted :
      (is_duplicate_frame now timestamp seq s).0 ≡ false
      → is_duplicate_frame now timestamp seq s ≡ (false, seen_state)
  unfolding is_duplicate_frame
  accepted new = rw (not_found new) refl

-- If the window lists each packet once, and only packets of the set: after a packet that is no
-- duplicate, it still does, and a packet with the same time stamp and sequence number that comes at that
-- time or within 5000 ms after it is a duplicate.
pub is_duplicate_frame-is_duplicate_frame :
    (now later timestamp seq : ℕ) (s : H26xState)
    → Tracking s
    → (is_duplicate_frame now timestamp seq s).0 ≡ false
    → now ≤ later
    → later ≤ now + 5000
    → let s' = (is_duplicate_frame now timestamp seq s).1 in
      Tracking s' × ((is_duplicate_frame later timestamp seq s').0 ≡ true)
is_duplicate_frame-is_duplicate_frame now later timestamp seq s w new after soon =
    let key = seen_key timestamp seq in
    let order = (expire_seen now s.seen_order s.seen_packets).0 in
    let seen = (expire_seen now s.seen_order s.seen_packets).1 in
    let tracked : Tracking (seen_state now timestamp seq s) =
      Window-append key now order seen (Window-expire_seen now s.seen_order s.seen_packets w)
        (not_found now timestamp seq s new) in
    subst
      (λ (x : Bool × H26xState).
        Tracking x.1 × ((is_duplicate_frame later timestamp seq x.1).0 ≡ true))
      (sym (accepted now timestamp seq s new))
      (
        tracked,
        found later timestamp seq (seen_state now timestamp seq s)
            (expire_seen-last later key now order (set_insert key seen) after soon tracked),
      )
