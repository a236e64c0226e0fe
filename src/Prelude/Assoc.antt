-- ===== src/Prelude/Assoc.antt =====
-- Maps with numbers for keys, as association lists. `insert_sorted` keeps the keys in rising order,
-- as std::map does; `insert` is for the unordered maps, and writes over an entry in place.
use Prim.Native.Nat.{ℕ, ◌<◌}
use mathlib.Core.Path.{◌≡◌, refl}
use mathlib.Core.List.{List, [], ◌∷◌, ◌++◌}
use mathlib.Core.Option.{Option, none, some}
use native.Mathlib.Omega.{arith}
use uvg_rtp.Prelude.Tests.{ltb, ◌==◌, if◌then◌else◌}

module _ {ℓ} {V : Type ℓ} where
  unfoldable pub lookup : ℕ → List (ℕ × V) → Option V
  lookup key [] = none
  lookup key (entry ∷ rest) = if key == entry.0 then some entry.1 else lookup key rest

  unfoldable pub insert : ℕ → V → List (ℕ × V) → List (ℕ × V)
  insert key value [] = (key, value) ∷ []
  insert key value (entry ∷ rest) =
      if key == entry.0 then (key, value) ∷ rest else entry ∷ insert key value rest

  unfoldable pub erase : ℕ → List (ℕ × V) → List (ℕ × V)
  erase k [] = []
  erase k ((j, w) ∷ m) = if j == k then erase k m else (j, w) ∷ erase k m

  unfoldable pub insert_sorted : ℕ → V → List (ℕ × V) → List (ℕ × V)
  insert_sorted k v [] = (k, v) ∷ []
  insert_sorted k v ((j, w) ∷ m) =
      if ltb k j
      then (k, v) ∷ ((j, w) ∷ m)
      else (if j == k then (k, v) ∷ m else (j, w) ∷ insert_sorted k v m)

  pub lookup-insert :
      (key other : ℕ) (value : V) (map : List (ℕ × V))
      → lookup other (insert key value map)
        ≡ (if other == key then some value else lookup other map)
  unfolding lookup insert
  lookup-insert key other value [] = refl
  lookup-insert key other value ((i, w) ∷ map) =
      let later = lookup-insert key other value map in ground arith

  pub lookup-erase :
      (k j : ℕ) (m : List (ℕ × V)) → lookup j (erase k m) ≡ (if k == j then none else lookup j m)
  unfolding lookup erase
  lookup-erase k j [] = ground arith
  lookup-erase k j ((i, w) ∷ m) = ground (arith, lookup-erase k j m)

  pub lookup-insert_self : (k : ℕ) (v : V) (m : List (ℕ × V)) → lookup k (insert k v m) ≡ some v
  lookup-insert_self k v m = ground (arith, lookup-insert k k v m)

  -- Every key of the map is below the bound.
  abbrev pub KeysBelow : ℕ → List (ℕ × V) → Type 0
  KeysBelow b [] = Unit {0}
  KeysBelow b ((j, w) ∷ m) = (j < b) × KeysBelow b m

  -- A key above all others goes to the end.
  pub insert_sorted-append :
      (k : ℕ) (v : V) (m : List (ℕ × V)) → KeysBelow k m → insert_sorted k v m ≡ m ++ ((k, v) ∷ [])
  unfolding insert_sorted
  insert_sorted-append k v [] h = refl
  insert_sorted-append k v ((j, w) ∷ m) h = ground (arith, insert_sorted-append k v m h.1)

  pub insert-insert :
      (k : ℕ) (v w : V) (m : List (ℕ × V)) → insert k w (insert k v m) ≡ insert k w m
  unfolding insert
  insert-insert k v w [] = ground arith
  insert-insert k v w ((j, u) ∷ m) = ground (arith, insert-insert k v w m)

  pub erase_absent : (k : ℕ) (m : List (ℕ × V)) → lookup k m ≡ none → erase k m ≡ m
  unfolding erase lookup
  erase_absent k [] h = refl
  erase_absent k ((j, u) ∷ m) h = ground (arith, erase_absent k m)

  pub erase-insert :
      (k : ℕ) (v : V) (m : List (ℕ × V)) → lookup k m ≡ none → erase k (insert k v m) ≡ m
  unfolding erase insert lookup
  erase-insert k v [] h = ground arith
  erase-insert k v ((j, u) ∷ m) h = ground (arith, erase-insert k v m, erase_absent k m)
