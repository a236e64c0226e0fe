-- ===== src/Rtcp/Kept.antt =====
-- src/rtcp.cc: which items set_sdes_items() keeps.
use uvg_rtp.Prelude.{
  ◌==◌, if◌then◌else◌, ==_iff, Bool-cases, ℕ, suc, ◌≤◌, ◌<◌, ◌≡◌, refl, ap, ◌∙◌, inl, inr, false,
  List, [], ◌∷◌, arith,
}
use uvg_rtp.Rtcp.Packets.{SdesItem}
use uvg_rtp.Rtcp.Report.{Reporter}
use uvg_rtp.Rtcp.Sdes.{find_invalid, is_ignored, add_items, set_sdes_items}
use uvg_rtp.Rtcp.Named.{equal_self, any_cname, unequal}

-- The items up to the first CNAME without those of type 0, and all from the CNAME on.
abbrev pub without_invalid : List SdesItem → List SdesItem
without_invalid [] = []
without_invalid (item ∷ items) =
    if item.type == 0
    then without_invalid items
    else if item.type == 1
    then item ∷ items
    else item ∷ without_invalid items

-- Those, behind the item with the host's name if there is no CNAME among them.
abbrev pub accepted : SdesItem → List SdesItem → List SdesItem
accepted cname_item items =
    if any_cname items then without_invalid items else cname_item ∷ without_invalid items

find_invalid-any_cname :
    (i : ℕ) (items : List SdesItem) → (find_invalid i items).1 ≡ any_cname items
unfolding find_invalid any_cname
find_invalid-any_cname i [] = refl
find_invalid-any_cname i (item ∷ items) =
    let rest = find_invalid-any_cname (suc i) items in
    elim (Bool-cases (item.type == 0)) [
      | inl invalid ↦ (let zero_type = (==_iff item.type 0).0 invalid in rw zero_type rest)
      | inr valid ↦ elim (Bool-cases (item.type == 1)) [
        | inl named ↦ rw (valid, named) refl
        | inr unnamed ↦ rw (valid, unnamed) rest
      ]
    ]

add_items-whole :
    (to_ignore : List ℕ) (i : ℕ) (items : List SdesItem)
    → ((j : ℕ) → i ≤ j → is_ignored j to_ignore ≡ false)
    → add_items to_ignore i items ≡ items
unfolding add_items
add_items-whole to_ignore i [] none_ignored = refl
add_items-whole to_ignore i (item ∷ items) none_ignored =
    rw
      (
        none_ignored i (omega arith),
        add_items-whole to_ignore (suc i) items (λ j after. none_ignored j (omega arith)),
      )
      refl

-- Only indices from `i` on are found.
not_ignored :
    (j i : ℕ) (items : List SdesItem) → j < i → is_ignored j (find_invalid i items).0 ≡ false
unfolding find_invalid is_ignored
not_ignored j i [] before = refl
not_ignored j i (item ∷ items) before =
    let rest = not_ignored j (suc i) items (omega arith) in
    let other : (j == i) ≡ false = ground arith in
    elim (Bool-cases (item.type == 0)) [
      | inl invalid ↦ rw (invalid, other) rest
      | inr valid ↦ elim (Bool-cases (item.type == 1)) [
        | inl named ↦ rw (valid, named) refl
        | inr unnamed ↦ rw (valid, unnamed) rest
      ]
    ]

add_items-without_invalid :
    (to_ignore : List ℕ) (i : ℕ) (items : List SdesItem)
    → ((j : ℕ) → i ≤ j → is_ignored j to_ignore ≡ is_ignored j (find_invalid i items).0)
    → add_items to_ignore i items ≡ without_invalid items
unfolding find_invalid add_items is_ignored
add_items-without_invalid to_ignore i [] same = refl
add_items-without_invalid to_ignore i (item ∷ items) same = elim (Bool-cases (item.type == 0)) [
  | inl invalid ↦
      rw (same i (omega arith), invalid, equal_self i)
        (add_items-without_invalid to_ignore (suc i) items
          (λ j after. same j (omega arith) ∙ rw (invalid, unequal i j after) refl))
  | inr valid ↦ elim (Bool-cases (item.type == 1)) [
    | inl named ↦
        rw (same i (omega arith), valid, named)
          (ap (λ (rest : List SdesItem). item ∷ rest)
            (add_items-whole to_ignore (suc i) items
              (λ j after. same j (omega arith) ∙ rw (valid, named) refl)))
    | inr unnamed ↦
        rw (same i (omega arith), valid, unnamed, not_ignored i (suc i) items (omega arith))
          (ap (λ (rest : List SdesItem). item ∷ rest)
            (add_items-without_invalid to_ignore (suc i) items
              (λ j after. same j (omega arith) ∙ rw (valid, unnamed) refl)))
  ]
]

pub set_sdes_items-accepted :
    (cname_item : SdesItem) (items : List SdesItem) (r : Reporter)
    → (set_sdes_items cname_item items r).our_items ≡ accepted cname_item items
unfolding set_sdes_items
set_sdes_items-accepted cname_item items r =
    rw
      (
        find_invalid-any_cname 0 items,
        add_items-without_invalid (find_invalid 0 items).0 0 items (λ j after. refl),
      )
      refl
