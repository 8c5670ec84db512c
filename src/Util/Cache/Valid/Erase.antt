-- ===== src/Util/Cache/Valid/Erase.antt =====
-- `erase`, `contains` and `get_or_set`.

use cppnet.Prelude.{
  ℕ, List, Bool, Option, [], false, if◌then◌else◌, none, some, true, ◌==◌, ◌∷◌, ◌≡◌, arith, refl,
  ap, sym, ◌∙◌, Bool-cases, inl, inr, Option-cases,
}
use mathlib.Core.Path.{subst}
use cppnet.Prelude.Memory.{done, fault}
use cppnet.Util.Cache.{
  Node, Cache, find_id, erase_key, remove, prev_in, contains, erase, set_entry, get_entry,
  get_or_set, hand_behind,
}
use cppnet.Util.Cache.Nodes.{
  index, has_id, IsOrdered, index-remove, length-remove, IsOrdered-erase_key, find_id-erase_key,
  node_of-find_id, has_id-node_of,
}
use cppnet.Util.Cache.Evict.{IsHand, prev_in_lem, has_id-cons}
use cppnet.Util.Cache.Valid.{IsValid, IsHand-prev}

module _ {V : Type 0} where
  has_id-remove_other :
      (h id : ℕ) (ns : List (Node V))
      → has_id h (index ns) ≡ true
      → (h == id) ≡ false
      → has_id h (index (remove id ns)) ≡ true
  has_id-remove_other h id [] k other = k
  has_id-remove_other h id (n ∷ ns) k other = elim (Bool-cases (n.id == id)) [
    | inl e ↦
        ap (λ (b : Bool). has_id h (index (if b then ns else n ∷ remove id ns))) e
        ∙ ground (arith, k, e, other)
    | inr e ↦ has_id-cons h id n ns e (ground (arith, k, has_id-remove_other h id ns))
  ]

  hand_behind_lem :
      (hand : Option ℕ) (id : ℕ) (ns : List (Node V))
      → IsHand hand ns
      → (r : Option ℕ) × (hand_behind (done none) hand id ns ≡ done r) × IsHand r (remove id ns)
  hand_behind_lem none id ns h = (none, refl, tt)
  hand_behind_lem (some hand) id ns h = elim (Bool-cases (hand == id)) [
    | inl e ↦
        let same : hand ≡ id = ground (arith, e) in
        let r = prev_in_lem none hand ns h in
        (
          r.0,
          ap (λ (b : Bool). if b then prev_in (done none) hand ns else done (some hand)) e ∙ r.1,
          subst (λ x. IsHand r.0 (remove x ns)) same (IsHand-prev r.0 (remove hand ns) r.2),
        )
    | inr e ↦ (
      some hand,
      ap (λ (b : Bool). if b then prev_in (done none) hand ns else done (some hand)) e,
      has_id-remove_other hand id ns h e,
    )
  ]

  contains_missing : (key : ℕ) (s : Cache V) → find_id key s.lookup ≡ none → contains key s ≡ false
  unfolding contains
  contains_missing key s h = rw (contains, h) refl

  contains_found :
      (key id : ℕ) (s : Cache V) → find_id key s.lookup ≡ some id → contains key s ≡ true
  unfolding contains
  contains_found key id s h = rw (contains, h) refl

  erase-found :
      (key id : ℕ) (s : Cache V)
      → IsValid s
      → s.before_begin ≡ done none
      → find_id key s.lookup ≡ some id
      → (t : Cache V) × (erase key s ≡ done (true, t)) × IsValid t × (contains key t ≡ false)
  unfolding erase
  erase-found key id s v wraps h =
      let n =
        node_of-find_id s.next_id key id s.entries v.order (sym (ap (find_id key) v.found) ∙ h) in
      let hand = hand_behind_lem s.hand id s.entries v.aims in
      let left : index (remove id s.entries) ≡ erase_key key s.lookup =
        index-remove s.next_id id n.0 s.entries v.order n.1
        ∙ ap (λ k. erase_key k (index s.entries)) n.2
        ∙ sym (ap (erase_key key) v.found) in
      let order : IsOrdered s.next_id s.lookup =
        subst (IsOrdered s.next_id) (sym v.found) v.order in
      let t : Cache V = record s {
        hand = hand.0;
        entries = remove id s.entries;
        lookup = erase_key key s.lookup;
      } in
      (
        t,
        rw (erase, h, wraps, hand.1) refl,
        record {
          order =
              subst (IsOrdered s.next_id) (sym left)
                (IsOrdered-erase_key s.next_id key s.lookup order);
          found = sym left;
          aims = hand.2;
          fits =
              omega
                (arith, v.fits, length-remove id s.entries (has_id-node_of id n.0 s.entries n.1));
        },
        contains_missing key t (find_id-erase_key s.next_id key s.lookup order),
      )

  erase-missing :
      (key : ℕ) (s : Cache V) → find_id key s.lookup ≡ none → erase key s ≡ done (false, s)
  unfolding erase
  erase-missing key s h = rw (erase, h) refl

  -- Where `std::prev` of the first entry is `end()`, `erase` on a valid cache ends without a fault,
  -- says whether the key was there, and leaves a valid cache without the key.
  pub erase-IsValid :
      (key : ℕ) (s : Cache V)
      → IsValid s
      → s.before_begin ≡ done none
      → (t : Cache V) × (erase key s ≡ done (contains key s, t))
        × IsValid t
        × (contains key t ≡ false)
  erase-IsValid key s v wraps = elim (Option-cases (find_id key s.lookup)) [
    | inl missing ↦ (
      s,
      erase-missing key s missing ∙ ap (λ b. done (b, s)) (sym (contains_missing key s missing)),
      v,
      contains_missing key s missing,
    )
    | inr at ↦
        let r = erase-found key at.0 s v wraps at.1 in
        (r.0, r.1 ∙ ap (λ b. done (b, r.0)) (sym (contains_found key at.0 s at.1)), r.2, r.3)
  ]

  get_entry-missing :
      (key : ℕ) (s : Cache V) → contains key s ≡ false → get_entry key s ≡ done (none, s)
  unfolding get_entry contains
  get_entry-missing key s h = elim (Option-cases (find_id key s.lookup)) [
    | inl missing ↦ rw (get_entry, missing) refl
    | inr at ↦ absurd (ground (arith, h, contains_found key at.0 s at.1))
  ]

  -- `get_or_set` of a key that the cache does not contain locks the mutex that it holds, in `set`.
  pub get_or_set-missing :
      (key : ℕ) (f : ℕ → V) (s : Cache V) → contains key s ≡ false → get_or_set key f s ≡ fault
  unfolding get_or_set set_entry
  get_or_set-missing key f s h = rw (get_entry-missing key s h) refl
