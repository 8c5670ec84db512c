-- ===== src/Util/Cache/Valid.antt =====
-- What the operations of a cache keep.
pub mod Set
pub mod Erase
use cppnet.Prelude.{
  ℕ, List, Option, [], length, none, some, true, ◌+◌, ◌∷◌, ◌≡◌, ◌<◌, arith, refl, ap, sym, ◌∙◌, inl,
  inr, ◌⊎◌, ◌≤◌, suc,
}
use mathlib.Core.Path.{subst}
use cppnet.Prelude.Memory.{done, ◌>>=◌, ◌>>?◌, Run}
use cppnet.Util.Cache.{
  Node, Cache, find_id, erase_key, remove, first_old, evict_at, new_cache, evict_loop, evict,
}
use cppnet.Util.Cache.Nodes.{
  index, has_id, node_of-has_id, IsOrdered, length-index, index-remove, length-remove,
  IsOrdered-erase_key, find_id-erase_key_other,
}
use cppnet.Util.Cache.Evict.{
  IsHand, prev_in_lem, last_id-cons, count_visited-length, evict_loop_lem,
}

-- The table leads each key to its entry, no key stands twice, the hand is `end()` or at an entry,
-- and there are at most as many entries as the capacity.
pub record IsValid {V : Type 0} (s : Cache V) : Type 0 where
  pub order : IsOrdered s.next_id (index s.entries)
  pub found : s.lookup ≡ index s.entries
  pub aims : IsHand s.hand s.entries
  pub fits : length s.entries ≤ s.capacity

module _ {V : Type 0} where
  pub new_cache-IsValid :
      (before_begin : Run (Option ℕ)) (capacity : ℕ)
      → IsValid {V = V} (new_cache before_begin capacity)
  unfolding new_cache
  new_cache-IsValid before_begin capacity = record {
    order = tt;
    found = refl;
    aims = tt;
    fits = omega arith;
  }

  first_old_lem :
      (hand : Option ℕ) (ns : List (Node V))
      → 0 < length ns
      → IsHand hand ns
      → (old : ℕ) × (first_old hand ns ≡ some old) × (has_id old (index ns) ≡ true)
  first_old_lem none [] lt h = absurd (omega arith)
  first_old_lem none (n ∷ ns) lt h = last_id-cons n ns
  first_old_lem (some hand) ns lt h = (hand, refl, h)

  pub IsHand-prev :
      (r : Option ℕ) (ns : List (Node V))
      → ((r ≡ none) ⊎ ((h : ℕ) × (r ≡ some h) × (has_id h (index ns) ≡ true)))
      → IsHand r ns
  IsHand-prev r ns (inl e) = subst (λ o. IsHand o ns) (sym e) tt
  IsHand-prev r ns (inr k) = subst (λ o. IsHand o ns) (sym k.1) k.2

  -- The node is taken away with its key.
  evict_at-IsValid :
      (old : ℕ) (ms : List (Node V)) (s : Cache V)
      → IsValid s
      → s.before_begin ≡ done none
      → index ms ≡ index s.entries
      → has_id old (index ms) ≡ true
      → (t : Cache V) × (evict_at old ms s ≡ done t)
        × IsValid t
        × (length t.entries + 1 ≡ length s.entries)
        × ((key : ℕ) → find_id key s.lookup ≡ none → find_id key t.lookup ≡ none)
        × (t.capacity ≡ s.capacity)
  unfolding evict_at
  evict_at-IsValid old ms s v wraps same h =
      let prev = prev_in_lem none old ms h in
      let n = node_of-has_id old ms h in
      let order : IsOrdered s.next_id (index ms) = subst (IsOrdered s.next_id) (sym same) v.order in
      let left : index (remove old ms) ≡ erase_key n.0.key s.lookup =
        index-remove s.next_id old n.0 ms order n.1 ∙ ap (erase_key n.0.key) (same ∙ sym v.found) in
      let size : length (remove old ms) + 1 ≡ length s.entries =
        length-remove old ms h ∙ sym (length-index ms) ∙ ap length same ∙ length-index s.entries in
      (
        record s { hand = prev.0; lookup = erase_key n.0.key s.lookup; entries = remove old ms },
        rw (wraps, prev.1, n.1) refl,
        record {
          order = subst (IsOrdered s.next_id) (sym left) (
              IsOrdered-erase_key s.next_id n.0.key s.lookup
                (subst (IsOrdered s.next_id) (sym v.found) v.order));
          found = sym left;
          aims = IsHand-prev prev.0 (remove old ms) prev.2;
          fits = omega (arith, size, v.fits);
        },
        size,
        λ key k. find_id-erase_key_other n.0.key key s.lookup k,
        refl,
      )

  -- `evict` takes one entry away.
  pub evict-IsValid :
      (s : Cache V)
      → IsValid s
      → s.before_begin ≡ done none
      → 0 < length s.entries
      → (t : Cache V) × (evict s ≡ done (some t))
        × IsValid t
        × (length t.entries + 1 ≡ length s.entries)
        × ((key : ℕ) → find_id key s.lookup ≡ none → find_id key t.lookup ≡ none)
        × (t.capacity ≡ s.capacity)
  unfolding evict
  evict-IsValid s v wraps lt =
      let first = first_old_lem s.hand s.entries lt v.aims in
      let end =
        evict_loop_lem (suc (length s.entries)) first.0 s.entries
          (omega (arith, count_visited-length s.entries)) first.2 in
      let last = evict_at-IsValid end.0.0 end.0.1 s v wraps end.2 end.3 in
      (
        last.0,
        ap
              (λ (o : Option ℕ). evict_loop (suc (length s.entries)) o s.entries >>? λ r.
                evict_at r.0 r.1 s >>= λ t. done (some t))
              first.1
            ∙ ap
                (λ (m : Run (Option (ℕ × List (Node V)))).
                  m >>? λ r. evict_at r.0 r.1 s >>= λ t. done (some t))
                end.1
            ∙ ap (λ (m : Run (Cache V)). m >>= λ t. done (some t)) last.1,
        last.2,
        last.3,
        last.4,
        last.5,
      )
