-- ===== src/Util/Cache/Valid/Set.antt =====
-- `set`, and what `get` finds behind it.

use cppnet.Prelude.{
  ℕ, List, Option, false, length, none, some, ◌∷◌, ◌≡◌, ◌<◌, arith, refl, ap, sym, ◌∙◌, Bool-cases,
  Option-cases, inl, inr, leb, true, Bool, if◌then◌else◌,
}
use mathlib.Core.Path.{subst}
use cppnet.Prelude.Memory.{done, fault}
use cppnet.Util.Cache.{
  Node, Cache, find_id, node_of, change, visit, push_entry, get_entry, assign, set_under_lock,
  set_entry,
}
use cppnet.Util.Cache.Nodes.{
  index, index-change, IsOrdered, length-index, has_id, node_of-find_id, node_of-change,
}
use cppnet.Util.Cache.Evict.{IsHand}
use cppnet.Util.Cache.Valid.{IsValid, evict-IsValid}

module _ {V : Type 0} where
  IsHand-cons : (r : Option ℕ) (n : Node V) (ns : List (Node V)) → IsHand r ns → IsHand r (n ∷ ns)
  IsHand-cons none n ns h = tt
  IsHand-cons (some r) n ns h = ground (arith, h)

  pub IsHand-index :
      (r : Option ℕ) (ms ns : List (Node V)) → index ms ≡ index ns → IsHand r ns → IsHand r ms
  IsHand-index none ms ns e h = tt
  IsHand-index (some r) ms ns e h = ap (has_id r) e ∙ h

  -- A change of one entry, which keeps its key.
  pub change-IsValid :
      (f : Node V → Node V)
      → ((n : Node V) → (f n).key ≡ n.key)
      → ((n : Node V) → (f n).id ≡ n.id)
      → (id : ℕ) (s : Cache V) → IsValid s
      → IsValid (record s { entries = change f id s.entries })
  change-IsValid f keys ids id s v =
      let same : index (change f id s.entries) ≡ index s.entries =
        index-change f keys ids id s.entries in
      record {
        order = subst (IsOrdered s.next_id) (sym same) v.order;
        found = v.found ∙ sym same;
        aims = IsHand-index s.hand (change f id s.entries) s.entries same v.aims;
        fits = omega (
          arith,
          length-index (change f id s.entries),
          length-index s.entries,
          ap length same,
          v.fits,
        );
      }

  -- `get` of a key that is in the table gives the value at its entry.
  pub get_entry-found :
      (key id : ℕ) (n : Node V) (s : Cache V)
      → find_id key s.lookup ≡ some id
      → node_of id s.entries ≡ done n
      → get_entry key s ≡ done (some n.val, record s { entries = change visit id s.entries })
  unfolding get_entry
  get_entry-found key id n s h e = rw (get_entry, h, e) refl

  push_entry-IsValid :
      (key : ℕ) (val : V) (s : Cache V)
      → IsValid s
      → find_id key s.lookup ≡ none
      → length s.entries < s.capacity
      → IsValid (push_entry key val s)
  unfolding push_entry
  push_entry-IsValid key val s v h lt = record {
    order = (omega arith, sym (ap (find_id key) v.found) ∙ h, v.order);
    found = ap (λ es. (key, s.next_id) ∷ es) v.found;
    aims =
        IsHand-cons s.hand (record { id = s.next_id; key = key; val = val; visited = false })
          s.entries v.aims;
    fits = omega (arith, lt);
  }

  push_entry-get :
      (key : ℕ) (val : V) (s : Cache V)
      → (u : Cache V) × (get_entry key (push_entry key val s) ≡ done (some val, u))
  unfolding push_entry
  push_entry-get key val s = (
    _,
    get_entry-found key s.next_id (record { id = s.next_id; key = key; val = val; visited = false })
        (push_entry key val s) (ground arith) (ground arith),
  )

  set_under_lock-present :
      (key id : ℕ) (val : V) (s : Cache V)
      → IsValid s
      → find_id key s.lookup ≡ some id
      → (t u : Cache V) × (set_under_lock key val s ≡ done (some t))
        × IsValid t
        × (get_entry key t ≡ done (some val, u))
  unfolding set_under_lock
  set_under_lock-present key id val s v h =
      let n =
        node_of-find_id s.next_id key id s.entries v.order (sym (ap (find_id key) v.found) ∙ h) in
      let t : Cache V = record s { entries = change (assign val) id s.entries } in
      (
        t,
        _,
        rw (set_under_lock, h, n.1) refl,
        change-IsValid (assign val) (λ n. refl) (λ n. refl) id s v,
        get_entry-found key id (assign val n.0) t h
            (node_of-change (assign val) (λ n. refl) id n.0 s.entries n.1),
      )

  set_under_lock-full :
      (key : ℕ) (val : V) (s : Cache V)
      → IsValid s
      → s.before_begin ≡ done none
      → 0 < s.capacity
      → find_id key s.lookup ≡ none
      → leb s.capacity (length s.entries) ≡ true
      → (t u : Cache V) × (set_under_lock key val s ≡ done (some t))
        × IsValid t
        × (get_entry key t ≡ done (some val, u))
  unfolding set_under_lock
  set_under_lock-full key val s v wraps some_room h full =
      let r = evict-IsValid s v wraps (ground (arith, full, some_room)) in
      let got = push_entry-get key val r.0 in
      (
        push_entry key val r.0,
        got.0,
        rw (set_under_lock, h, full, r.1) refl,
        push_entry-IsValid key val r.0 r.2 (r.4 key h) (omega (arith, r.3, v.fits, r.5)),
        got.1,
      )

  set_under_lock-room :
      (key : ℕ) (val : V) (s : Cache V)
      → IsValid s
      → find_id key s.lookup ≡ none
      → leb s.capacity (length s.entries) ≡ false
      → (t u : Cache V) × (set_under_lock key val s ≡ done (some t))
        × IsValid t
        × (get_entry key t ≡ done (some val, u))
  unfolding set_under_lock
  set_under_lock-room key val s v h room =
      let got = push_entry-get key val s in
      (
        push_entry key val s,
        got.0,
        rw (set_under_lock, h, room) refl,
        push_entry-IsValid key val s v h (ground (arith, room)),
        got.1,
      )

  set_under_lock-IsValid :
      (key : ℕ) (val : V) (s : Cache V)
      → IsValid s
      → s.before_begin ≡ done none
      → 0 < s.capacity
      → (t u : Cache V) × (set_under_lock key val s ≡ done (some t))
        × IsValid t
        × (get_entry key t ≡ done (some val, u))
  set_under_lock-IsValid key val s v wraps some_room = elim (Option-cases (find_id key s.lookup)) [
    | inr at ↦ set_under_lock-present key at.0 val s v at.1
    | inl missing ↦ elim (Bool-cases (leb s.capacity (length s.entries))) [
      | inl full ↦ set_under_lock-full key val s v wraps some_room missing full
      | inr room ↦ set_under_lock-room key val s v missing room
    ]
  ]

  -- Where `std::prev` of the first entry is `end()`, with a capacity of at least one, and the lock
  -- free, `set` on a valid cache ends without a fault, its search for an entry to take away too,
  -- leaves a valid cache, and `get` of the key then gives the value.
  pub set_entry-IsValid :
      (key : ℕ) (val : V) (s : Cache V)
      → IsValid s
      → s.before_begin ≡ done none
      → s.locked ≡ false
      → 0 < s.capacity
      → (t u : Cache V) × (set_entry key val s ≡ done (some t))
        × IsValid t
        × (get_entry key t ≡ done (some val, u))
  unfolding set_entry
  set_entry-IsValid key val s v wraps free some_room =
      let r = set_under_lock-IsValid key val s v wraps some_room in
      (
        r.0,
        r.1,
        ap (λ (b : Bool). if b then fault else set_under_lock key val s) free ∙ r.2,
        r.3,
        r.4,
      )
