-- ===== src/Util/Cache.antt =====
-- include/util/cache.hpp. The nodes of its list are told apart by numbers, and an iterator is the
-- number of its node, or `none` for `end()`. `evict` and `erase` may call `std::prev` on the first
-- node, which the standard leaves undefined: what the call gives is a parameter, a field of the cache,
-- which is `fault` where the program may do anything. Keys are numbers.
pub mod Nodes
pub mod Evict
pub mod Valid
use cppnet.Prelude.{
  ℕ, List, Bool, Option, [], false, if◌then◌else◌, leb, length, none, some, suc, true, zero, ◌+◌,
  ◌==◌, ◌∷◌,
}
use cppnet.Prelude.Memory.{Run, done, fault, ◌>>=◌, ◌>>?◌}

-- The struct `entry`, with the number of its node.
pub record Node (V : Type 0) : Type 0 where
  pub id : ℕ
  pub key : ℕ
  pub val : V
  pub visited : Bool

-- The class `cache`. `next_id` is a number of no node yet, and `locked` says whether the calling
-- thread holds the mutex. `before_begin` is what `std::prev(entries.begin())` gives.
pub record Cache (V : Type 0) : Type 0 where
  pub capacity : ℕ
  pub lookup : List (ℕ × ℕ)
  pub entries : List (Node V)
  pub hand : Option ℕ
  pub next_id : ℕ
  pub locked : Bool
  pub before_begin : Run (Option ℕ)

abbrev pub find_id : ℕ → List (ℕ × ℕ) → Option ℕ
find_id key [] = none
find_id key (e ∷ rest) = if e.0 == key then some e.1 else find_id key rest

abbrev pub erase_key : ℕ → List (ℕ × ℕ) → List (ℕ × ℕ)
erase_key key [] = []
erase_key key (e ∷ rest) = if e.0 == key then rest else e ∷ erase_key key rest

module _ {V : Type 0} where
  unfoldable pub new_cache : Run (Option ℕ) → ℕ → Cache V
  new_cache before_begin capacity = record {
    capacity = capacity;
    lookup = [];
    entries = [];
    hand = none;
    next_id = 0;
    locked = false;
    before_begin = before_begin;
  }

  -- `*it`
  abbrev pub node_of : ℕ → List (Node V) → Run (Node V)
  node_of id [] = fault
  node_of id (n ∷ ns) = if n.id == id then done n else node_of id ns

  -- A change of `*it`.
  abbrev pub change : (Node V → Node V) → ℕ → List (Node V) → List (Node V)
  change f id [] = []
  change f id (n ∷ ns) = if n.id == id then f n ∷ ns else n ∷ change f id ns

  -- `entries.erase(it)`
  abbrev pub remove : ℕ → List (Node V) → List (Node V)
  remove id [] = []
  remove id (n ∷ ns) = if n.id == id then ns else n ∷ remove id ns

  abbrev pub last_id : List (Node V) → Option ℕ
  last_id [] = none
  last_id (n ∷ []) = some n.id
  last_id (n ∷ m ∷ ns) = last_id (m ∷ ns)

  -- `std::prev` of a node, with what it gives for the first one.
  abbrev pub prev_in : Run (Option ℕ) → ℕ → List (Node V) → Run (Option ℕ)
  prev_in before id [] = fault
  prev_in before id (n ∷ ns) = if n.id == id then before else prev_in (done (some n.id)) id ns

  abbrev pub visit : Node V → Node V
  visit n = record n { visited = true }

  abbrev pub clear : Node V → Node V
  clear n = record n { visited = false }

  -- `old == entries.begin() ? std::prev(entries.end()) : std::prev(old)`
  abbrev pub step_back : ℕ → List (Node V) → Run (Option ℕ)
  step_back old [] = fault
  step_back old (n ∷ ns) =
      if n.id == old then done (last_id (n ∷ ns)) else prev_in (done (some n.id)) old ns

  -- The loop of `evict`: the entries with the marks that it has cleared, and the node it ends at.
  -- Without fuel it has not ended.
  pub evict_loop : ℕ → Option ℕ → List (Node V) → Run (Option (ℕ × List (Node V)))
  evict_loop fuel none entries = fault
  evict_loop zero (some old) entries = done none
  evict_loop (suc fuel) (some old) entries = do
    n ← node_of old entries
    elim n.visited [
      | false ↦ done (some (old, entries))
      | true ↦ do
        old' ← step_back old (change clear old entries)
        evict_loop fuel old' (change clear old entries)
    ]

  abbrev pub first_old : Option ℕ → List (Node V) → Option ℕ
  first_old none entries = last_id entries
  first_old (some hand) entries = some hand

  -- What `evict` does behind its loop.
  pub evict_at : ℕ → List (Node V) → Cache V → Run (Cache V)
  evict_at old entries s = do
    hand ← prev_in s.before_begin old entries
    n ← node_of old entries
    done (record s { hand = hand; lookup = erase_key n.key s.lookup; entries = remove old entries })

  pub evict : Cache V → Run (Option (Cache V))
  unfolding evict_loop evict_at
  evict s = evict_loop (suc (length s.entries)) (first_old s.hand s.entries) s.entries >>? λ r.
      evict_at r.0 r.1 s >>= λ s'. done (some s')

  -- A new entry at the front.
  pub push_entry : ℕ → V → Cache V → Cache V
  push_entry key val s = record s {
    entries = record { id = s.next_id; key = key; val = val; visited = false } ∷ s.entries;
    lookup = (key, s.next_id) ∷ s.lookup;
    next_id = s.next_id + 1;
  }

  abbrev pub assign : V → Node V → Node V
  assign val n = record n { val = val; visited = true }

  -- `set`, behind its lock.
  pub set_under_lock : ℕ → V → Cache V → Run (Option (Cache V))
  unfolding evict push_entry
  set_under_lock key val s = elim (find_id key s.lookup) [
    | some id ↦ do
      n ← node_of id s.entries
      done (some (record s { entries = change (assign val) id s.entries }))
    | none ↦
        if leb s.capacity (length s.entries)
        then (evict s >>? λ s'. done (some (push_entry key val s')))
        else done (some (push_entry key val s))
  ]

  -- `set`. A thread that holds the mutex must not lock it again.
  pub set_entry : ℕ → V → Cache V → Run (Option (Cache V))
  unfolding set_under_lock
  set_entry key val s = if s.locked then fault else set_under_lock key val s

  pub get_entry : ℕ → Cache V → Run (Option V × Cache V)
  get_entry key s = elim (find_id key s.lookup) [
    | none ↦ done (none, s)
    | some id ↦ do
      n ← node_of id s.entries
      done (some n.val, record s { entries = change visit id s.entries })
  ]

  -- The lock is held while `set` is called.
  pub get_or_set : ℕ → (ℕ → V) → Cache V → Run (Option (V × Cache V))
  unfolding get_entry set_entry
  get_or_set key f s = do
    r ← get_entry key s
    elim r.0 [
      | some v ↦ done (some (v, r.1))
      | none ↦ set_entry key (f key) (record s { locked = true }) >>? λ s'. done (some (f key, s'))
    ]

  -- Where the hand stands when `id` is gone.
  abbrev pub hand_behind : Run (Option ℕ) → Option ℕ → ℕ → List (Node V) → Run (Option ℕ)
  hand_behind before_begin hand id ns = elim hand [
    | none ↦ done none
    | some h ↦ if h == id then prev_in before_begin h ns else done (some h)
  ]

  -- `erase`: whether the key was there.
  pub erase : ℕ → Cache V → Run (Bool × Cache V)
  erase key s = elim (find_id key s.lookup) [
    | none ↦ done (false, s)
    | some id ↦ do
      hand ← hand_behind s.before_begin s.hand id s.entries
      done (
        true,
        record s { hand = hand; entries = remove id s.entries; lookup = erase_key key s.lookup },
      )
  ]

  unfoldable pub contains : ℕ → Cache V → Bool
  contains key s = elim (find_id key s.lookup) [ none ↦ false | some id ↦ true ]

  -- `hand` stays what it is.
  pub purge : Cache V → Cache V
  purge s = record s { entries = []; lookup = [] }
