-- ===== src/Util/Cache/Nodes.antt =====
-- The keys and numbers of the entries of a cache.

use cppnet.Prelude.{
  ℕ, List, Bool, [], false, if◌then◌else◌, length, none, some, suc, true, ◌+◌, ◌||◌, ◌==◌, ◌∷◌, ◌≡◌,
  ◌<◌, arith, refl, ap, ap₂, sym, ◌∙◌, Bool-cases, inl, inr, ==_refl,
}
use mathlib.Core.Path.{subst}
use cppnet.Prelude.Memory.{done, done-injective}
use cppnet.Util.Cache.{Node, find_id, erase_key, node_of, change, remove}

-- In front is the newest node, with the largest number, and no key stands twice.
abbrev pub IsOrdered : ℕ → List (ℕ × ℕ) → Type 0
IsOrdered bound [] = Unit
IsOrdered bound (e ∷ rest) = (e.1 < bound) × (find_id e.0 rest ≡ none) × IsOrdered e.1 rest

abbrev pub has_id : ℕ → List (ℕ × ℕ) → Bool
has_id id [] = false
has_id id (e ∷ rest) = (e.1 == id) || has_id id rest

pub has_id-below :
    (bound id : ℕ) (es : List (ℕ × ℕ)) → IsOrdered bound es → has_id id es ≡ true → id < bound
has_id-below bound id [] o h = absurd (ground arith)
has_id-below bound id (e ∷ es) o h = ground (arith, has_id-below e.1 id es o.2)

pub IsOrdered-weaken : (b c : ℕ) (es : List (ℕ × ℕ)) → b < c + 1 → IsOrdered b es → IsOrdered c es
IsOrdered-weaken b c [] le o = tt
IsOrdered-weaken b c (e ∷ es) le o = (omega (arith, o.0), o.1, o.2)

module _ {V : Type 0} where
  -- The keys and the numbers.
  abbrev pub index : List (Node V) → List (ℕ × ℕ)
  index [] = []
  index (n ∷ ns) = (n.key, n.id) ∷ index ns

  pub length-index : (ns : List (Node V)) → length (index ns) ≡ length ns
  length-index [] = refl
  length-index (n ∷ ns) = ap suc (length-index ns)

  node_of-head :
      (id : ℕ) (n : Node V) (ns : List (Node V))
      → (n.id == id) ≡ true
      → node_of id (n ∷ ns) ≡ done n
  node_of-head id n ns e = ap (λ (b : Bool). if b then done n else node_of id ns) e

  node_of-tail :
      (id : ℕ) (n : Node V) (ns : List (Node V))
      → (n.id == id) ≡ false
      → node_of id (n ∷ ns) ≡ node_of id ns
  node_of-tail id n ns e = ap (λ (b : Bool). if b then done n else node_of id ns) e

  -- A number of a node leads to the node.
  pub node_of-has_id :
      (id : ℕ) (ns : List (Node V))
      → has_id id (index ns) ≡ true
      → (n : Node V) × (node_of id ns ≡ done n)
  node_of-has_id id [] h = absurd (ground arith)
  node_of-has_id id (n ∷ ns) h = elim (Bool-cases (n.id == id)) [
    | inl e ↦ (n, node_of-head id n ns e)
    | inr e ↦
        let later =
          node_of-has_id id ns (sym (ap (λ (b : Bool). b || has_id id (index ns)) e) ∙ h) in
        (later.0, node_of-tail id n ns e ∙ later.1)
  ]

  -- A key that is found leads to a node with the key.
  pub node_of-find_id :
      (bound key id : ℕ) (ns : List (Node V))
      → IsOrdered bound (index ns)
      → find_id key (index ns) ≡ some id
      → (n : Node V) × (node_of id ns ≡ done n) × (n.key ≡ key) × (id < bound)
  node_of-find_id bound key id [] o h = absurd (ground arith)
  node_of-find_id bound key id (n ∷ ns) o h = elim (Bool-cases (n.key == key)) [
    | inl e ↦ (
      n,
      node_of-head id n ns (ground (arith, h, e)),
      ground (arith, e),
      ground (arith, h, e, o.0),
    )
    | inr e ↦
        let later =
          node_of-find_id n.id key id ns o.2
            (sym (ap (λ (b : Bool). if b then some n.id else find_id key (index ns)) e) ∙ h) in
        (
          later.0,
          node_of-tail id n ns (ground (arith, later.3)) ∙ later.1,
          later.2,
          omega (arith, later.3, o.0),
        )
  ]

  pub has_id-node_of :
      (id : ℕ) (n : Node V) (ns : List (Node V))
      → node_of id ns ≡ done n
      → has_id id (index ns) ≡ true
  has_id-node_of id n [] h = absurd (ground arith)
  has_id-node_of id n (m ∷ ns) h = ground (arith, has_id-node_of id n ns)

  -- A change that keeps keys and numbers.
  pub index-change :
      (f : Node V → Node V)
      → ((n : Node V) → (f n).key ≡ n.key)
      → ((n : Node V) → (f n).id ≡ n.id)
      → (id : ℕ) (ns : List (Node V)) → index (change f id ns) ≡ index ns
  index-change f keys ids id [] = refl
  index-change f keys ids id (n ∷ ns) = elim (Bool-cases (n.id == id)) [
    | inl e ↦
        ap (λ (b : Bool). index (if b then f n ∷ ns else n ∷ change f id ns)) e
        ∙ ap (λ e. e ∷ index ns) (ap₂ (λ k i. (k, i)) (keys n) (ids n))
    | inr e ↦
        ap (λ (b : Bool). index (if b then f n ∷ ns else n ∷ change f id ns)) e
        ∙ ap (λ es. (n.key, n.id) ∷ es) (index-change f keys ids id ns)
  ]

  pub node_of-change :
      (f : Node V → Node V)
      → ((n : Node V) → (f n).id ≡ n.id)
      → (id : ℕ) (n : Node V) (ns : List (Node V)) → node_of id ns ≡ done n
      → node_of id (change f id ns) ≡ done (f n)
  node_of-change f ids id n [] h = absurd (ground arith)
  node_of-change f ids id n (m ∷ ns) h = ground (arith, ids m, node_of-change f ids id n ns)

  key_of-missing :
      (key id : ℕ) (n : Node V) (ns : List (Node V))
      → find_id key (index ns) ≡ none
      → node_of id ns ≡ done n
      → (key == n.key) ≡ false
  key_of-missing key id n [] h e = absurd (ground arith)
  key_of-missing key id n (m ∷ ns) h e = ground (arith, h, e, key_of-missing key id n ns)

  -- `remove` takes the key of the node away.
  pub index-remove :
      (bound id : ℕ) (n : Node V) (ns : List (Node V))
      → IsOrdered bound (index ns)
      → node_of id ns ≡ done n
      → index (remove id ns) ≡ erase_key n.key (index ns)
  index-remove bound id n [] o h = absurd (ground arith)
  index-remove bound id n (m ∷ ns) o h = elim (Bool-cases (m.id == id)) [
    | inl e ↦
        let same : m ≡ n = done-injective _ _ (sym (node_of-head id m ns e) ∙ h) in
        ap (λ (b : Bool). index (if b then ns else m ∷ remove id ns)) e
        ∙ sym (
            ap (λ (b : Bool). if b then index ns else (m.key, m.id) ∷ erase_key n.key (index ns))
              (ap (λ (x : Node V). x.key == n.key) same ∙ ==_refl n.key))
    | inr e ↦
        let later : node_of id ns ≡ done n = sym (node_of-tail id m ns e) ∙ h in
        ap (λ (b : Bool). index (if b then ns else m ∷ remove id ns)) e
        ∙ ap (λ es. (m.key, m.id) ∷ es) (index-remove m.id id n ns o.2 later)
        ∙ sym (
            ap (λ (b : Bool). if b then index ns else (m.key, m.id) ∷ erase_key n.key (index ns))
              (key_of-missing m.key id n ns o.1 later))
  ]

  pub length-remove :
      (id : ℕ) (ns : List (Node V))
      → has_id id (index ns) ≡ true
      → length (remove id ns) + 1 ≡ length ns
  length-remove id [] h = absurd (ground arith)
  length-remove id (n ∷ ns) h = ground (arith, length-remove id ns)

-- What is left without a key.
pub find_id-erase_key_other :
    (key other : ℕ) (es : List (ℕ × ℕ))
    → find_id other es ≡ none
    → find_id other (erase_key key es) ≡ none
find_id-erase_key_other key other [] h = refl
find_id-erase_key_other key other (e ∷ es) h = ground (arith, find_id-erase_key_other key other es)

pub IsOrdered-erase_key :
    (bound key : ℕ) (es : List (ℕ × ℕ)) → IsOrdered bound es → IsOrdered bound (erase_key key es)
IsOrdered-erase_key bound key [] o = tt
IsOrdered-erase_key bound key (e ∷ es) o = elim (Bool-cases (e.0 == key)) [
  | inl h ↦
      subst (λ (b : Bool). IsOrdered bound (if b then es else e ∷ erase_key key es)) (sym h)
        (IsOrdered-weaken e.1 bound es (omega (arith, o.0)) o.2)
  | inr h ↦
      subst (λ (b : Bool). IsOrdered bound (if b then es else e ∷ erase_key key es)) (sym h)
        (o.0, find_id-erase_key_other key e.0 es o.1, IsOrdered-erase_key e.1 key es o.2)
]

pub find_id-erase_key :
    (bound key : ℕ) (es : List (ℕ × ℕ)) → IsOrdered bound es → find_id key (erase_key key es) ≡ none
find_id-erase_key bound key [] o = refl
find_id-erase_key bound key (e ∷ es) o = ground (arith, find_id-erase_key e.1 key es, o.1, o.2)
