-- ===== src/Util/Cache/Evict.antt =====
-- The search of `evict`.

use cppnet.Prelude.{
  ℕ, List, Bool, Option, [], if◌then◌else◌, length, none, some, true, ◌+◌, ◌||◌, ◌==◌, ◌∷◌, ◌≡◌,
  arith, refl, ap, sym, ◌∙◌, Bool-cases, inl, inr, ◌⊎◌, ◌≤◌, false, suc, zero, ◌<◌,
}
use cppnet.Prelude.Memory.{done, done-injective, ◌>>=◌, Run}
use cppnet.Util.Cache.{
  Node, node_of, change, remove, prev_in, last_id, clear, step_back, evict_loop,
}
use cppnet.Util.Cache.Nodes.{index, has_id, node_of-has_id, index-change}

module _ {V : Type 0} where
  -- An iterator to a node, or `end()`.
  abbrev pub IsHand : Option ℕ → List (Node V) → Type 0
  IsHand none ns = Unit
  IsHand (some h) ns = has_id h (index ns) ≡ true

  pub has_id-cons :
      (h : ℕ) (id : ℕ) (n : Node V) (ns : List (Node V))
      → (n.id == id) ≡ false
      → ((n.id ≡ h) ⊎ (has_id h (index (remove id ns)) ≡ true))
      → has_id h (index (remove id (n ∷ ns))) ≡ true
  has_id-cons h id n ns e k =
      ap (λ (b : Bool). has_id h (index (if b then ns else n ∷ remove id ns))) e ∙ ground (arith, k)

  -- `std::prev` gives the iterator in front of the list, or a node that is not the given one.
  pub prev_in_lem :
      (before : Option ℕ) (id : ℕ) (ns : List (Node V))
      → has_id id (index ns) ≡ true
      → (r : Option ℕ) × (prev_in (done before) id ns ≡ done r)
        × ((r ≡ before) ⊎ ((h : ℕ) × (r ≡ some h) × (has_id h (index (remove id ns)) ≡ true)))
  prev_in_lem before id [] h = absurd (ground arith)
  prev_in_lem before id (n ∷ ns) h = elim (Bool-cases (n.id == id)) [
    | inl e ↦ (
      before,
      ap (λ (b : Bool). if b then done before else prev_in (done (some n.id)) id ns) e,
      inl refl,
    )
    | inr e ↦
        let later =
          prev_in_lem (some n.id) id ns
            (sym (ap (λ (b : Bool). b || has_id id (index ns)) e) ∙ h) in
        (
          later.0,
          ap (λ (b : Bool). if b then done before else prev_in (done (some n.id)) id ns) e
              ∙ later.1,
          inr (elim later.2 [
            | inl k ↦ (n.id, k, has_id-cons n.id id n ns e (inl refl))
            | inr k ↦ (k.0, k.1, has_id-cons k.0 id n ns e (inr k.2))
          ]),
        )
  ]

  has_id-remove :
      (h id : ℕ) (ns : List (Node V))
      → has_id h (index (remove id ns)) ≡ true
      → has_id h (index ns) ≡ true
  has_id-remove h id [] k = k
  has_id-remove h id (n ∷ ns) k = elim (Bool-cases (n.id == id)) [
    | inl e ↦
        let later : has_id h (index ns) ≡ true =
          sym (ap (λ (b : Bool). has_id h (index (if b then ns else n ∷ remove id ns))) e) ∙ k in
        ground (arith, later)
    | inr e ↦
        let later : (n.id == h) || has_id h (index (remove id ns)) ≡ true =
          sym (ap (λ (b : Bool). has_id h (index (if b then ns else n ∷ remove id ns))) e) ∙ k in
        ground (arith, later, has_id-remove h id ns)
  ]

  pub last_id-cons :
      (n : Node V) (ns : List (Node V))
      → (id : ℕ) × (last_id (n ∷ ns) ≡ some id) × (has_id id (index (n ∷ ns)) ≡ true)
  last_id-cons n [] = (n.id, refl, ground arith)
  last_id-cons n (m ∷ ns) = let r = last_id-cons m ns in (r.0, r.1, ground (arith, r.2))

  -- The step of `evict` ends at a node.
  step_back_lem :
      (old : ℕ) (ns : List (Node V))
      → has_id old (index ns) ≡ true
      → (h : ℕ) × (step_back old ns ≡ done (some h)) × (has_id h (index ns) ≡ true)
  step_back_lem old [] h = absurd (ground arith)
  step_back_lem old (n ∷ ns) h = elim (Bool-cases (n.id == old)) [
    | inl e ↦
        let last = last_id-cons n ns in
        (
          last.0,
          ap
                (λ (b : Bool).
                  if b then done (last_id (n ∷ ns)) else prev_in (done (some n.id)) old ns)
                e
              ∙ ap done last.1,
          last.2,
        )
    | inr e ↦
        let r =
          prev_in_lem (some n.id) old ns
            (sym (ap (λ (b : Bool). b || has_id old (index ns)) e) ∙ h) in
        let at : step_back old (n ∷ ns) ≡ done r.0 =
          ap
            (λ (b : Bool). if b then done (last_id (n ∷ ns)) else prev_in (done (some n.id)) old ns)
            e
          ∙ r.1 in
        elim r.2 [
          | inl k ↦ (n.id, at ∙ ap done k, ground arith)
          | inr k ↦ (k.0, at ∙ ap done k.1, ground (arith, has_id-remove k.0 old ns k.2))
        ]
  ]

  abbrev pub count_visited : List (Node V) → ℕ
  count_visited [] = 0
  count_visited (n ∷ ns) = (if n.visited then 1 else 0) + count_visited ns

  count_visited-clear :
      (old : ℕ) (n : Node V) (ns : List (Node V))
      → node_of old ns ≡ done n
      → n.visited ≡ true
      → count_visited (change clear old ns) + 1 ≡ count_visited ns
  count_visited-clear old n [] h v = absurd (ground arith)
  count_visited-clear old n (m ∷ ns) h v = elim (Bool-cases (m.id == old)) [
    | inl e ↦
        let same : m ≡ n =
          done-injective m n
            (sym (ap (λ (b : Bool). if b then done m else node_of old ns) e) ∙ h) in
        ap (λ (b : Bool). count_visited (if b then clear m ∷ ns else m ∷ change clear old ns) + 1) e
        ∙ ground (arith, ap (λ (x : Node V). x.visited) same, v)
    | inr e ↦
        let later : node_of old ns ≡ done n =
          sym (ap (λ (b : Bool). if b then done m else node_of old ns) e) ∙ h in
        ap (λ (b : Bool). count_visited (if b then clear m ∷ ns else m ∷ change clear old ns) + 1) e
        ∙ ground (arith, count_visited-clear old n ns later v)
  ]

  pub count_visited-length : (ns : List (Node V)) → count_visited ns ≤ length ns
  count_visited-length [] = omega arith
  count_visited-length (n ∷ ns) = ground (arith, count_visited-length ns)

  -- A round behind its test.
  evict_round : ℕ → ℕ → List (Node V) → Bool → Run (Option (ℕ × List (Node V)))
  evict_round fuel old ns false = done (some (old, ns))
  evict_round fuel old ns true =
      step_back old (change clear old ns) >>= λ old'. evict_loop fuel old' (change clear old ns)

  evict_loop-round :
      (fuel old : ℕ) (ns : List (Node V)) (n : Node V) (v : Bool)
      → node_of old ns ≡ done n
      → n.visited ≡ v
      → evict_loop (suc fuel) (some old) ns ≡ evict_round fuel old ns v
  unfolding evict_loop evict_round
  evict_loop-round fuel old ns n v h e =
      ap
        (λ (r : Run (Node V)). r >>= λ m. elim m.visited [
          | false ↦ done (some (old, ns))
          | true ↦ step_back old (change clear old ns) >>= λ old'.
              evict_loop fuel old' (change clear old ns)
        ])
        h
      ∙ ap
          (λ (b : Bool). elim b [
            | false ↦ done (some (old, ns))
            | true ↦ step_back old (change clear old ns) >>= λ old'.
                evict_loop fuel old' (change clear old ns)
          ])
          e
      ∙ elim v [ false ↦ refl | true ↦ refl ]

  -- Rounds more than the marked entries are enough.
  pub evict_loop_lem :
      (fuel old : ℕ) (ns : List (Node V))
      → count_visited ns < fuel
      → has_id old (index ns) ≡ true
      → (end : ℕ × List (Node V)) × (evict_loop fuel (some old) ns ≡ done (some end))
        × (index end.1 ≡ index ns)
        × (has_id end.0 (index end.1) ≡ true)
  unfolding evict_round
  evict_loop_lem zero old ns lt h = absurd (omega arith)
  evict_loop_lem (suc fuel) old ns lt h =
      let n = node_of-has_id old ns h in
      elim (Bool-cases n.0.visited) [
        | inr e ↦ ((old, ns), evict_loop-round fuel old ns n.0 false n.1 e, refl, h)
        | inl e ↦
            let ms : List (Node V) = change clear old ns in
            let same : index ms ≡ index ns = index-change clear (λ m. refl) (λ m. refl) old ns in
            let back = step_back_lem old ms (ap (has_id old) same ∙ h) in
            let rest =
              evict_loop_lem fuel back.0 ms (omega (arith, count_visited-clear old n.0 ns n.1 e))
                back.2 in
            (
              rest.0,
              evict_loop-round fuel old ns n.0 true n.1 e
                  ∙ ap (λ r. r >>= λ old'. evict_loop fuel old' ms) back.1
                  ∙ rest.1,
              rest.2 ∙ same,
              rest.3,
            )
      ]
