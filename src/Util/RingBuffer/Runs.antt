-- ===== src/Util/RingBuffer/Runs.antt =====
-- Any sequence of calls on a ring, against the queue of its elements.
use cppnet.Prelude.{
  ℕ, List, [], ap, arith, get_elem?, if◌then◌else◌, length, ltb, none, some, suc, zero, ◌%◌, ◌+◌,
  ◌<◌, ◌∙◌, ◌∷◌, ◌≡◌, false, refl, true, ◌==◌, get_elem?-none, sym, ◌≤◌,
}
use cppnet.Prelude.Memory.{Run, ◌>>=◌, read, done, read_total}
use cppnet.Util.RingBuffer.{RingBuffer, capacity, empty, size, push, pop, index}
use cppnet.Util.RingBuffer.Window.{Holds, HoldsFrom}
use native.Mathlib.Nat.{add-zero, mod-lt}
use native.Mathlib.Decide.{dec_lt}
use cppnet.Util.RingBuffer.Refine.{pushed, push-Holds, pop-Holds, pop_empty}

-- What a client does: each call is made in every state, `pop` of an empty ring and `operator[]` behind
-- its elements too.
pub data Op {ℓ} (T : Type ℓ) : Type ℓ where
  put : T → Op T
  take_one : Op T
  look : ℕ → Op T

-- What it sees of a call. The stale value that `pop` of an empty ring gives, and `operator[]` behind
-- the elements, is `nothing`.
pub data Seen {ℓ} (T : Type ℓ) : Type ℓ where
  nothing : Seen T
  element : T → Seen T
  held : ℕ → Seen T

module _ {ℓ} {T : Type ℓ} where
  pub serve : RingBuffer T → List (Op T) → Run (List (Seen T))
  serve r [] = done (held (size r) ∷ [])
  serve r (put v ∷ ops) = do r' ← push r v; serve r' ops
  serve r (take_one ∷ ops) = do
    p ← pop r
    out ← serve p.1 ops
    done ((if empty r then nothing else element p.0) ∷ out)
  serve r (look i ∷ ops) = do
    x ← index r i
    out ← serve r ops
    done ((if ltb i (size r) then element x else nothing) ∷ out)

  abbrev pub looked : List T → ℕ → Seen T
  looked q i = elim (get_elem? q i) [ some x ↦ element x | none ↦ nothing ]

  -- The same calls on a queue of at most `cap` elements.
  pub serve_queue : ℕ → List T → List (Op T) → List (Seen T)
  serve_queue cap q [] = held (length q) ∷ []
  serve_queue cap q (put v ∷ ops) = serve_queue cap (pushed cap q v) ops
  serve_queue cap [] (take_one ∷ ops) = nothing ∷ serve_queue cap [] ops
  serve_queue cap (x ∷ q) (take_one ∷ ops) = element x ∷ serve_queue cap q ops
  serve_queue cap q (look i ∷ ops) = looked q i ∷ serve_queue cap q ops

  -- `operator[]` at a position of the queue is the element there.
  index-HoldsFrom :
      (vs : List T) (b i : ℕ) (q : List T)
      → i < length q
      → HoldsFrom vs b q
      → read vs ((b + i) % length vs) ≡ read q i
  index-HoldsFrom vs b i [] p h = absurd (omega arith)
  index-HoldsFrom vs b zero (x ∷ q) p h = rw add-zero h.0
  index-HoldsFrom vs b (suc i) (x ∷ q) p h =
      ap (λ t. read vs (t % length vs)) (omega arith)
      ∙ index-HoldsFrom vs (b + 1) i q (omega arith) h.1

  index-Holds :
      (r : RingBuffer T) (q : List T) (i : ℕ) → Holds r q → i < length q → index r i ≡ read q i
  unfolding index
  index-Holds r q i h p = index-HoldsFrom r.values r.begin i q p h.elements

  index_lem :
      (r : RingBuffer T) (i : ℕ) → index r i ≡ read r.values ((r.begin + i) % length r.values)
  unfolding index
  index_lem r i = refl

  looked_none : (q : List T) (i : ℕ) → length q ≤ i → looked q i ≡ nothing
  looked_none q i h = ground (arith, get_elem?-none q i h)

  looked_some : (q : List T) (i : ℕ) (x : T) → read q i ≡ done x → looked q i ≡ element x
  looked_some q i x h = ground (arith, h)

  serve_cap :
      (cap : ℕ) (r : RingBuffer T) (q : List T) (ops : List (Op T))
      → capacity r ≡ cap
      → Holds r q
      → serve r ops ≡ done (serve_queue cap q ops)
  unfolding serve serve_queue size empty
  serve_cap cap r q [] c h = ground (arith, h.count)
  serve_cap cap r q (put v ∷ ops) c h =
      let (r', e, h', c') = push-Holds r q v h in
      rw e (serve_cap cap r' (pushed cap q v) ops (c' ∙ c) (rw c at h'))
  serve_cap cap r [] (take_one ∷ ops) c h =
      let none_left : (r.current_size == 0) ≡ true = ground (arith, h.count) in
      let (x, r', e, h', c') = pop_empty r h in
      rw (none_left, e, serve_cap cap r' [] ops (c' ∙ c) h') refl
  serve_cap cap r (x ∷ q) (take_one ∷ ops) c h =
      let some_left : (r.current_size == 0) ≡ false = ground (arith, h.count) in
      let (r', e, h', c') = pop-Holds r x q h in
      rw (some_left, e, serve_cap cap r' q ops (c' ∙ c) h') refl
  serve_cap cap r q (look i ∷ ops) c h = elim (dec_lt i (length q)) [
    | yes p ↦
        let (x, e) = read_total q i p in
        let inside : ltb i r.current_size ≡ true = ground (arith, h.count) in
        rw (inside, index-Holds r q i h p, e, serve_cap cap r q ops c h)
          (ap (λ s. done (s ∷ serve_queue cap q ops)) (sym (looked_some q i x e)))
    | no p ↦
        let outside : ltb i r.current_size ≡ false = ground (arith, h.count) in
        let (x, e) =
          read_total r.values ((r.begin + i) % length r.values) (mod-lt _ h.valid.room) in
        rw (outside, index_lem r i, e, serve_cap cap r q ops c h)
          (ap (λ s. done (s ∷ serve_queue cap q ops)) (sym (looked_none q i (omega arith))))
  ]

  -- Any sequence of push, pop, size and index calls, pop of an empty ring and an index behind the
  -- elements among them, stays in the array, and gives what the same calls give on the queue of the
  -- elements, which loses its oldest one where it is full. The stale values of these calls are not
  -- told apart.
  pub serve-serve_queue :
      (r : RingBuffer T) (q : List T) (ops : List (Op T))
      → Holds r q
      → serve r ops ≡ done (serve_queue (capacity r) q ops)
  serve-serve_queue r q ops h = serve_cap (capacity r) r q ops refl h
