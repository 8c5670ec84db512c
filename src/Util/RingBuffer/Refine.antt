-- ===== src/Util/RingBuffer/Refine.antt =====
-- A ring with room for an element is the list of its elements, oldest first.
use cppnet.Prelude.{
  ℕ, List, [], length, ◌%◌, ◌+◌, ◌<◌, ◌∷◌, ◌≡◌, arith, set, sym, ◌-◌, length-set, drop,
  if◌then◌else◌, length-append, length-replicate, ltb, refl, ◌++◌, false, true,
}
use cppnet.Prelude.Memory.{read, done, read-set_self, read_total}
use native.Mathlib.Nat.{mod-eq_of_lt, mod-lt}
use native.Mathlib.Decide.{dec_lt}
use native.Mathlib.Nat.{mod-mod}
use cppnet.Util.RingBuffer.{RingBuffer, capacity, init, push, pop}
use cppnet.Util.RingBuffer.Window.{Holds, HoldsFrom-mod, HoldsFrom-set, HoldsFrom-snoc}

module _ {ℓ} {T : Type ℓ} where
  -- The queue after `push`: a full one loses its oldest element.
  abbrev pub pushed : ℕ → List T → T → List T
  pushed cap q v = if ltb (length q) cap then q ++ (v ∷ []) else drop 1 q ++ (v ∷ [])

  pub init-Holds : (n : ℕ) (default : T) → 0 < n → Holds (init n default) []
  unfolding init
  init-Holds n default h = record {
    valid = omega (arith, length-replicate n default);
    count = refl;
    elements = tt;
  }

  push_room :
      (r : RingBuffer T) (q : List T) (v : T)
      → Holds r q
      → r.current_size < length r.values
      → let vs = set r.values ((r.begin + r.current_size) % length r.values) v in
        Holds (record r { values = vs; current_size = r.current_size + 1 }) (q ++ (v ∷ []))
  push_room r q v h room = record {
    valid = omega (arith, length-set r.values k v, h.valid);
    count = omega (arith, length-append q (v ∷ []), h.count);
    elements =
        HoldsFrom-snoc (set r.values k v) r.begin (r.begin + r.current_size) q v
          (omega (arith, h.count))
          (HoldsFrom-set r.values r.begin (r.begin + r.current_size) v q (omega (arith, h.count))
            (omega arith) h.elements)
          (rw (length-set r.values k v) (read-set_self r.values k v (mod-lt _ h.valid.room)));
  }
    where
      k : ℕ
      k = (r.begin + r.current_size) % length r.values

  push_full :
      (r : RingBuffer T) (x : T) (q : List T) (v : T)
      → Holds r (x ∷ q)
      → r.current_size ≡ length r.values
      → let vs = set r.values ((r.begin + r.current_size) % length r.values) v in
        Holds (record r { values = vs; begin = (r.begin + 1) % length r.values }) (q ++ (v ∷ []))
  push_full r x q v h full = record {
    valid = omega (arith, length-set r.values k v, h.valid, mod-lt (r.begin + 1) h.valid.room);
    count = omega (arith, length-append q (v ∷ []), h.count);
    elements =
        HoldsFrom-mod (set r.values k v) (r.begin + 1) ((r.begin + 1) % length r.values)
          (q ++ (v ∷ []))
          (rw (length-set r.values k v) (sym (mod-mod (r.begin + 1) (length r.values))))
          (HoldsFrom-snoc (set r.values k v) (r.begin + 1) (r.begin + r.current_size) q v
            (omega (arith, h.count))
            (HoldsFrom-set r.values (r.begin + 1) (r.begin + r.current_size) v q
              (omega (arith, h.count)) (omega arith) h.elements.1)
            (rw (length-set r.values k v) (read-set_self r.values k v (mod-lt _ h.valid.room))));
  }
    where
      k : ℕ
      k = (r.begin + r.current_size) % length r.values

  -- `push` on a ring that holds `q` writes inside the array and leaves a ring of the same capacity
  -- that holds `q` and the new element behind it, without the oldest element if the ring was full.
  pub push-Holds :
      (r : RingBuffer T) (q : List T) (v : T)
      → Holds r q
      → (r' : RingBuffer T) × (push r v ≡ done r')
        × Holds r' (pushed (capacity r) q v)
        × (capacity r' ≡ capacity r)
  unfolding push
  push-Holds r q v h = elim (dec_lt r.current_size (length r.values)) [
    | yes p ↦ (
      record r { values = vs; current_size = r.current_size + 1 },
      ground (arith, inside),
      rw (below p) (push_room r q v h p),
      length-set r.values _ v,
    )
    | no p ↦ (
      record r { values = vs; begin = (r.begin + 1) % length r.values },
      ground (arith, inside),
      full_case q h (omega (arith, h.valid)),
      length-set r.values _ v,
    )
  ]
    where
      vs : List T
      vs = set r.values ((r.begin + r.current_size) % length r.values) v

      inside : (r.begin + r.current_size) % length r.values < length r.values
      inside = mod-lt _ h.valid.room

      below : r.current_size < length r.values → ltb (length q) (length r.values) ≡ true
      below p = ground (arith, h.count)

      full_case :
          (q : List T)
          → Holds r q
          → r.current_size ≡ length r.values
          → Holds
              (record r { values = vs; begin = (r.begin + 1) % length r.values })
              (pushed (capacity r) q v)
      full_case [] h full = absurd (omega (arith, h.valid.room, h.count))
      full_case (x ∷ q) h full =
          let test : ltb (length (x ∷ q)) (length r.values) ≡ false = ground (arith, h.count) in
          rw test (push_full r x q v h full)

  -- `pop` on a ring that holds an element returns the oldest one and leaves the others.
  pub pop-Holds :
      (r : RingBuffer T) (x : T) (q : List T)
      → Holds r (x ∷ q)
      → (r' : RingBuffer T) × (pop r ≡ done (x, r')) × Holds r' q × (capacity r' ≡ capacity r)
  unfolding pop
  pop-Holds r x q h = (
    record r { begin = (r.begin + 1) % length r.values; current_size = r.current_size - 1 },
    ground (arith, first, h.count),
    record {
      valid = omega (arith, h.valid, mod-lt (r.begin + 1) h.valid.room);
      count = omega (arith, h.count);
      elements =
          HoldsFrom-mod r.values (r.begin + 1) ((r.begin + 1) % length r.values) q
            (sym (mod-mod (r.begin + 1) (length r.values))) h.elements.1;
    },
    refl,
  )
    where
      first : read r.values r.begin ≡ done x
      first = rw (mod-eq_of_lt h.valid.begin_in) at h.elements.0

  -- `pop` on an empty ring returns some element of the array and leaves the ring empty.
  pub pop_empty :
      (r : RingBuffer T)
      → Holds r []
      → (x : T) × (r' : RingBuffer T) × (pop r ≡ done (x, r'))
        × Holds r' []
        × (capacity r' ≡ capacity r)
  unfolding pop
  pop_empty r h =
      let (x, e) = read_total r.values r.begin h.valid.begin_in in
      (
        x,
        record r { begin = (r.begin + 1) % length r.values },
        ground (arith, e, h.count),
        record {
          valid = omega (arith, h.valid, mod-lt (r.begin + 1) h.valid.room);
          count = h.count;
          elements = tt;
        },
        refl,
      )
