-- ===== src/Http/Router/Find.antt =====
-- A route that was added is found by the paths that match it.

use cppnet.Prelude.{
  ==_refl, Bool-cases, List, [], codes, false, inl, inr, none, refl, some, true, ℕ, ◌==◌, ◌∷◌, ◌≡◌,
  Option, ap, arith, drop, length, sym, ◌∙◌,
}
use cppnet.Prelude.Strings.{starts_with, same_string_refl}
use cppnet.Util.StringUtil.Split.{pieces, split_string-pieces}
use cppnet.Http.Router.{
  method_not_allowed, empty_wildcard_name, mismatched_wildcard_name, Router, Children, Wildcard,
  no_child, child, node, no_wildcard, wildcard, add_parts, RouterError, RequestMethod,
  method_number, new_router, same_string, find_child, set_child, set_handler, find_handler,
  child_or_new, handled, dispatch_parts, strip_slash, add, dispatch,
}

find_child-set_child :
    (part : List ℕ) (r : Router) (cs : Children) → find_child part (set_child part r cs) ≡ some r
find_child-set_child part r no_child = rw (same_string_refl part) refl
find_child-set_child part r (child name r' rest) = elim (Bool-cases (same_string name part)) [
  | inl e ↦ rw (e, e) refl
  | inr e ↦ rw (e, e) (find_child-set_child part r rest)
]

find_handler-set_handler :
    (method : RequestMethod) (h : ℕ) (hs : List (RequestMethod × ℕ))
    → find_handler method (set_handler method h hs) ≡ some h
find_handler-set_handler method h [] = rw (==_refl (method_number method)) refl
find_handler-set_handler method h (e ∷ rest) =
    elim (Bool-cases (method_number e.0 == method_number method)) [
      | inl same ↦ rw (same, same) refl
      | inr other ↦ rw (other, other) (find_handler-set_handler method h rest)
    ]

abbrev pub wild_or_new : Wildcard → Router
wild_or_new no_wildcard = new_router
wild_or_new (wildcard name r) = r

-- The parts of a path match those of a route, given the router that the route is added to: a name
-- matches itself, and a wildcard matches each part that no name takes at its place.
abbrev pub Matches : List (List ℕ) → List (List ℕ) → Router → Type 0
Matches [] [] r = Unit
Matches (part ∷ route) (p ∷ path) (node hs cs w) = elim (starts_with part (codes ":")) [
  | true ↦ (find_child p cs ≡ none) × Matches route path (wild_or_new w)
  | false ↦ (p ≡ part) × Matches route path (child_or_new part cs)
]
Matches route path r = ⊥

error-none : (e : RouterError) → ◌≡◌ {A = Option RouterError} (some e) none → ⊥
error-none e h = ground (arith, h)

added-injective :
    (a b : Router × Option RouterError)
    → ◌≡◌ {A = Option (Router × Option RouterError)} (some a) (some b)
    → a ≡ b
added-injective a b h = cc

dispatch_parts-child :
    (p : List ℕ) (path : List (List ℕ)) (method : RequestMethod) (hs : List (RequestMethod × ℕ))
    (cs : Children) (w : Wildcard) (r : Router)
    → find_child p cs ≡ some r
    → dispatch_parts (p ∷ path) method (node hs cs w) ≡ dispatch_parts path method r
unfolding dispatch_parts
dispatch_parts-child p path method hs cs w r h = rw (h, dispatch_parts) refl

dispatch_parts-wildcard :
    (p : List ℕ) (path : List (List ℕ)) (method : RequestMethod) (hs : List (RequestMethod × ℕ))
    (cs : Children) (name : List ℕ) (r : Router)
    → find_child p cs ≡ none
    → dispatch_parts (p ∷ path) method (node hs cs (wildcard name r)) ≡ dispatch_parts path method r
unfolding dispatch_parts
dispatch_parts-wildcard p path method hs cs name r h = rw (h, dispatch_parts) refl

add_parts-child :
    (part : List ℕ) (route : List (List ℕ)) (method : RequestMethod) (h : ℕ)
    (hs : List (RequestMethod × ℕ)) (cs : Children) (w : Wildcard)
    → starts_with part (codes ":") ≡ false
    → let sub = add_parts route method h (child_or_new part cs) in
      add_parts (part ∷ route) method h (node hs cs w)
      ≡ (node hs (set_child part sub.0 cs) w, sub.1)
unfolding add_parts
add_parts-child part route method h hs cs no_wildcard e = rw e refl
add_parts-child part route method h hs cs (wildcard name r) e = rw e refl

-- A wildcard that could be added went into the router below the one that is there, or a new one.
add_parts-wildcard :
    (part : List ℕ) (route : List (List ℕ)) (method : RequestMethod) (h : ℕ)
    (hs : List (RequestMethod × ℕ)) (cs : Children) (w : Wildcard)
    → starts_with part (codes ":") ≡ true
    → (add_parts (part ∷ route) method h (node hs cs w)).1 ≡ none
    → let below = add_parts route method h (wild_or_new w) in
      (name : List ℕ) × (add_parts (part ∷ route) method h (node hs cs w)
        ≡ (node hs cs (wildcard name below.0), below.1))
unfolding add_parts
add_parts-wildcard part route method h hs cs no_wildcard e ok =
    elim (Bool-cases (length part == 1)) [
      | inl one ↦ absurd (error-none empty_wildcard_name (rw (e, one) at ok))
      | inr more ↦ (drop 1 part, rw (e, more) refl)
    ]
add_parts-wildcard part route method h hs cs (wildcard name r) e ok =
    elim (Bool-cases (length part == 1)) [
      | inl one ↦ absurd (error-none empty_wildcard_name (rw (e, one) at ok))
      | inr more ↦ elim (Bool-cases (same_string name (drop 1 part))) [
        | inl same ↦ (name, rw (e, more, same) refl)
        | inr other ↦ absurd (error-none mismatched_wildcard_name (rw (e, more, other) at ok))
      ]
    ]

add_parts-here :
    (method : RequestMethod) (h : ℕ) (hs : List (RequestMethod × ℕ)) (cs : Children) (w : Wildcard)
    → dispatch_parts [] method (add_parts [] method h (node hs cs w)).0 ≡ handled h
unfolding add_parts dispatch_parts
add_parts-here method h hs cs w =
    ap (λ o. elim o [ some x ↦ handled x | none ↦ method_not_allowed ])
      (find_handler-set_handler method h hs)

dispatch_parts-add_parts :
    (route path : List (List ℕ)) (method : RequestMethod) (h : ℕ) (r : Router)
    → Matches route path r
    → (add_parts route method h r).1 ≡ none
    → dispatch_parts path method (add_parts route method h r).0 ≡ handled h
dispatch_parts-add_parts [] [] method h (node hs cs w) m ok = add_parts-here method h hs cs w
dispatch_parts-add_parts [] (p ∷ path) method h r m ok = absurd m
dispatch_parts-add_parts (part ∷ route) [] method h r m ok = absurd m
dispatch_parts-add_parts (part ∷ route) (p ∷ path) method h (node hs cs w) m ok =
    elim (Bool-cases (starts_with part (codes ":"))) [
      | inr e ↦
          let matched = rw e at m in
          let sub = add_parts route method h (child_or_new part cs) in
          let step = add_parts-child part route method h hs cs w e in
          let rest =
            dispatch_parts-add_parts route path method h (child_or_new part cs) matched.1
              (sym (ap (λ t. t.1) step) ∙ ok) in
          let found : find_child p (set_child part sub.0 cs) ≡ some sub.0 =
            rw matched.0 (find_child-set_child part sub.0 cs) in
          ap (λ t. dispatch_parts (p ∷ path) method t.0) step
          ∙ dispatch_parts-child p path method hs (set_child part sub.0 cs) w sub.0 found
          ∙ rest
      | inl e ↦
          let matched = rw e at m in
          let below = add_parts route method h (wild_or_new w) in
          let (name, step) = add_parts-wildcard part route method h hs cs w e ok in
          let rest =
            dispatch_parts-add_parts route path method h (wild_or_new w) matched.1
              (sym (ap (λ t. t.1) step) ∙ ok) in
          ap (λ t. dispatch_parts (p ∷ path) method t.0) step
          ∙ dispatch_parts-wildcard p path method hs cs name below.0 matched.0
          ∙ rest
    ]

-- A route that was added without an error: a path that matches it in the router before, and that
-- has the same method, is dispatched to its handler.
pub dispatch-add :
    (method : RequestMethod) (route path : List ℕ) (h : ℕ) (r r' : Router)
    → Matches (pieces b'/' (strip_slash route)) (pieces b'/' (strip_slash path)) r
    → add method route h r ≡ some (r', none)
    → dispatch method path r' ≡ some (handled h)
unfolding add dispatch
dispatch-add method route path h r r' m ok =
    let split = split_string-pieces (strip_slash route) b'/' 0 (omega arith) in
    let split' = split_string-pieces (strip_slash path) b'/' 0 (omega arith) in
    let added = added-injective _ _ (rw (split, add) at ok) in
    rw (split', dispatch)
      (ap some (
        ap (λ t. dispatch_parts (pieces b'/' (strip_slash path)) method t.0) (sym added)
        ∙ dispatch_parts-add_parts (pieces b'/' (strip_slash route))
            (pieces b'/' (strip_slash path)) method h r m (ap (λ t. t.1) added)))
