-- ===== src/Http/Router.antt =====
-- src/http/router.cpp and include/http/router.hpp, and the methods of include/http/request.hpp.
-- Handlers are told apart by numbers.
pub mod Find
pub mod Method
use cppnet.Prelude.{List, Option, [], codes, drop, if◌then◌else◌, length, none, some, ℕ, ◌==◌, ◌∷◌}
use cppnet.Prelude.Strings.{starts_with, same_string}
use cppnet.Util.StringUtil.{split_string, equal_ignore_case}

-- The enum `request_method`.
pub data RequestMethod : Type 0 where
  connect : RequestMethod
  delete : RequestMethod
  get : RequestMethod
  head : RequestMethod
  options : RequestMethod
  patch : RequestMethod
  post : RequestMethod
  put : RequestMethod
  trace : RequestMethod
  unset : RequestMethod

-- Their places in the enum.
abbrev pub method_number : RequestMethod → ℕ
method_number connect = 0
method_number delete = 1
method_number get = 2
method_number head = 3
method_number options = 4
method_number patch = 5
method_number post = 6
method_number put = 7
method_number trace = 8
method_number unset = 9

pub parse_method : List ℕ → RequestMethod
parse_method str =
    if equal_ignore_case str (codes "CONNECT")
    then connect
    else if equal_ignore_case str (codes "DELETE")
    then delete
    else if equal_ignore_case str (codes "GET")
    then get
    else if equal_ignore_case str (codes "HEAD")
    then head
    else if equal_ignore_case str (codes "OPTIONS")
    then options
    else if equal_ignore_case str (codes "PATCH")
    then patch
    else if equal_ignore_case str (codes "POST")
    then post
    else if equal_ignore_case str (codes "PUT")
    then put
    else if equal_ignore_case str (codes "TRACE")
    then trace
    else unset

-- The class `router`, with its maps as lists of entries.
mutual
  pub data Router : Type 0 where
    node : List (RequestMethod × ℕ) → Children → Wildcard → Router

  pub data Children : Type 0 where
    no_child : Children
    child : List ℕ → Router → Children → Children

  pub data Wildcard : Type 0 where
    no_wildcard : Wildcard
    wildcard : List ℕ → Router → Wildcard

abbrev pub new_router : Router
new_router = node [] no_child no_wildcard

-- `children.find(part)`
abbrev pub find_child : List ℕ → Children → Option Router
find_child part no_child = none
find_child part (child name r rest) = if same_string name part then some r else find_child part rest

-- `children[part]` set to a router.
abbrev pub set_child : List ℕ → Router → Children → Children
set_child part r no_child = child part r no_child
set_child part r (child name r' rest) =
    if same_string name part then child name r rest else child name r' (set_child part r rest)

-- `method_handlers[method] = h`, and `method_handlers.find(method)`.
abbrev pub set_handler : RequestMethod → ℕ → List (RequestMethod × ℕ) → List (RequestMethod × ℕ)
set_handler method h [] = (method, h) ∷ []
set_handler method h (e ∷ rest) =
    if method_number e.0 == method_number method
    then (e.0, h) ∷ rest
    else e ∷ set_handler method h rest

abbrev pub find_handler : RequestMethod → List (RequestMethod × ℕ) → Option ℕ
find_handler method [] = none
find_handler method (e ∷ rest) =
    if method_number e.0 == method_number method then some e.1 else find_handler method rest

-- The two `std::runtime_error`s.
pub data RouterError : Type 0 where
  empty_wildcard_name : RouterError
  mismatched_wildcard_name : RouterError

abbrev pub child_or_new : List ℕ → Children → Router
child_or_new part cs = elim (find_child part cs) [ some r ↦ r | none ↦ new_router ]

-- `get_subrouter` and the assignment in `add`: the router afterwards, also where they throw.
unfoldable pub add_parts : List (List ℕ) → RequestMethod → ℕ → Router → Router × Option RouterError
add_parts [] method h (node hs cs w) = (node (set_handler method h hs) cs w, none)
add_parts (part ∷ parts) method h (node hs cs no_wildcard) =
    let below = add_parts parts method h new_router in
    let sub = add_parts parts method h (child_or_new part cs) in
    if starts_with part (codes ":")
    then (if length part == 1
        then (node hs cs no_wildcard, some empty_wildcard_name)
        else (node hs cs (wildcard (drop 1 part) below.0), below.1))
    else (node hs (set_child part sub.0 cs) no_wildcard, sub.1)
add_parts (part ∷ parts) method h (node hs cs (wildcard name r)) =
    let below = add_parts parts method h r in
    let sub = add_parts parts method h (child_or_new part cs) in
    if starts_with part (codes ":")
    then (if length part == 1
        then (node hs cs (wildcard name r), some empty_wildcard_name)
        else if same_string name (drop 1 part)
        then (node hs cs (wildcard name below.0), below.1)
        else (node hs cs (wildcard name r), some mismatched_wildcard_name))
    else (node hs (set_child part sub.0 cs) (wildcard name r), sub.1)

abbrev pub strip_slash : List ℕ → List ℕ
strip_slash route = if starts_with route (codes "/") then drop 1 route else route

-- `add`, if the split of the route ends.
unfoldable pub add : RequestMethod → List ℕ → ℕ → Router → Option (Router × Option RouterError)
unfolding add_parts
add method route h r = elim (split_string (strip_slash route) b'/' 0) [
  | none ↦ none
  | some parts ↦ some (add_parts parts method h r)
]

-- What the call of a router leads to.
pub data Dispatch : Type 0 where
  not_found : Dispatch
  method_not_allowed : Dispatch
  handled : ℕ → Dispatch

-- The loop of `operator()` over the parts, and what it does behind it.
pub dispatch_parts : List (List ℕ) → RequestMethod → Router → Dispatch
dispatch_parts [] method (node hs cs w) = elim (find_handler method hs) [
  | some h ↦ handled h
  | none ↦ method_not_allowed
]
dispatch_parts (part ∷ parts) method (node hs cs w) = elim (find_child part cs) [
  | some r ↦ dispatch_parts parts method r
  | none ↦ elim w [ wildcard name r ↦ dispatch_parts parts method r | no_wildcard ↦ not_found ]
]

-- `operator()`, if the split of the path ends.
pub dispatch : RequestMethod → List ℕ → Router → Option Dispatch
unfolding dispatch_parts
dispatch method path r = elim (split_string (strip_slash path) b'/' 0) [
  | none ↦ none
  | some parts ↦ some (dispatch_parts parts method r)
]
