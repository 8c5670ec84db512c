-- ===== src/Tests/Routes.antt =====
-- A router with a wildcard.

use cppnet.Prelude.{[], codes, refl, some, ◌∷◌, ◌≡◌}
use cppnet.Http.Router.{
  get, post, parse_method, Router, new_router, add, add_parts, dispatch, handled,
}
use cppnet.Util.StringUtil.{split_string, split_loop}
use cppnet.Http.Router.Find.{dispatch-add}
use cppnet.Http.Router.Method.{method_string, parse_method-method_string}

abbrev routed : Router
routed = (add_parts (codes "users" ∷ codes ":id" ∷ []) get 7 new_router).0

dispatch-add_example : dispatch get (codes "/users/42") routed ≡ some (handled 7)
unfolding add add_parts split_string split_loop
dispatch-add_example =
    dispatch-add get (codes "/users/:id") (codes "/users/42") 7 new_router routed (refl, (refl, tt))
      refl

parse_method-method_string_example : parse_method (codes "Post") ≡ post
unfolding method_string
parse_method-method_string_example = parse_method-method_string (codes "Post") post refl
