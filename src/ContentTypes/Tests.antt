-- ===== src/ContentTypes/Tests.antt =====
-- http/http_utility.hpp on concrete headers.
use crow_core.Common.{
  codes, strip_prefix, bytes_eq, List, [], ◌∷◌, ◌++◌, some, true, false, ◌≡◌, refl, arith,
}
use crow_core.ContentTypes.{
  ContentType, json, html, any, no_match, same_content, find_comma, drop, take, without_weight,
  known_type, is_prefered, choose, content_loop, get_prefered_content_type, is_content_type_allowed,
}
use crow_core.ContentTypes.Choice.{get_prefered_content_type-first}

choosing : Unit {0}
unfolding get_prefered_content_type content_loop choose is_prefered known_type without_weight take
    drop find_comma same_content is_content_type_allowed strip_prefix bytes_eq
choosing = tt

abbrev both : List ContentType
both = json ∷ html ∷ []

-- The last two headers name JSON as well, and it is not found.
content_tests :
    (get_prefered_content_type (codes "text/html;q=0.8,application/json") both ≡ some html)
    × (get_prefered_content_type (codes "text/foo, application/json") both ≡ some json)
    × (get_prefered_content_type (codes "*/*") both ≡ some any)
    × (is_content_type_allowed (codes "application/json") json false ≡ some true)
    × (is_content_type_allowed (codes "*/*") json false ≡ some false)
    × (get_prefered_content_type (codes "text/foo,application/json") both ≡ some no_match)
    × (get_prefered_content_type (codes "text/foo, application/json, text/bar") both
        ≡ some no_match)
unfolding choosing
content_tests = (refl, refl, refl, refl, refl, refl, refl)

get_prefered_content_type-first_example :
    (get_prefered_content_type (codes "text/html;q=0.8") both ≡ some html)
    × (get_prefered_content_type (codes "text/html;q=0.8" ++ b',' ∷ codes "x") both ≡ some html)
unfolding known_type is_prefered without_weight strip_prefix bytes_eq same_content
get_prefered_content_type-first_example =
    get_prefered_content_type-first (codes "text/html;q=0.8") (codes "x") both html
      (
        omega arith,
        (
          omega arith,
          (
            omega arith,
            (
              omega arith,
              (
                omega arith,
                (
                  omega arith,
                  (
                    omega arith,
                    (
                      omega arith,
                      (
                        omega arith,
                        (
                          omega arith,
                          (
                            omega arith,
                            (omega arith, (omega arith, (omega arith, (omega arith, tt)))),
                          ),
                        ),
                      ),
                    ),
                  ),
                ),
              ),
            ),
          ),
        ),
      )
      refl refl
