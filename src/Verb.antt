-- ===== src/Verb.antt =====
-- http/verb.hpp: the verbs that the router knows, and their numbers.
use crow_core.Common.{ℕ, ◌+◌, ◌-◌, Bytes, codes, Option, none, some, ◌==◌, if◌then◌else◌}

pub data HttpVerb : Type 0 where
  delete get head options patch post put max : HttpVerb

-- `static_cast<size_t>`.
unfoldable pub verb_index : HttpVerb → ℕ
verb_index delete = 0
verb_index get = 1
verb_index head = 2
verb_index options = 3
verb_index patch = 4
verb_index post = 5
verb_index put = 6
verb_index max = 7

unfoldable pub max_verb_index : ℕ
unfolding verb_index
max_verb_index = verb_index max - 1

abbrev pub not_found_index : ℕ
not_found_index = max_verb_index + 1

abbrev pub method_not_allowed_index : ℕ
method_not_allowed_index = not_found_index + 1

-- `boost::beast::http::verb`: the seven that the code names, and the others by a number.
pub data BoostVerb : Type 0 where
  delete_ get head options patch post put : BoostVerb
  other : ℕ → BoostVerb

unfoldable pub http_verb_from_boost : BoostVerb → Option HttpVerb
http_verb_from_boost BoostVerb.delete_ = some HttpVerb.delete
http_verb_from_boost BoostVerb.get = some HttpVerb.get
http_verb_from_boost BoostVerb.head = some HttpVerb.head
http_verb_from_boost BoostVerb.options = some HttpVerb.options
http_verb_from_boost BoostVerb.patch = some HttpVerb.patch
http_verb_from_boost BoostVerb.post = some HttpVerb.post
http_verb_from_boost BoostVerb.put = some HttpVerb.put
http_verb_from_boost (BoostVerb.other n) = none

unfoldable pub http_verb_to_string : HttpVerb → Bytes
http_verb_to_string HttpVerb.delete = codes "DELETE"
http_verb_to_string HttpVerb.get = codes "GET"
http_verb_to_string HttpVerb.head = codes "HEAD"
http_verb_to_string HttpVerb.patch = codes "PATCH"
http_verb_to_string HttpVerb.post = codes "POST"
http_verb_to_string HttpVerb.put = codes "PUT"
http_verb_to_string HttpVerb.options = codes "OPTIONS"
http_verb_to_string HttpVerb.max = codes ""

-- `static_cast<HttpVerb>`, for the numbers that `findRoute` casts, which are at most `max_verb_index`.
unfoldable pub verb_of_index : ℕ → HttpVerb
verb_of_index i =
    if i == 0
    then HttpVerb.delete
    else if i == 1
    then HttpVerb.get
    else if i == 2
    then HttpVerb.head
    else if i == 3
    then HttpVerb.options
    else if i == 4
    then HttpVerb.patch
    else if i == 5
    then HttpVerb.post
    else if i == 6
    then HttpVerb.put
    else HttpVerb.max
