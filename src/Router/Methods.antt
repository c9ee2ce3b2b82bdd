-- ===== src/Router/Methods.antt =====
-- http/routing.hpp, `RuleParameterTraits`: the bits that `methods` sets.
use crow_core.Common.{
  ℕ, zero, suc, ◌+◌, ◌*◌, ◌/◌, ◌%◌, List, [], ◌∷◌, Option, none, some, Bool, true, false, ◌&&◌,
  ◌||◌, ◌==◌, ◌≡◌, refl, ap, ◌∙◌, arith,
}
use crow_core.Verb.{HttpVerb, verb_index, BoostVerb, http_verb_from_boost}
use crow_core.Router.{has_bit, set_bit, bit_of, methods}

has_bit-zero : (i : ℕ) → has_bit 0 i ≡ false
unfolding has_bit
has_bit-zero zero = refl
has_bit-zero (suc i) = has_bit-zero i

-- Setting a bit changes no other bit.
pub has_bit-set_bit : (field i j : ℕ) → has_bit (set_bit field i) j ≡ ((i == j) || has_bit field j)
unfolding has_bit set_bit
has_bit-set_bit field zero zero = ground arith
has_bit-set_bit field zero (suc j) =
    let same : (field / 2 * 2 + 1) / 2 ≡ field / 2 = omega arith in
    let other : (zero == suc j) ≡ false = ground arith in rw (same, other)
has_bit-set_bit field (suc i) zero =
    let other : (suc i == zero) ≡ false = ground arith in
    let same : (set_bit (field / 2) i * 2 + field % 2) % 2 ≡ field % 2 = omega arith in
    rw (same, other)
has_bit-set_bit field (suc i) (suc j) =
    let same : (set_bit (field / 2) i * 2 + field % 2) / 2 ≡ set_bit (field / 2) i = omega arith in
    let indices : (suc i == suc j) ≡ (i == j) = ground arith in
    rw (same, indices) (has_bit-set_bit (field / 2) i j)

-- Whether one of the methods is the verb with this number.
abbrev pub is_numbered : ℕ → Option HttpVerb → Bool
is_numbered i none = false
is_numbered i (some verb) = verb_index verb == i

abbrev pub names : ℕ → List BoostVerb → Bool
names i [] = false
names i (method ∷ more) = is_numbered i (http_verb_from_boost method) || names i more

-- Whether the last of the methods is a verb that the router does not know.
abbrev is_none : Option HttpVerb → Bool
is_none none = true
is_none (some verb) = false

abbrev pub last_unknown : BoostVerb → List BoostVerb → Bool
last_unknown method [] = is_none (http_verb_from_boost method)
last_unknown method (next ∷ more) = last_unknown next more

first_bit :
    (o : Option HttpVerb) (field i : ℕ)
    → has_bit (bit_of o field 0) i ≡ ((is_numbered i o || false) || (is_none o && has_bit field i))
first_bit none field i = ground arith
first_bit (some verb) field i =
    has_bit-set_bit 0 (verb_index verb) i ∙ rw (has_bit-zero i) (ground arith)

next_bit :
    (o : Option HttpVerb) (rest i : ℕ)
    → has_bit (bit_of o rest rest) i ≡ (is_numbered i o || has_bit rest i)
next_bit none rest i = refl
next_bit (some verb) rest i = has_bit-set_bit rest (verb_index verb) i

or_assoc : (a b c : Bool) → (a || (b || c)) ≡ ((a || b) || c)
or_assoc true b c = refl
or_assoc false b c = refl

-- After `methods` with a list of verbs, a rule answers the verbs of the list, and keeps those that it
-- answered before exactly where the last verb of the list is one that the router does not know.
pub has_bit-methods :
    (method : BoostVerb) (more : List BoostVerb) (field i : ℕ)
    → has_bit (methods method more field) i
      ≡ (names i (method ∷ more) || (last_unknown method more && has_bit field i))
unfolding methods
has_bit-methods method [] field i = first_bit (http_verb_from_boost method) field i
has_bit-methods method (next ∷ more) field i =
    next_bit (http_verb_from_boost method) (methods next more field) i
    ∙ (ap (λ b. is_numbered i (http_verb_from_boost method) || b)
          (has_bit-methods next more field i)
        ∙ or_assoc (is_numbered i (http_verb_from_boost method)) (names i (next ∷ more))
            (last_unknown next more && has_bit field i))
