-- ===== src/Errors/Filled.antt =====
-- include/registries/base_message_registry.hpp: the messages of the registry as templates that `getLog` fills.
use crow_core.Common.{
  ℕ, zero, suc, ◌-◌, ◌≤◌, ◌<◌, Bytes, codes, length, get_elem?, List, [], ◌∷◌, ◌++◌, Option, none,
  some, Bool, true, false, ◌&&◌, not, leb, ◌==◌, is_digit, bytes_eq, bytes_eq_iff, all_below,
  all_below_sound, ◌≡◌, ◌≢◌, refl, sym, ap, subst, ◌∙◌, arith, get_or,
}
use crow_core.Messages.{MessageEntry, find_percent, fill_message_args, get_log_from_registry}
use crow_core.Messages.Templates.{
  print, IsText, NoDigit, IsTemplate, expand, message_or_empty, fill_message_args-print,
}
use crow_core.Json.{Json}
use crow_core.Errors.{log_json, log_at, get_log}
use crow_core.Errors.Registry.{Index, index_of, header_id, registry}

-- The pieces of a template and the text at its end, of as many pieces as the fuel allows.
abbrev first_piece : Bytes → Bytes → List (Bytes × ℕ) × Bytes → List (Bytes × ℕ) × Bytes
first_piece text [] rest = ([], text)
first_piece text (d ∷ after) (pieces, last) = ((text, d - b'0') ∷ pieces, last)

abbrev after_number : Bytes → Bytes
after_number [] = []
after_number (d ∷ after) = after

unfoldable parse_template : ℕ → Bytes → List (Bytes × ℕ) × Bytes
parse_template zero msg = ([], msg)
parse_template (suc fuel) msg = elim (find_percent msg) [
  | none ↦ ([], msg)
  | some (text, after) ↦ first_piece text after (parse_template fuel (after_number after))
]

unfoldable is_text : Bytes → Bool
is_text [] = true
is_text (c ∷ text) = let rest = is_text text in not (c == b'%') && rest

abbrev no_digit : Bytes → Bool
no_digit [] = true
no_digit (c ∷ s) = not (is_digit c)

-- A template whose arguments are among the first `count`.
unfoldable is_template : ℕ → List (Bytes × ℕ) → Bytes → Bool
is_template count [] last = is_text last
is_template count ((text, n) ∷ pieces) last =
    let rest = is_template count pieces last in
    is_text text
    && (leb 1 n && (leb n 9 && (leb n count && (no_digit (print pieces last) && rest))))

-- A message of an entry, taken apart.
abbrev pub pieces_of : MessageEntry → List (Bytes × ℕ)
unfolding parse_template
pieces_of entry = (parse_template 9 entry.1.message).0

abbrev pub last_of : MessageEntry → Bytes
unfolding parse_template
last_of entry = (parse_template 9 entry.1.message).1

pub has_template : MessageEntry → Bool
unfolding pieces_of last_of
has_template entry =
    bytes_eq (print (pieces_of entry) (last_of entry)) entry.1.message
    && is_template entry.1.number_of_args (pieces_of entry) (last_of entry)

unfoldable entry_has_template : Option MessageEntry → Bool
entry_has_template none = false
entry_has_template (some entry) = has_template entry

registry-has_template : all_below 110 (λ i. entry_has_template (get_elem? registry i)) ≡ true
unfolding all_below entry_has_template has_template is_template is_text parse_template find_percent
    bytes_eq registry pieces_of last_of
registry-has_template = refl

is_text_sound : (text : Bytes) → is_text text ≡ true → IsText text
unfolding is_text
is_text_sound [] h = tt
is_text_sound (c ∷ text) h =
    let rest : is_text text ≡ true = ground (arith, h) in
    let other : c ≢ b'%' = ground (arith, h) in (other, is_text_sound text rest)

no_digit_sound : (s : Bytes) → no_digit s ≡ true → NoDigit s
no_digit_sound [] h = tt
no_digit_sound (c ∷ s) h = ground (arith, h)

is_template_sound :
    (count : ℕ) (pieces : List (Bytes × ℕ)) (last : Bytes)
    → is_template count pieces last ≡ true
    → IsTemplate pieces last
unfolding is_template
is_template_sound count [] last h = is_text_sound last h
is_template_sound count ((text, n) ∷ pieces) last h =
    let texts : is_text text ≡ true = ground (arith, h) in
    let low : 1 ≤ n = ground (arith, h) in
    let high : n ≤ 9 = ground (arith, h) in
    let ends : no_digit (print pieces last) ≡ true = ground (arith, h) in
    let rest : is_template count pieces last ≡ true = ground (arith, h) in
    (
      is_text_sound text texts,
      (low, high),
      no_digit_sound (print pieces last) ends,
      is_template_sound count pieces last rest,
    )

get_elem?-below :
    (args : List Bytes) (i : ℕ) → i < length args → (arg : Bytes) × (get_elem? args i ≡ some arg)
get_elem?-below [] i small = absurd (omega arith)
get_elem?-below (arg ∷ args) zero small = (arg, refl)
get_elem?-below (arg ∷ args) (suc i) small = get_elem?-below args i (omega arith)

is_template-expand :
    (args : List Bytes) (pieces : List (Bytes × ℕ)) (last : Bytes)
    → is_template (length args) pieces last ≡ true
    → (text : Bytes) × (expand args pieces last ≡ some text)
unfolding is_template
is_template-expand args [] last h = (last, refl)
is_template-expand args ((text, n) ∷ pieces) last h =
    let small : n - 1 < length args = ground (arith, h) in
    let rest : is_template (length args) pieces last ≡ true = ground (arith, h) in
    let (arg, there) = get_elem?-below args (n - 1) small in
    let (more, expanded) = is_template-expand args pieces last rest in
    (text ++ (arg ++ more), rw (there, expanded) refl)

-- An entry of no registry, for an index that is out of range.
abbrev no_entry : MessageEntry
no_entry = (
  [],
  record {
    description = [];
    message = [];
    message_severity = [];
    number_of_args = 0;
    param_types = [];
    resolution = [];
  },
)

-- The entry that an enumerator stands for.
unfoldable pub entry_of : Index → MessageEntry
entry_of name = get_or registry (index_of name) no_entry

index_of-below : (name : Index) → index_of name < 110
unfolding index_of
index_of-below name = ground arith

get_or-get_elem? :
    (entries : List MessageEntry) (i : ℕ)
    → entry_has_template (get_elem? entries i) ≡ true
    → (get_elem? entries i ≡ some (get_or entries i no_entry))
      × (has_template (get_or entries i no_entry) ≡ true)
unfolding entry_has_template
get_or-get_elem? [] i h = absurd (cc h)
get_or-get_elem? (entry ∷ entries) zero h = (refl, h)
get_or-get_elem? (entry ∷ entries) (suc i) h = get_or-get_elem? entries i h

pub entry_of-has_template :
    (name : Index)
    → (get_elem? registry (index_of name) ≡ some (entry_of name))
      × (has_template (entry_of name) ≡ true)
unfolding entry_of
entry_of-has_template name = get_or-get_elem? registry (index_of name) (
    all_below_sound 110 (λ i. entry_has_template (get_elem? registry i)) (index_of name)
      registry-has_template (index_of-below name))

-- The message object of an entry with a text.
unfoldable pub message_json : MessageEntry → List Bytes → Bytes → Json
message_json entry args text = log_json (record {
  odata_type = codes "#Message.v1_1_1.Message";
  message_id = header_id ++ (codes "." ++ entry.0);
  message = text;
  message_args = args;
  message_severity = entry.1.message_severity;
  resolution = entry.1.resolution;
})

-- `getLog` with as many arguments as the entry of the registry says gives the entry's message with each argument
-- in its place: none is missing. The pieces and the end are the entry's message taken apart at its `%`s.
pub get_log-filled :
    (name : Index) (args : List Bytes)
    → length args ≡ (entry_of name).1.number_of_args
    → (print (pieces_of (entry_of name)) (last_of (entry_of name)) ≡ (entry_of name).1.message)
      × (text : Bytes) × (expand args (pieces_of (entry_of name)) (last_of (entry_of name))
          ≡ some text)
      × (get_log name args ≡ some (message_json (entry_of name) args text))
unfolding get_log log_at get_log_from_registry has_template message_json
get_log-filled name args count =
    let entry = entry_of name in
    let pieces = pieces_of entry in
    let last = last_of entry in
    let (found, template) = entry_of-has_template name in
    let printed : print pieces last ≡ entry.1.message =
      (bytes_eq_iff (print pieces last) entry.1.message).0 (ground (arith, template)) in
    let valid : is_template entry.1.number_of_args pieces last ≡ true = ground (arith, template) in
    let valid_args : is_template (length args) pieces last ≡ true =
      subst (λ n. is_template n pieces last ≡ true) (sym count) valid in
    let (text, expanded) = is_template-expand args pieces last valid_args in
    let full : fill_message_args args entry.1.message ≡ some text =
      ap (fill_message_args args) (sym printed)
      ∙ fill_message_args-print args pieces last
          (is_template_sound (length args) pieces last valid_args)
      ∙ ap (λ o. some (message_or_empty [] o)) expanded in
    (printed, text, expanded, rw (found, log_at, get_log_from_registry, full) refl)
