-- ===== src/Html/Values.antt =====
-- include/json_html_serializer.hpp: `dump` and `dumpHtml`. `none` stands for the exception of a link that is no
-- string and for a write past a buffer. What `dumpfloat` prints is a parameter.
use crow_core.Common.{
  ℕ, Bytes, codes, pos, [], ◌∷◌, ◌++◌, Option, none, some, Bool, true, false, ◌||◌, bytes_eq,
  if◌then◌else◌, ◌>>=◌,
}
use crow_core.Json.{
  Json, null, boolean, number_integer, number_unsigned, number_float, string, binary, array, object,
  Items, no_items, item, Members, no_members, member,
}
use crow_core.Html.{dump_escaped}
use crow_core.Html.Integers.{dump_integer}

-- A member whose value is a link.
abbrev pub is_link : Bytes → Bool
is_link key =
    bytes_eq key (codes "@odata.id")
    || (bytes_eq key (codes "@odata.context")
        || (bytes_eq key (codes "Members@odata.nextLink") || bytes_eq key (codes "Uri")))

abbrev quote : Bytes
quote = b'"' ∷ []

-- `<a href="...">` before a link.
unfoldable pub open_tag : Bytes → Json → Option Bytes
open_tag key value = elim (is_link key) [
  | false ↦ some []
  | true ↦ elim value [
    | string text ↦ do
      escaped ← dump_escaped text
      some ((codes "<a href=" ++ quote) ++ (escaped ++ (quote ++ codes ">")))
    | _ ↦ none
  ]
]

abbrev pub close_tag : Bytes → Bytes
close_tag key = if is_link key then codes "</a>" else []

abbrev comma_unless_last : Members → Bytes
comma_unless_last no_members = []
comma_unless_last (member key value ms) = codes ","

abbrev boolean_text : Bool → Bytes
boolean_text true = codes "true"
boolean_text false = codes "false"

abbrev break_unless_last : Items → Bytes
break_unless_last no_items = []
break_unless_last (item x xs) = codes ",<br>"

abbrev brackets : Items → Bytes → Bytes
brackets no_items body = codes "[]"
brackets (item x xs) body = codes "[<div class=tab>" ++ (body ++ codes "</div>]")

abbrev braces : Members → Bytes → Bytes
braces no_members body = codes "{}"
braces (member key value ms) body = codes "{<div class=tab>" ++ (body ++ codes "</div>}")

-- A member, with what its value is shown as and the members after it.
unfoldable pub dump_member : Bytes → Json → Option Bytes → Members → Option Bytes
dump_member key value shown ms = do
  name ← dump_escaped key
  opened ← open_tag key value
  text ← shown
  some (
      codes "&quot"
      ++ (name
          ++ (codes "&quot: "
              ++ (opened ++ (text ++ (close_tag key ++ (comma_unless_last ms ++ codes "<br>")))))))

module _ (dumpfloat : ℕ → Bytes) where
  unfoldable mutual
    pub dump : Json → Option Bytes
    dump null = some (codes "null")
    dump (boolean b) = some (boolean_text b)
    dump (number_integer i) = dump_integer i
    dump (number_unsigned n) = dump_integer (pos n)
    dump (number_float bits) = some (dumpfloat bits)
    dump (string text) = do escaped ← dump_escaped text; some (quote ++ (escaped ++ quote))
    dump (binary bytes) = some []
    dump (array xs) = do body ← dump_items xs; some (brackets xs body)
    dump (object ms) = do body ← dump_members ms; some (braces ms body)

    pub dump_items : Items → Option Bytes
    dump_items no_items = some []
    dump_items (item x xs) = do
      first ← dump x
      rest ← dump_items xs
      some (first ++ (break_unless_last xs ++ rest))

    pub dump_members : Members → Option Bytes
    dump_members no_members = some []
    dump_members (member key value ms) = do
      first ← dump_member key value (dump value) ms
      rest ← dump_members ms
      some (first ++ rest)

  abbrev page_start : Bytes
  page_start =
      codes
        "<html>\n<head>\n<title>Redfish API</title>\n<link href=\"/redfish.css\" rel=\"stylesheet\">\n</head>\n<body>\n<div class=\"container\">\n<img src=\"/DMTF_Redfish_logo_2017.svg\" alt=\"redfish\" height=\"406px\" width=\"576px\">\n<div class=\"content\">\n"

  unfoldable pub dump_html : Json → Option Bytes
  dump_html json = do
    body ← dump json
    some (page_start ++ (body ++ codes "</div>\n</div>\n</body>\n</html>\n"))
