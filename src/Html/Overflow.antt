-- ===== src/Html/Overflow.antt =====
-- include/json_html_serializer.hpp: bytes that are no UTF-8, one after the other, in `dumpEscaped`.
use crow_core.Common.{replicate, Bytes, ◌++◌, none, ◌≡◌, refl}
use crow_core.Html.{dump_escaped, dump_loop, round, decode, reject, utf8d}

-- A text that begins with 86 bytes of 0xff makes `dumpEscaped` write past its buffer, whatever follows.
pub dump_escaped-overflow : (rest : Bytes) → dump_escaped (replicate 86 255 ++ rest) ≡ none
unfolding dump_escaped dump_loop round decode reject utf8d
dump_escaped-overflow rest = refl
