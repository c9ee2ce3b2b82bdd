-- ===== src/Html.antt =====
-- include/json_html_serializer.hpp: `decode` and `dumpEscaped`. A write past the 512 bytes of `stringBuffer` is `none`.
pub mod Integers
pub mod Values
pub mod Decoding
pub mod Safe
pub mod Written
pub mod Ascii
pub mod Overflow
mod Tests
use crow_core.Common.{
  ℕ, zero, suc, ◌+◌, ◌-◌, ◌*◌, ◌/◌, ◌%◌, ◌^◌, Bytes, codes, length, get_or, replicate, List, [],
  ◌∷◌, ◌++◌, Option, none, some, Bool, true, false, not, ◌&&◌, ◌||◌, ltb, leb, ◌==◌, if◌then◌else◌,
  ◌>>=◌,
}

abbrev pub utf8_accept : ℕ
utf8_accept = 0

abbrev pub utf8_reject : ℕ
utf8_reject = 1

-- The types of the bytes, and after them the next states.
unfoldable pub utf8d : List ℕ
utf8d =
    replicate 128 0
    ++ (replicate 16 1
        ++ (replicate 16 9
            ++ (replicate 32 7
                ++ (replicate 2 8
                    ++ (replicate 30 2
                        ++ ((10 ∷ 3 ∷ 3 ∷ 3 ∷ 3 ∷ 3 ∷ 3 ∷ 3 ∷ 3 ∷ 3 ∷ 3 ∷ 3 ∷ 3 ∷ 4 ∷ 3 ∷ 3 ∷ [])
                            ++ ((11 ∷ 6 ∷ 6 ∷ 6 ∷ 5 ∷ 8 ∷ 8 ∷ 8 ∷ 8 ∷ 8 ∷ 8 ∷ 8 ∷ 8 ∷ 8 ∷ 8 ∷ 8
                                  ∷ [])
                                ++ ((0 ∷ 1 ∷ 2 ∷ 3 ∷ 5 ∷ 8 ∷ 7 ∷ 1 ∷ 1 ∷ 1 ∷ 4 ∷ 6 ∷ 1 ∷ 1 ∷ 1 ∷ 1
                                      ∷ [])
                                    ++ ((1 ∷ 1 ∷ 1 ∷ 1 ∷ 1 ∷ 1 ∷ 1 ∷ 1 ∷ 1 ∷ 1 ∷ 1 ∷ 1 ∷ 1 ∷ 1 ∷ 1
                                          ∷ 1 ∷ 1 ∷ 0 ∷ 1 ∷ 1 ∷ 1 ∷ 1 ∷ 1 ∷ 0 ∷ 1 ∷ 0 ∷ 1 ∷ 1 ∷ 1
                                          ∷ 1 ∷ 1 ∷ 1 ∷ [])
                                        ++ ((1 ∷ 2 ∷ 1 ∷ 1 ∷ 1 ∷ 1 ∷ 1 ∷ 2 ∷ 1 ∷ 2 ∷ 1 ∷ 1 ∷ 1 ∷ 1
                                              ∷ 1 ∷ 1 ∷ 1 ∷ 1 ∷ 1 ∷ 1 ∷ 1 ∷ 1 ∷ 1 ∷ 2 ∷ 1 ∷ 1 ∷ 1
                                              ∷ 1 ∷ 1 ∷ 1 ∷ 1 ∷ 1 ∷ [])
                                            ++ ((1 ∷ 2 ∷ 1 ∷ 1 ∷ 1 ∷ 1 ∷ 1 ∷ 1 ∷ 1 ∷ 2 ∷ 1 ∷ 1 ∷ 1
                                                  ∷ 1 ∷ 1 ∷ 1 ∷ 1 ∷ 1 ∷ 1 ∷ 1 ∷ 1 ∷ 1 ∷ 1 ∷ 3 ∷ 1
                                                  ∷ 3 ∷ 1 ∷ 1 ∷ 1 ∷ 1 ∷ 1 ∷ 1 ∷ [])
                                                ++ ((1 ∷ 3 ∷ 1 ∷ 1 ∷ 1 ∷ 1 ∷ 1 ∷ 3 ∷ 1 ∷ 3 ∷ 1 ∷ 1
                                                    ∷ 1 ∷ 1 ∷ 1 ∷ 1 ∷ 1 ∷ 3 ∷ 1 ∷ 1 ∷ 1 ∷ 1 ∷ 1 ∷ 1
                                                    ∷ 1 ∷ 1 ∷ 1 ∷ 1 ∷ 1 ∷ 1 ∷ 1 ∷ 1
                                                    ∷ [])))))))))))))

-- The state and the code point after a byte. `0xff >> type` is a mask of the low bits.
abbrev pub decode_with : ℕ → ℕ → ℕ → ℕ → ℕ × ℕ
decode_with type state code_point byte = (
  get_or utf8d (256 + state * 16 + type) 0,
  if not (state == utf8_accept)
      then byte % 64 + code_point * 64 % 2 ^ 32
      else byte % 2 ^ (8 - type),
)

unfoldable pub decode : ℕ → ℕ → ℕ → ℕ × ℕ
decode state code_point byte =
    if ltb 8 state
    then (state, code_point)
    else decode_with (get_or utf8d byte 0) state code_point byte

-- A hexadecimal digit, and `%04x`.
abbrev pub hex_digit : ℕ → ℕ
hex_digit d = if ltb d 10 then b'0' + d else b'a' + (d - 10)

abbrev pub hex4 : ℕ → Bytes
hex4 n =
    hex_digit (n / 4096 % 16)
    ∷ hex_digit (n / 256 % 16)
    ∷ hex_digit (n / 16 % 16)
    ∷ hex_digit (n % 16)
    ∷ []

abbrev pub unicode : ℕ → Bytes
unicode n = b'\\' ∷ b'u' ∷ hex4 (n % 2 ^ 16)

-- The text for a code point whose last byte is given, and how much `snprintf` writes after it.
unfoldable pub escape : ℕ → ℕ → Bytes × ℕ
escape byte code_point =
    if code_point == 8
    then (b'\\' ∷ codes "b", 0)
    else if code_point == 9
    then (b'\\' ∷ codes "t", 0)
    else if code_point == 10
    then (b'\\' ∷ codes "n", 0)
    else if code_point == 12
    then (b'\\' ∷ codes "f", 0)
    else if code_point == 13
    then (b'\\' ∷ codes "r", 0)
    else if code_point == 34
    then (codes "&quot;", 0)
    else if code_point == 39
    then (codes "&apos;", 0)
    else if code_point == 38
    then (codes "&amp;", 0)
    else if code_point == 60
    then (b'\\' ∷ codes "lt;", 0)
    else if code_point == 62
    then (b'\\' ∷ codes "gt;", 0)
    else if leb code_point 31 || leb 127 code_point
    then if leb code_point 65535
      then (unicode code_point, 1)
      else (unicode (55232 + code_point / 1024) ++ unicode (56320 + code_point % 1024), 1)
    else (byte ∷ [], 0)

-- `buffer` is what the string buffer holds up to `bytes`.
pub record Dumping : Type 0 where
  pub out : Bytes
  pub buffer : Bytes
  pub after_last_accept : ℕ
  pub undumped : ℕ
  pub state : ℕ
  pub code_point : ℕ

abbrev pub put : Bytes → ℕ → Dumping → Option Dumping
put text extra st =
    if leb (length st.buffer + length text + extra) 512
    then some (record st { buffer = st.buffer ++ text })
    else none

abbrev pub flush : Dumping → Dumping
flush st =
    if ltb (512 - length st.buffer) 13
    then record st { out = st.out ++ st.buffer; buffer = [] }
    else st

abbrev pub mark : Dumping → Dumping
mark st = record st { after_last_accept = length st.buffer; undumped = 0 }

abbrev pub after_accept : Option Dumping → Option (Dumping × Bool)
after_accept none = none
after_accept (some st) = some (mark (flush st), false)

unfoldable pub accept : ℕ → Dumping → Option (Dumping × Bool)
accept byte st = let (text, extra) = escape byte st.code_point in after_accept (put text extra st)

abbrev pub keep : ℕ → Bytes → Bytes
keep n [] = []
keep zero (c ∷ s) = []
keep (suc n) (c ∷ s) = c ∷ keep n s

abbrev pub after_reject : Bool → Option Dumping → Option (Dumping × Bool)
after_reject again none = none
after_reject again (some st) = some (record (mark st) { state = utf8_accept }, again)

-- The second result is whether the byte is read again.
unfoldable pub reject : Dumping → Option (Dumping × Bool)
reject st =
    after_reject (ltb 0 st.undumped)
      (put (b'\\' ∷ codes "ufffd") 0 (record st { buffer = keep st.after_last_accept st.buffer }))

abbrev pub by_state : ℕ → Dumping → Option (Dumping × Bool)
by_state byte st =
    if st.state == utf8_accept
    then accept byte st
    else if st.state == utf8_reject
    then reject st
    else some (record st { undumped = suc st.undumped }, false)

unfoldable pub round : ℕ → Dumping → Option (Dumping × Bool)
round byte st =
    let (state, code_point) = decode st.state st.code_point byte in
    by_state byte (record st { state = state; code_point = code_point })

abbrev pub first_of : Option (Dumping × Bool) → Option Dumping
first_of none = none
first_of (some (st, again)) = some st

-- A byte that is read again is taken by the second round: the first one has put the count of undumped bytes to 0.
abbrev pub and_again : ℕ → Option (Dumping × Bool) → Option Dumping
and_again byte none = none
and_again byte (some (st, false)) = some st
and_again byte (some (st, true)) = first_of (round byte st)

unfoldable pub dump_loop : Bytes → Dumping → Option Dumping
dump_loop [] st = some st
dump_loop (byte ∷ str) st = do next ← and_again byte (round byte st); dump_loop str next

abbrev pub finish : Dumping → Bytes
finish st =
    if st.state == utf8_accept
    then st.out ++ st.buffer
    else (st.out ++ keep st.after_last_accept st.buffer) ++ (b'\\' ∷ codes "ufffd")

abbrev pub new_dumping : Dumping
new_dumping = record {
  out = [];
  buffer = [];
  after_last_accept = 0;
  undumped = 0;
  state = utf8_accept;
  code_point = 0;
}

-- What is appended to the output.
unfoldable pub dump_escaped : Bytes → Option Bytes
dump_escaped str = do st ← dump_loop str new_dumping; some (finish st)
