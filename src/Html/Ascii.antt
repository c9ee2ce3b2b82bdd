-- ===== src/Html/Ascii.antt =====
-- include/json_html_serializer.hpp: `dumpEscaped` on ASCII.
use crow_core.Common.{
  ℕ, ◌+◌, ◌-◌, ◌%◌, ◌^◌, ◌≤◌, ◌<◌, Bytes, length, get_or, [], ◌∷◌, ◌++◌, Option, none, some, Bool,
  true, false, ◌&&◌, ltb, leb, ◌==◌, ◌>>=◌, All, IsByte, all_below, all_below_sound, ◌≡◌, refl,
  subst, Bool-cases, Option-cases, inl, inr, arith, length-append,
}
use crow_core.Html.{
  utf8d, decode, escape, Dumping, flush, mark, accept, round, and_again, dump_loop, finish,
  new_dumping, dump_escaped,
}
use crow_core.Html.Safe.{IsSafe}
use crow_core.Html.Written.{dump_escaped-IsSafe}

-- Between two characters, with room in the buffer for the longest text.
abbrev HasRoom : Dumping → Type 0
HasRoom st = (st.state ≡ 0) × (length st.buffer ≤ 499)

ascii_table :
    all_below 128 (λ b. (get_or utf8d b 0 == 0) && leb (length (escape b b).0 + (escape b b).1) 7)
    ≡ true
unfolding all_below utf8d escape
ascii_table = refl

first_state : get_or utf8d 256 0 ≡ 0
unfolding utf8d
first_state = refl

flush-HasRoom : (st : Dumping) → st.state ≡ 0 → length st.buffer ≤ 512 → HasRoom (mark (flush st))
flush-HasRoom st start fits = elim (Bool-cases (ltb (512 - length st.buffer) 13)) [
  | inl full ↦ rw full (start, omega arith)
  | inr space ↦
      let room : length st.buffer ≤ 499 = ground (arith, space, fits) in rw space (start, room)
]

-- A byte has been taken, with room for the next.
abbrev IsTaken : Option (Dumping × Bool) → Type 0
IsTaken none = ⊥
IsTaken (some (st, true)) = ⊥
IsTaken (some (st, false)) = HasRoom st

ascii_row :
    (byte : ℕ)
    → byte < 128
    → (get_or utf8d byte 0 ≡ 0) × (length (escape byte byte).0 + (escape byte byte).1 ≤ 7)
ascii_row byte small =
    let row =
      all_below_sound 128
        (λ b. (get_or utf8d b 0 == 0) && leb (length (escape b b).0 + (escape b b).1) 7) byte
        ascii_table small in
    (ground (arith, row), ground (arith, row))

accept-IsTaken :
    (byte : ℕ) (st : Dumping)
    → byte < 128
    → HasRoom st
    → IsTaken (accept byte (record st { code_point = byte }))
unfolding accept
accept-IsTaken byte st small (start, room) =
    let text = (escape byte byte).0 in
    let short = (ascii_row byte small).1 in
    let fits : leb (length st.buffer + length text + (escape byte byte).1) 512 ≡ true =
      ground (arith, short, room) in
    let longer : length (st.buffer ++ text) ≤ 512 =
      omega (arith, length-append st.buffer text, short, room) in
    rw fits
      (flush-HasRoom (record st { buffer = st.buffer ++ text; code_point = byte }) start longer)

round-IsTaken : (byte : ℕ) (st : Dumping) → byte < 128 → HasRoom st → IsTaken (round byte st)
unfolding round decode
round-IsTaken byte st small (start, room) =
    let type = (ascii_row byte small).0 in
    let whole : byte % 2 ^ (8 - 0) ≡ byte = omega arith in
    rw (start, type, first_state, whole)
      (accept-IsTaken byte (record st { state = 0 }) small (refl, room))

abbrev IsTakenNext : Option Dumping → Type 0
IsTakenNext none = ⊥
IsTakenNext (some st) = HasRoom st

and_again-IsTaken :
    (byte : ℕ) (o : Option (Dumping × Bool)) → IsTaken o → IsTakenNext (and_again byte o)
and_again-IsTaken byte none h = h
and_again-IsTaken byte (some (st, true)) h = absurd h
and_again-IsTaken byte (some (st, false)) h = h

bind-IsTaken :
    (o : Option Dumping) (f : Dumping → Option Dumping)
    → ((st : Dumping) → HasRoom st → IsTakenNext (f st))
    → IsTakenNext o
    → IsTakenNext (o >>= f)
bind-IsTaken none f each h = h
bind-IsTaken (some st) f each h = each st h

dump_loop-IsTaken :
    (str : Bytes) (st : Dumping)
    → All (λ c. c < 128) str
    → HasRoom st
    → IsTakenNext (dump_loop str st)
unfolding dump_loop
dump_loop-IsTaken [] st ascii h = h
dump_loop-IsTaken (byte ∷ str) st (small, ascii) h =
    bind-IsTaken (and_again byte (round byte st)) (dump_loop str)
      (λ st' h'. dump_loop-IsTaken str st' ascii h')
      (and_again-IsTaken byte (round byte st) (round-IsTaken byte st small h))

ascii-IsByte : (str : Bytes) → All (λ c. c < 128) str → All IsByte str
ascii-IsByte [] h = tt
ascii-IsByte (c ∷ str) (small, h) = (omega arith, ascii-IsByte str h)

-- `dumpEscaped` writes every ASCII text within its buffer, and what it appends is safe.
pub dump_escaped-ascii :
    (str : Bytes)
    → All (λ c. c < 128) str
    → (out : Bytes) × (dump_escaped str ≡ some out) × All IsSafe out
unfolding dump_escaped
dump_escaped-ascii str ascii = elim (Option-cases (dump_loop str new_dumping)) [
  | inl past ↦
      absurd (subst IsTakenNext past (dump_loop-IsTaken str new_dumping ascii (refl, omega arith)))
  | inr (st, done) ↦
      let made : dump_escaped str ≡ some (finish st) = rw done refl in
      (finish st, made, dump_escaped-IsSafe str (finish st) (ascii-IsByte str ascii) made)
]
