-- ===== src/Html/Written.antt =====
-- include/json_html_serializer.hpp: `dumpEscaped` on a whole text.
use crow_core.Common.{
  ℕ, zero, suc, ◌+◌, ◌-◌, ◌≤◌, ◌<◌, Bytes, codes, length, [], ◌∷◌, ◌++◌, Option, none, some, Bool,
  true, false, ltb, leb, ◌==◌, ◌>>=◌, All, All-append, IsByte, ◌≡◌, refl, subst, Bool-cases,
  Option-cases, inl, inr, arith, ◌⊎◌,
}
use crow_core.Html.{
  decode, escape, Dumping, flush, mark, accept, keep, reject, by_state, round, first_of, and_again,
  dump_loop, finish, new_dumping, dump_escaped,
}
use crow_core.Html.Decoding.{IsGood, IsDecoded, decode-IsDecoded}
use crow_core.Html.Safe.{IsSafe, all_safe_sound, escape-IsSafe}

-- What is written so far is safe, and the state is good.
abbrev Holds : Dumping → Type 0
Holds st = IsGood st.state st.code_point × All IsSafe st.out × All IsSafe st.buffer

abbrev Sound : Option (Dumping × Bool) → Type 0
Sound none = Unit
Sound (some (st, again)) = Holds st

keep-IsSafe : (n : ℕ) (text : Bytes) → All IsSafe text → All IsSafe (keep n text)
keep-IsSafe n [] h = tt
keep-IsSafe zero (c ∷ text) h = tt
keep-IsSafe (suc n) (c ∷ text) (safe, h) = (safe, keep-IsSafe n text h)

flush-Holds : (st : Dumping) → Holds st → Holds (mark (flush st))
flush-Holds st (good, out, buffer) = elim (Bool-cases (ltb (512 - length st.buffer) 13)) [
  | inl full ↦ rw full (good, All-append IsSafe st.out st.buffer out buffer, tt)
  | inr space ↦ rw space (good, out, buffer)
]

accept-Sound :
    (byte : ℕ) (st : Dumping)
    → st.state ≡ 0
    → (st.code_point ≡ byte) ⊎ (128 ≤ st.code_point)
    → All IsSafe st.out
    → All IsSafe st.buffer
    → Sound (accept byte st)
unfolding accept
accept-Sound byte st start origin out buffer =
    let (text, extra) = escape byte st.code_point in
    elim (Bool-cases (leb (length st.buffer + length text + extra) 512)) [
      | inr past ↦ rw past tt
      | inl fits ↦ rw fits (
          flush-Holds (record st { buffer = st.buffer ++ text })
            (
              inl start,
              out,
              All-append IsSafe st.buffer text buffer (escape-IsSafe byte st.code_point origin),
            ))
    ]

reject-Sound : (st : Dumping) → All IsSafe st.out → All IsSafe st.buffer → Sound (reject st)
unfolding reject
reject-Sound st out buffer =
    let kept = keep st.after_last_accept st.buffer in
    let text = b'\\' ∷ codes "ufffd" in
    elim (Bool-cases (leb (length kept + length text + 0) 512)) [
      | inr past ↦ rw past tt
      | inl fits ↦ rw fits (
        inl refl,
        out,
        All-append IsSafe kept text (keep-IsSafe st.after_last_accept st.buffer buffer)
            (all_safe_sound text refl),
      )
    ]

by_state-Sound :
    (byte : ℕ) (st : Dumping)
    → IsDecoded byte st.state st.code_point
    → All IsSafe st.out
    → All IsSafe st.buffer
    → Sound (by_state byte st)
by_state-Sound byte st (inl refused) out buffer =
    rw refused (reject-Sound (record st { state = 1 }) out buffer)
by_state-Sound byte st (inr (inl (start, origin))) out buffer =
    rw start (accept-Sound byte (record st { state = 0 }) refl origin out buffer)
by_state-Sound byte st (inr (inr ((low, high), least_in, bound_in))) out buffer =
    let not_first : (st.state == 0) ≡ false = ground arith in
    let not_second : (st.state == 1) ≡ false = ground arith in
    rw (not_first, not_second) (inr ((low, high), least_in, bound_in), out, buffer)

round-Sound : (byte : ℕ) (st : Dumping) → byte < 256 → Holds st → Sound (round byte st)
unfolding round
round-Sound byte st small (good, out, buffer) =
    let (state, code_point) = decode st.state st.code_point byte in
    by_state-Sound byte (record st { state = state; code_point = code_point })
      (decode-IsDecoded st.state st.code_point byte good small) out buffer

abbrev SoundNext : Option Dumping → Type 0
SoundNext none = Unit
SoundNext (some st) = Holds st

and_again-Sound :
    (byte : ℕ) (o : Option (Dumping × Bool)) → byte < 256 → Sound o → SoundNext (and_again byte o)
and_again-Sound byte none small h = tt
and_again-Sound byte (some (st, false)) small h = h
and_again-Sound byte (some (st, true)) small h =
    second (round byte st) (round-Sound byte st small h)
  where
    second : (o : Option (Dumping × Bool)) → Sound o → SoundNext (first_of o)
    second none h' = tt
    second (some (st', again)) h' = h'

bind-Sound :
    (o : Option Dumping) (f : Dumping → Option Dumping)
    → ((st : Dumping) → Holds st → SoundNext (f st))
    → SoundNext o
    → SoundNext (o >>= f)
bind-Sound none f each h = tt
bind-Sound (some st) f each h = each st h

dump_loop-Sound :
    (str : Bytes) (st : Dumping) → All IsByte str → Holds st → SoundNext (dump_loop str st)
unfolding dump_loop
dump_loop-Sound [] st bytes h = h
dump_loop-Sound (byte ∷ str) st (small, bytes) h =
    bind-Sound (and_again byte (round byte st)) (dump_loop str)
      (λ st' h'. dump_loop-Sound str st' bytes h')
      (and_again-Sound byte (round byte st) small (round-Sound byte st small h))

finish-IsSafe : (st : Dumping) → Holds st → All IsSafe (finish st)
finish-IsSafe st (good, out, buffer) = elim (Bool-cases (st.state == 0)) [
  | inl ends ↦ rw ends (All-append IsSafe st.out st.buffer out buffer)
  | inr within ↦
      let kept = keep st.after_last_accept st.buffer in
      rw within (
        All-append IsSafe (st.out ++ kept) (b'\\' ∷ codes "ufffd")
          (All-append IsSafe st.out kept out (keep-IsSafe st.after_last_accept st.buffer buffer))
          (all_safe_sound (b'\\' ∷ codes "ufffd") refl))
]

-- Where `dumpEscaped` stays within its buffer, every character that it appends for a text, whatever the text's bytes
-- are, is a printable one other than `<`, `>` and the two kinds of quotes.
pub dump_escaped-IsSafe :
    (str out : Bytes) → All IsByte str → dump_escaped str ≡ some out → All IsSafe out
unfolding dump_escaped
dump_escaped-IsSafe str out bytes e = elim (Option-cases (dump_loop str new_dumping)) [
  | inl past ↦ absurd (cc (rw past at e))
  | inr (st, done) ↦
      let holds : Holds st =
        subst SoundNext done (dump_loop-Sound str new_dumping bytes (inl refl, tt, tt)) in
      let same : finish st ≡ out = cc (rw done at e) in
      subst (All IsSafe) same (finish-IsSafe st holds)
]
