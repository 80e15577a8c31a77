-- ===== src/Time.antt =====
-- agperms/src/agperms/_time.py: timestamps and the clamping of free text. A time is a number of
-- microseconds from the epoch, in UTC; `as_utc` is then the identity.
pub mod Clamp
use Prim.Native.Char.{Char, code}
use Prim.Native.String
use adf.Prelude.{
  ℕ, zero, suc, ◌-◌, ◌*◌, ◌/◌, String, Bool, true, false, ◌&&◌, ◌||◌, leb, nat_eq, if◌then◌else◌,
}

abbrev pub second : ℕ
second = 1000000

-- `from_ts`
abbrev pub from_ts : ℕ → ℕ
from_ts ts = ts * second

-- `int(t.timestamp())`
abbrev pub timestamp : ℕ → ℕ
timestamp t = t / second

-- what `str.split` takes for white space
unfoldable pub is_space : ℕ → Bool
is_space c =
    (leb 9 c && leb c 13)
    || (leb 28 c && leb c 32)
    || nat_eq c 0x85
    || nat_eq c 0xa0
    || nat_eq c 0x1680
    || (leb 0x2000 c && leb c 0x200a)
    || nat_eq c 0x2028
    || nat_eq c 0x2029
    || nat_eq c 0x202f
    || nat_eq c 0x205f
    || nat_eq c 0x3000

abbrev pub blank : Char
blank = " "

abbrev pub ellipsis : String
ellipsis = "…"

-- `" ".join(text.split())` in one pass: `started` once a word was written, `gap` after white space.
unfoldable pub collapse : Bool → Bool → String → String
unfolding is_space
collapse started gap String.[] = String.[]
collapse started gap (String.◌∷◌ c s) =
    let skipped = collapse started true s in
    let rest = collapse true false s in
    if is_space (code c)
    then skipped
    else if started && gap
    then String.◌∷◌ blank (String.◌∷◌ c rest)
    else String.◌∷◌ c rest

-- `len(text)`
unfoldable pub text_length : String → ℕ
text_length String.[] = 0
text_length (String.◌∷◌ c s) = suc (text_length s)

-- `text[:n]`
unfoldable pub text_take : ℕ → String → String
text_take zero s = String.[]
text_take (suc n) String.[] = String.[]
text_take (suc n) (String.◌∷◌ c s) = String.◌∷◌ c (text_take n s)

unfoldable pub truncate_text : String → ℕ → String
unfolding collapse text_length text_take
truncate_text text limit =
    let collapsed = collapse false false text in
    if leb (text_length collapsed) limit
    then collapsed
    else String.◌++◌ (text_take (limit - 1) collapsed) ellipsis

-- the default limit
abbrev pub truncate_reason : String → String
truncate_reason text = truncate_text text 200
