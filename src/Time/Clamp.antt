-- ===== src/Time/Clamp.antt =====
-- agperms/src/agperms/_time.py: the length of a clamped reason.
use Prim.Native.String
use Prim.Native.String.append
use adf.Prelude.{
  ℕ, zero, suc, ◌+◌, ◌-◌, ◌≤◌, ◌<◌, ◌≡◌, String, false, arith, leb, Bool-cases, inl, inr,
}
use adf.Time.{ellipsis, collapse, text_length, text_take, truncate_text}

text_length-append : (s t : String) → text_length (String.◌++◌ s t) ≡ text_length s + text_length t
unfolding text_length
text_length-append String.[] t = rw (append.nil t) (omega arith)
text_length-append (String.◌∷◌ c s) t =
    rw (append.cons c s t) (omega (arith, text_length-append s t))

text_length-take-le : (n : ℕ) (s : String) → text_length (text_take n s) ≤ n
unfolding text_length text_take
text_length-take-le zero s = omega arith
text_length-take-le (suc n) String.[] = omega arith
text_length-take-le (suc n) (String.◌∷◌ c s) = omega (arith, text_length-take-le n s)

-- A reason that is clamped to a positive limit has at most that many characters.
pub text_length-truncate_text-le :
    (text : String) (limit : ℕ) → 0 < limit → text_length (truncate_text text limit) ≤ limit
unfolding truncate_text
text_length-truncate_text-le text limit h =
    elim (Bool-cases (leb (text_length (collapse false false text)) limit)) [
      | inl short ↦ rw short (ground arith)
      | inr long ↦ rw long (
          omega (
            arith,
            text_length-append (text_take (limit - 1) (collapse false false text)) ellipsis,
            text_length-take-le (limit - 1) (collapse false false text),
          ))
    ]
