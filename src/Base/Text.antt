-- ===== src/Base/Text.antt =====
-- Python's `str` and `bytes` as lists of code points or bytes, with the methods that the program
-- calls: `==`, `startswith`, `str(int)`, `int(str)`.
use Prim.Native.Nat.{ℕ, zero, suc, ◌+◌, ◌-◌, ◌*◌, ◌/◌, ◌%◌, ◌<◌}
use Prim.Native.Char.{code}
use Prim.Native.String.{String}
use mathlib.Core.Path.{◌≡◌, refl, ap, sym, ◌∙◌}
use mathlib.Core.Logic.{◌↔◌, inl, inr}
use mathlib.Core.Bool.{Bool, true, false, ◌&&◌, ◌||◌}
use mathlib.Core.Option.{Option, none, some}
use mathlib.Core.List.{List, [], ◌∷◌, ◌++◌}
use native.Mathlib.Omega.{arith}
use ocr_serving.Base.Tests.{ltb, leb, ◌==◌, if◌then◌else◌, Bool-cases}

abbrev pub Text : Type 0
Text = List ℕ

-- The code points of a literal.
abbrev pub codes : String → Text
codes String.[] = []
codes (String.◌∷◌ c s) = code c ∷ codes s

unfoldable pub text_eq : Text → Text → Bool
text_eq [] [] = true
text_eq [] (b ∷ bs) = false
text_eq (a ∷ as') [] = false
text_eq (a ∷ as') (b ∷ bs) = (a == b) && text_eq as' bs

pub text_eq_refl : (s : Text) → text_eq s s ≡ true
unfolding text_eq
text_eq_refl [] = refl
text_eq_refl (a ∷ s) = ground (arith, text_eq_refl s)

pub eq_of_text_eq : (s t : Text) → text_eq s t ≡ true → s ≡ t
unfolding text_eq
eq_of_text_eq [] [] h = refl
eq_of_text_eq [] (b ∷ t) h = cc
eq_of_text_eq (a ∷ s) [] h = cc
eq_of_text_eq (a ∷ s) (b ∷ t) h = ground (arith, eq_of_text_eq s t)

pub text_eq_iff : (s t : Text) → (text_eq s t ≡ true) ↔ (s ≡ t)
text_eq_iff s t = (eq_of_text_eq s t, λ e. ap (text_eq s) (sym e) ∙ text_eq_refl s)

-- `if s`, `not s`: a text is true unless it is empty.
abbrev pub nonempty : Text → Bool
nonempty [] = false
nonempty (c ∷ s) = true

-- `s or d`
abbrev pub text_or : Text → Text → Text
text_or [] d = d
text_or (c ∷ s) d = c ∷ s

unfoldable pub starts_with : Text → Text → Bool
starts_with s [] = true
starts_with [] (p ∷ ps) = false
starts_with (c ∷ s) (p ∷ ps) = (c == p) && starts_with s ps

pub starts_with-append : (p s : Text) → starts_with (p ++ s) p ≡ true
unfolding starts_with
starts_with-append [] [] = refl
starts_with-append [] (c ∷ s) = refl
starts_with-append (c ∷ p) s = ground (arith, starts_with-append p s)

-- `str.lower`, on the letters that the program's own texts are made of.
unfoldable pub lower_char : ℕ → ℕ
lower_char c = if leb b'A' c && leb c b'Z' then c + 32 else c

abbrev pub to_lower : Text → Text
to_lower [] = []
to_lower (c ∷ s) = lower_char c ∷ to_lower s

-- `sub in s`
unfoldable pub contains : Text → Text → Bool
unfolding starts_with
contains sub [] = starts_with [] sub
contains sub (c ∷ s) = starts_with (c ∷ s) sub || contains sub s

-- `str(n)`: the digits are found from the last, on fuel; `suc n` is always enough.
decimal_from : ℕ → ℕ → Text → Text
decimal_from zero n acc = acc
decimal_from (suc f) n acc =
    let rest = decimal_from f (n / 10) ((48 + n % 10) ∷ acc) in
    if ltb n 10 then (48 + n) ∷ acc else rest

unfoldable pub decimal : ℕ → Text
unfolding decimal_from
decimal n = decimal_from (suc n) n []

-- `int(s)` on texts of digits; anything else is the ValueError `none`.
int_from : ℕ → Text → Option ℕ
int_from n [] = some n
int_from n (c ∷ s) =
    let rest = int_from (n * 10 + (c - 48)) s in if leb 48 c && leb c 57 then rest else none

unfoldable pub int_of : Text → Option ℕ
unfolding int_from
int_of [] = none
int_of (c ∷ s) = int_from 0 (c ∷ s)

int_from-digit :
    (n d m : ℕ) (s : Text) → d < 10 → n * 10 + d ≡ m → int_from n ((48 + d) ∷ s) ≡ int_from m s
unfolding int_from
int_from-digit n d m s h e = ground (arith, ap (λ (k : ℕ). int_from k s) e)

int_from-decimal_from :
    (f n : ℕ) (acc : Text) → n < f → int_from 0 (decimal_from f n acc) ≡ int_from n acc
unfolding decimal_from
int_from-decimal_from zero n acc h = elim h [ ]
int_from-decimal_from (suc f) n acc h = elim (Bool-cases (ltb n 10)) [
  | inl small ↦ rw small (int_from-digit 0 n n acc (ground arith) (omega arith))
  | inr large ↦ rw large (
      int_from-decimal_from f (n / 10) ((48 + n % 10) ∷ acc) (ground arith)
      ∙ int_from-digit (n / 10) (n % 10) n acc (omega arith) (omega arith))
]

decimal_from-nonempty :
    (f n : ℕ) (acc : Text) → nonempty acc ≡ true → nonempty (decimal_from f n acc) ≡ true
unfolding decimal_from
decimal_from-nonempty zero n acc h = h
decimal_from-nonempty (suc f) n acc h =
    ground (arith, decimal_from-nonempty f (n / 10) ((48 + n % 10) ∷ acc))

pub decimal-nonempty : (n : ℕ) → nonempty (decimal n) ≡ true
unfolding decimal
decimal-nonempty n = ground (arith, decimal_from-nonempty n (n / 10) ((48 + n % 10) ∷ []))

int_of-nonempty : (s : Text) → nonempty s ≡ true → int_of s ≡ int_from 0 s
unfolding int_of
int_of-nonempty [] h = cc
int_of-nonempty (c ∷ s) h = refl

-- `int(str(n)) == n`.
pub int_of-decimal : (n : ℕ) → int_of (decimal n) ≡ some n
int_of-decimal n =
    int_of-nonempty (decimal n) (decimal-nonempty n)
    ∙ (unfold decimal int_from in int_from-decimal_from (suc n) n [] (omega arith))
