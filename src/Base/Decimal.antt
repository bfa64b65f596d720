-- ===== src/Base/Decimal.antt =====
-- `usize` in decimal: what `write!(w, "{}", n)` prints and what `str::parse` reads, both of the
-- standard library.
use Prim.Native.Nat.{ℕ, zero, suc, ◌+◌, ◌-◌, ◌*◌, ◌/◌, ◌%◌, ◌^◌, ◌<◌, ◌≤◌}
use mathlib.Core.Path.{◌≡◌, refl, ◌∙◌}
use mathlib.Core.Bool.{◌&&◌}
use mathlib.Core.Option.{Option, none, some}
use mathlib.Core.List.{[], ◌∷◌}
use native.Mathlib.Omega.{arith}
use mathlib.Core.Path.{ap}
use mathlib.Core.Logic.{◌≢◌, inl, inr}
use native.Mathlib.Nat.{pow-suc}
use eos_base.Base.Tests.{Bool-cases}
use eos_base.Base.Tests.{◌==◌, ltb, leb, if◌then◌else◌}
use eos_base.Base.Text.{Str}

-- The digits of `n` in front of `acc`; 20 digits are enough for a `usize`.
unfoldable pub digits_of : ℕ → ℕ → Str → Str
digits_of zero n acc = acc
digits_of (suc fuel) n acc =
    let d = b'0' + n % 10 in
    let rest = digits_of fuel (n / 10) (d ∷ acc) in if ltb n 10 then d ∷ acc else rest

unfoldable pub decimal : ℕ → Str
unfolding digits_of
decimal n = digits_of 20 n []

-- A digit that takes the value past the range, or a byte that is no digit, is an error.
unfoldable pub parse_digits : ℕ → Str → Option ℕ
parse_digits n [] = some n
parse_digits n (c ∷ s) =
    let next = n * 10 + (c - b'0') in
    let rest = parse_digits next s in
    if leb b'0' c && leb c b'9' && ltb next (2 ^ 64) then rest else none

-- An optional plus sign, then at least one digit.
unfoldable pub parse_usize : Str → Option ℕ
unfolding parse_digits
parse_usize [] = none
parse_usize (c ∷ []) = parse_digits 0 (c ∷ [])
parse_usize (c ∷ d ∷ s) = parse_digits 0 (if c == b'+' then d ∷ s else c ∷ d ∷ s)

parse_step :
    (m d : ℕ) (acc : Str)
    → d < 10
    → m * 10 + d < 2 ^ 64
    → parse_digits m ((b'0' + d) ∷ acc) ≡ parse_digits (m * 10 + d) acc
unfolding parse_digits
parse_step m d acc h k = ground arith

parse-digits_of :
    (f n : ℕ) (acc : Str)
    → n < 2 ^ 64
    → n < 10 ^ f
    → parse_digits 0 (digits_of f n acc) ≡ parse_digits n acc
unfolding digits_of
parse-digits_of zero n acc h k = ap (λ m. parse_digits m acc) (omega arith)
parse-digits_of (suc f) n acc h k = elim (Bool-cases (ltb n 10)) [
  | inl small ↦ rw small (
      parse_step 0 (n % 10) acc (omega arith) (omega arith)
      ∙ ap (λ m. parse_digits m acc) (ground arith))
  | inr large ↦ rw large (
      parse-digits_of f (n / 10) ((b'0' + n % 10) ∷ acc) (omega arith) (omega (arith, pow-suc 10 f))
      ∙ parse_step (n / 10) (n % 10) acc (omega arith) (omega arith)
      ∙ ap (λ m. parse_digits m acc) (omega arith))
]

-- A first byte that is a digit is no plus sign.
parse_plain : (s : Str) (c : ℕ) → c ≢ b'+' → parse_usize (c ∷ s) ≡ parse_digits 0 (c ∷ s)
unfolding parse_usize
parse_plain [] c h = refl
parse_plain (d ∷ s) c h = ground arith

-- `digits_of` puts a digit in front.
abbrev StartsWithDigit : Str → Type 0
StartsWithDigit [] = ⊥
StartsWithDigit (c ∷ s) = b'0' ≤ c

digits_of-StartsWithDigit :
    (f n : ℕ) (acc : Str) → StartsWithDigit acc → StartsWithDigit (digits_of f n acc)
unfolding digits_of
digits_of-StartsWithDigit zero n acc h = h
digits_of-StartsWithDigit (suc f) n acc h = elim (Bool-cases (ltb n 10)) [
  | inl small ↦ rw small (omega arith)
  | inr large ↦
      rw large (digits_of-StartsWithDigit f (n / 10) ((b'0' + n % 10) ∷ acc) (omega arith))
]

parse_unsigned : (s : Str) → StartsWithDigit s → parse_usize s ≡ parse_digits 0 s
parse_unsigned [] h = absurd h
parse_unsigned (c ∷ s) h = parse_plain s c (omega arith)

digits_of-nil : (f n : ℕ) → StartsWithDigit (digits_of (suc f) n [])
unfolding digits_of
digits_of-nil f n = elim (Bool-cases (ltb n 10)) [
  | inl small ↦ rw small (omega arith)
  | inr large ↦ rw large (digits_of-StartsWithDigit f (n / 10) ((b'0' + n % 10) ∷ []) (omega arith))
]

parse_end : (n : ℕ) → parse_digits n [] ≡ some n
unfolding parse_digits
parse_end n = refl

parse_usize-digits_of :
    (f n : ℕ) → n < 2 ^ 64 → n < 10 ^ suc f → parse_usize (digits_of (suc f) n []) ≡ some n
parse_usize-digits_of f n h k =
    parse_unsigned (digits_of (suc f) n []) (digits_of-nil f n)
    ∙ parse-digits_of (suc f) n [] h k
    ∙ parse_end n

-- Reading back what was printed gives the number.
pub parse_usize-decimal : (n : ℕ) → n < 2 ^ 64 → parse_usize (decimal n) ≡ some n
unfolding decimal
parse_usize-decimal n h = parse_usize-digits_of 19 n h (omega arith)
