-- ===== src/Math/Word.antt =====
-- What the operators compute, `op` of Src/math.c: the arithmetic of C on `zlong`. Sums, differences
-- and products wrap.
pub mod Laws
use winzsh.Prelude.{
  ℕ, zero, suc, ◌+◌, ◌-◌, ◌*◌, ◌/◌, ◌%◌, ◌^◌, Bool, true, false, not, bit_and, bit_or, bit_xor, ltb,
  leb, ◌==◌, ◌&&◌, ◌||◌, if◌then◌else◌,
}
use winzsh.Number.{word_mod, negate_word, is_negative}

-- A value, an error that `zerr` reports, or an operation that C does not define.
pub data Calc : Type 0 where
  value : ℕ → Calc
  failed : Calc
  undefined : Calc

abbrev pub truth : Bool → ℕ
truth b = if b then 1 else 0

abbrev pub nonzero : ℕ → Bool
nonzero a = not (a == 0)

-- `a < b`
abbrev pub below : ℕ → ℕ → Bool
below a b = ltb ((a + 2 ^ 31) % word_mod) ((b + 2 ^ 31) % word_mod)

abbrev pub unsigned : ℕ → ℕ
unsigned a = if is_negative a then word_mod - a else a

abbrev pub same_sign : ℕ → ℕ → Bool
same_sign a b = if is_negative a then is_negative b else not (is_negative b)

-- `if (notzero(b))` before an operation.
abbrev pub notzero : (ℕ → ℕ → Calc) → ℕ → ℕ → Calc
notzero f a b = if b == 0 then failed else f a b

-- The `/` of C. The quotient is cut off towards 0. By 0, and of the least integer and -1, there is
-- none.
unfoldable pub quotient : ℕ → ℕ → Calc
quotient a b =
    if b == 0 || a == 2 ^ 31 && b == word_mod - 1
    then undefined
    else let q = unsigned a / unsigned b in value (if same_sign a b then q else negate_word q)

-- The `%` of C. The remainder has the sign of `a`.
unfoldable pub remainder : ℕ → ℕ → Calc
remainder a b =
    if b == 0 || a == 2 ^ 31 && b == word_mod - 1
    then undefined
    else let r = unsigned a % unsigned b in value (if is_negative a then negate_word r else r)

-- A shift by 32 bits or more, or by a negative number, is not defined.
unfoldable pub shift_left : ℕ → ℕ → Calc
shift_left a b = if ltb b 32 then value (a * 2 ^ b % word_mod) else undefined

unfoldable pub shift_right : ℕ → ℕ → Calc
shift_right a b =
    if ltb b 32
    then value (if is_negative a then word_mod - 1 - (word_mod - 1 - a) / 2 ^ b else a / 2 ^ b)
    else undefined

-- `for (c = 1; b--; c *= a);`
unfoldable pub power_loop : ℕ → ℕ → ℕ → ℕ
power_loop zero a c = c
power_loop (suc b) a c = power_loop b a (c * a % word_mod)

unfoldable pub raised : ℕ → ℕ → Calc
raised a b = if is_negative b then failed else value (power_loop b a 1)

abbrev pub exclusive : ℕ → ℕ → Bool
exclusive a b = nonzero a && not (nonzero b) || not (nonzero a) && nonzero b
