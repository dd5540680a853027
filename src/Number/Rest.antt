-- ===== src/Number/Rest.antt =====
-- What `zstrtol` leaves of the string is an end of it.
use winzsh.Prelude.{
  ℕ, zero, suc, ◌+◌, ◌*◌, ◌%◌, ◌≤◌, ◌≡◌, refl, List, [], ◌∷◌, true, false, ◌==◌, arith,
}
use winzsh.Prelude.Int.{ℤ, pos, negsuc, pos_part}
use winzsh.Prelude.Lists.{length}
use winzsh.Chars.{idigit, iblank, inblank}
use winzsh.Number.{
  word_mod, digit_value, is_digit, zstrtol_digits, skip_inblank, zstrtol_sign, zstrtol_base,
  zstrtol,
}

zstrtol_digits-le :
    (base : ℤ) (ret : ℕ) (s : List ℕ) → length (zstrtol_digits base ret s).1 ≤ length s
unfolding zstrtol_digits
zstrtol_digits-le base ret [] = omega arith
zstrtol_digits-le base ret (c ∷ s) =
    let r = (ret * pos_part base + digit_value (pos_part base) c) % word_mod in
    ground (arith, zstrtol_digits-le base r s)

skip_inblank-le : (s : List ℕ) → length (skip_inblank s) ≤ length s
unfolding skip_inblank
skip_inblank-le [] = omega arith
skip_inblank-le (c ∷ s) = ground (arith, skip_inblank-le s)

zstrtol_sign-le : (s : List ℕ) → length (zstrtol_sign s).1 ≤ length s
unfolding zstrtol_sign
zstrtol_sign-le [] = omega arith
zstrtol_sign-le (c ∷ s) = ground arith

zstrtol_base-le : (base : ℤ) (s : List ℕ) → length (zstrtol_base base s).1 ≤ length s
unfolding zstrtol_base
zstrtol_base-le (pos zero) [] = omega arith
zstrtol_base-le (pos zero) (c ∷ []) = ground arith
zstrtol_base-le (pos zero) (c ∷ d ∷ s) = ground arith
zstrtol_base-le (pos (suc b)) s = omega arith
zstrtol_base-le (negsuc b) s = omega arith

pub zstrtol-le : (base : ℤ) (s : List ℕ) → length (zstrtol base s).1 ≤ length s
unfolding zstrtol
zstrtol-le base s =
    let s₁ = zstrtol_sign (skip_inblank s) in
    let s₂ = zstrtol_base base s₁.1 in
    omega (
      arith,
      skip_inblank-le s,
      zstrtol_sign-le (skip_inblank s),
      zstrtol_base-le base s₁.1,
      zstrtol_digits-le s₂.0 0 s₂.1,
    )

first_digit :
    (c : ℕ) (s : List ℕ) → idigit c ≡ true → zstrtol_sign (skip_inblank (c ∷ s)) ≡ (false, c ∷ s)
unfolding idigit inblank iblank skip_inblank zstrtol_sign
first_digit c s h =
    let a : inblank c ≡ false = ground (arith, h) in
    let b : (c == 45) ≡ false = ground (arith, h) in
    let d : (c == 43) ≡ false = ground (arith, h) in rw (a, b, d) refl

is_digit_digit : (c : ℕ) → idigit c ≡ true → is_digit (pos 10) c ≡ true
unfolding is_digit idigit
is_digit_digit c h = ground (arith, h)

digits_digit :
    (c : ℕ) (s : List ℕ)
    → idigit c ≡ true
    → zstrtol_digits (pos 10) 0 (c ∷ s)
      ≡ zstrtol_digits (pos 10) ((0 * 10 + digit_value 10 c) % word_mod) s
unfolding zstrtol_digits
digits_digit c s h = rw (is_digit_digit c h, zstrtol_digits) refl

-- A digit is read.
pub zstrtol-digit-le :
    (c : ℕ) (s : List ℕ) → idigit c ≡ true → length (zstrtol (pos 10) (c ∷ s)).1 ≤ length s
unfolding zstrtol zstrtol_base
zstrtol-digit-le c s h =
    let ret = (0 * 10 + digit_value 10 c) % word_mod in
    rw (first_digit c s h, digits_digit c s h) (zstrtol_digits-le (pos 10) ret s)
