-- ===== src/Math/Tree/Numeral.antt =====
-- The numerals of a written expression, as `zzlex` of Src/math.c reads them.
use winzsh.Prelude.{
  ℕ, ◌+◌, ◌*◌, ◌%◌, ◌<◌, ◌≡◌, refl, ap, List, [], ◌∷◌, ◌++◌, map, Bool, true, false, not, ◌&&◌,
  ◌||◌, none, ltb, ◌==◌, arith,
}
use winzsh.Prelude.Int.{pos}
use winzsh.Chars.{idigit, inblank, iblank}
use winzsh.Number.{
  word_mod, zstrtol, zstrtol_digits, zstrtol_sign, zstrtol_base, skip_inblank, is_digit,
  digit_value,
}
use winzsh.Math.Token.{Token}
use winzsh.Math.State.{Shell, MathValue, Math}
use winzsh.Math.Lex.{
  punct, skip_space, plain_number, or_based, numeral, hex_prefix, lex_other, lex_byte, zzlex,
}
use winzsh.Prelude.Runs.{ran}
use winzsh.Math.Parse.{next_token}
use winzsh.Math.Tree.{digit, decimal}

-- A byte that an expression may begin with.
abbrev pub starts : ℕ → Bool
starts c = ltb 47 c && ltb c 58 || c == b'(' || c == b'!' || c == b'~'

-- A byte that ends a numeral.
abbrev ends : ℕ → Bool
ends c = not (ltb 47 c && ltb c 58) && not (c == b'#') && not (c == b'x') && not (c == b'X')

unfoldable pub ends_numeral : List ℕ → Bool
ends_numeral [] = true
ends_numeral (c ∷ s) = ends c

digit-is_digit : (d : ℕ) → is_digit (pos 10) (digit d) ≡ true
unfolding is_digit
digit-is_digit d = ground arith

ends-is_digit : (c : ℕ) → ends c ≡ true → is_digit (pos 10) c ≡ false
unfolding is_digit
ends-is_digit c h = ground (arith, h)

next_digit :
    (n d : ℕ)
    → ((n % word_mod) * 10 + digit_value 10 (digit d)) % word_mod ≡ (n * 10 + d % 10) % word_mod
unfolding digit_value
next_digit n d = omega arith

zstrtol_digits_lem :
    (ds : List ℕ) (n : ℕ) (s : List ℕ)
    → ends_numeral s ≡ true
    → zstrtol_digits (pos 10) (n % word_mod) (map digit ds ++ s) ≡ (decimal n ds % word_mod, s)
unfolding zstrtol_digits ends_numeral
zstrtol_digits_lem [] n [] h = refl
zstrtol_digits_lem [] n (c ∷ s) h = rw (ends-is_digit c h, zstrtol_digits) refl
zstrtol_digits_lem (d ∷ ds) n s h =
    rw (digit-is_digit d, next_digit n d, zstrtol_digits)
      (zstrtol_digits_lem ds (n * 10 + d % 10) s h)

-- A numeral is read up to what ends it.
zstrtol_lem :
    (d : ℕ) (ds s : List ℕ)
    → ends_numeral s ≡ true
    → zstrtol (pos 10) (digit d ∷ map digit ds ++ s) ≡ (decimal 0 (d ∷ ds) % word_mod, s)
unfolding zstrtol skip_inblank zstrtol_sign zstrtol_base
zstrtol_lem d ds s h =
    rw (not_blank, not_minus, not_plus, zstrtol, skip_inblank, zstrtol_sign)
      (ap (λ (x : ℕ × List ℕ). (x.0, x.1)) (zstrtol_digits_lem (d ∷ ds) 0 s h))
  where
    not_blank : inblank (digit d) ≡ false
    not_blank = unfold inblank iblank in ground arith

    not_minus : (digit d == b'-') ≡ false
    not_minus = ground arith

    not_plus : (digit d == b'+') ≡ false
    not_plus = ground arith

no_hash : (x : ℕ) → ends x ≡ true → (x == b'#') ≡ false
no_hash x h = ground (arith, h)

plain_number_lem :
    (lastbase d : ℕ) (ds s : List ℕ)
    → ends_numeral s ≡ true
    → plain_number lastbase (digit d ∷ map digit ds ++ s)
      ≡ (decimal 0 (d ∷ ds) % word_mod, s, lastbase)
unfolding plain_number or_based ends_numeral
plain_number_lem lastbase d ds s h = rw (zstrtol_lem d ds s h, plain_number) (by_rest s h)
  where
    by_rest :
        (s : List ℕ)
        → ends_numeral s ≡ true
        → or_based lastbase (decimal 0 (d ∷ ds) % word_mod) s
          ≡ (decimal 0 (d ∷ ds) % word_mod, s, lastbase)
    by_rest [] h = refl
    by_rest (x ∷ r) h = rw (no_hash x h, or_based) refl

punct_digit : (u : Bool) (c : ℕ) (p : List ℕ) → 47 < c → c < 58 → punct u c p ≡ none
unfolding punct
punct_digit u c p lo hi = ground arith

no_hex :
    (d : ℕ) (ds s : List ℕ)
    → ends_numeral s ≡ true
    → hex_prefix (digit d) (map digit ds ++ s) ≡ false
unfolding hex_prefix ends_numeral
no_hex d [] [] h = refl
no_hex d [] (x ∷ s) h = ground (arith, h)
no_hex d (e ∷ ds) s h = ground arith

pub skip_space_start : (c : ℕ) (p : List ℕ) → starts c ≡ true → skip_space (c ∷ p) ≡ c ∷ p
unfolding skip_space
skip_space_start c p h = ground (arith, h)

module _ {P : Type 0} where
  -- A state in which `s` is to be read, the parts that change named, without an error.
  abbrev pub reading : Math P → List ℕ → Bool → List MathValue → ℕ → Math P
  reading m s u st y = record m { ptr = s; unary = u; stack = st; yyval = y; errflag = false }

  module _ (sh : Shell P) where
    lex_other_digit :
        (m : Math P) (c : ℕ) (p : List ℕ)
        → 47 < c
        → c < 58
        → hex_prefix c p ≡ false
        → lex_other sh m c p ≡ numeral sh m (plain_number m.lastbase (c ∷ p))
    unfolding lex_other idigit
    lex_other_digit m c p lo hi h = ground (arith, h)

    pub next_token_num :
        (m : Math P) (d : ℕ) (ds s : List ℕ) (u : Bool) (st : List MathValue) (y : ℕ)
        → ends_numeral s ≡ true
        → next_token sh (reading m (map digit (d ∷ ds) ++ s) u st y)
          ≡ ran (record (reading m s false st (decimal 0 (d ∷ ds) % word_mod)) { mtok = Token.num })
    unfolding next_token zzlex lex_byte
    next_token_num m d ds s u st y h =
        let p = map digit ds ++ s in
        rw
          (
            skip_space_start (digit d) p (ground arith),
            punct_digit u (digit d) p (omega arith) (omega arith),
            lex_other_digit (reading m (digit d ∷ p) u st y) (digit d) p (omega arith) (omega arith)
                (no_hex d ds s h),
            plain_number_lem m.lastbase d ds s h,
            next_token,
            zzlex,
            lex_byte,
          )
          refl
