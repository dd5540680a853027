-- ===== src/Number.antt =====
-- Shell integers, and `zstrtol` of Src/utils.c, which reads them. The type `zlong` is `long` here,
-- of 32 bits (Src/winnt/config.h.winnt): a value is its bit pattern, below 2 ^ 32.
pub mod Rest
use winzsh.Prelude.{
  ℕ, zero, suc, ◌+◌, ◌-◌, ◌*◌, ◌/◌, ◌%◌, ◌^◌, List, [], ◌∷◌, Bool, true, false, not, bit_and,
  bit_or, bit_xor, ltb, leb, ◌==◌, ◌&&◌, ◌||◌, if◌then◌else◌,
}
use winzsh.Prelude.Int.{ℤ, pos, negsuc, pos_part}
use winzsh.Chars.{idigit, inblank}

abbrev pub word_mod : ℕ
word_mod = 2 ^ 32

-- `-a`
abbrev pub negate_word : ℕ → ℕ
negate_word a = (word_mod - a) % word_mod

abbrev pub is_negative : ℕ → Bool
is_negative a = leb (2 ^ 31) a

-- The integer that a pattern stands for, and the pattern of an integer.
abbrev pub to_int : ℕ → ℤ
to_int a = if is_negative a then negsuc (word_mod - 1 - a) else pos a

-- The digits below `base`, which a negative base has none of. A `char` has no sign.
unfoldable pub is_digit : ℤ → ℕ → Bool
unfolding idigit
is_digit (negsuc b) c = false
is_digit (pos b) c =
    if leb b 10
    then leb b'0' c && ltb c (b'0' + b)
    else idigit c || leb b'a' c && ltb c (b'a' + b - 10) || leb b'A' c && ltb c (b'A' + b - 10)

-- `*s - '0'` for a base up to 10, and beyond that `idigit(*s) ? (*s - '0') : (*s & 0x1f) + 9`.
unfoldable pub digit_value : ℕ → ℕ → ℕ
unfolding idigit
digit_value b c = if leb b 10 || idigit c then c - b'0' else c % 32 + 9

-- The two loops over the digits: `ret`, and what is left of the string.
unfoldable pub zstrtol_digits : ℤ → ℕ → List ℕ → ℕ × List ℕ
unfolding is_digit digit_value
zstrtol_digits base ret [] = (ret, [])
zstrtol_digits base ret (c ∷ s) =
    let rest =
      zstrtol_digits base ((ret * pos_part base + digit_value (pos_part base) c) % word_mod) s in
    if is_digit base c then rest else (ret, c ∷ s)

unfoldable pub skip_inblank : List ℕ → List ℕ
unfolding inblank
skip_inblank [] = []
skip_inblank (c ∷ s) = if inblank c then skip_inblank s else c ∷ s

-- `neg`, and the string behind the sign.
unfoldable pub zstrtol_sign : List ℕ → Bool × List ℕ
zstrtol_sign [] = (false, [])
zstrtol_sign (c ∷ s) = if c == b'-' then (true, s) else (false, if c == b'+' then s else c ∷ s)

-- A base of 0 is found from the digits.
unfoldable pub zstrtol_base : ℤ → List ℕ → ℤ × List ℕ
zstrtol_base (pos zero) [] = (pos 10, [])
zstrtol_base (pos zero) (c ∷ []) = if c == b'0' then (pos 8, []) else (pos 10, c ∷ [])
zstrtol_base (pos zero) (c ∷ d ∷ s) =
    if c == b'0'
    then (if d == b'x' || d == b'X' then (pos 16, s) else (pos 8, d ∷ s))
    else (pos 10, c ∷ d ∷ s)
zstrtol_base base s = (base, s)

unfoldable pub zstrtol : ℤ → List ℕ → ℕ × List ℕ
zstrtol base s =
    let (neg, s₁) = zstrtol_sign (skip_inblank s) in
    let (base', s₂) = zstrtol_base base s₁ in
    let (ret, s₃) = zstrtol_digits base' 0 s₂ in (if neg then negate_word ret else ret, s₃)
