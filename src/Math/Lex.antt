-- ===== src/Math/Lex.antt =====
-- `zzlex` of Src/math.c.
pub mod Rest
pub mod Shorter
use winzsh.Prelude.{
  ℕ, zero, suc, ◌+◌, ◌-◌, List, [], ◌∷◌, ◌++◌, Bool, true, false, not, Option, none, some, ltb, leb,
  ◌==◌, ◌&&◌, ◌||◌, if◌then◌else◌,
}
use winzsh.Prelude.Lists.{length}
use winzsh.Prelude.Strings.{Str}
use winzsh.Chars.{idigit, iident, meta}
use winzsh.Meta.{flip}
use winzsh.Number.{zstrtol, to_int}
use winzsh.Prelude.Int.{pos}
use winzsh.Math.Token
use winzsh.Math.Token.{Token}
use winzsh.Math.State.{Shell, Math}

-- The token of an operator, `unary` after it, and what is left of the string.
abbrev pub Punct : Type 0
Punct = Token × Bool × List ℕ

-- `if (*ptr == '=') { ptr++; return with_eq; } return bare;`
unfoldable pub or_eq : Token → Token → List ℕ → Punct
or_eq bare with_eq [] = (bare, true, [])
or_eq bare with_eq (x ∷ p) = if x == b'=' then (with_eq, true, p) else (bare, true, x ∷ p)

-- The operators that may be doubled, and then followed by `=`.
unfoldable pub doubled : ℕ → Token → Token → Token → Token → List ℕ → Punct
doubled c bare with_eq twice twice_eq [] = (bare, true, [])
doubled c bare with_eq twice twice_eq (x ∷ p) =
    if x == c
    then or_eq twice twice_eq p
    else if x == b'='
    then (with_eq, true, p)
    else (bare, true, x ∷ p)

-- `+` and `-`. They leave `unary` as it is, but for `+=` and `-=`. The test `!ialnum(*ptr)` has no
-- effect, as `*ptr` is the sign.
unfoldable pub sign_token : ℕ → Bool → Token → Token → Token → Token → Token → List ℕ → Punct
sign_token c unary pre post with_eq prefix infix_op [] =
    (if unary then prefix else infix_op, unary, [])
sign_token c unary pre post with_eq prefix infix_op (x ∷ p) =
    if x == c
    then (if unary then pre else post, unary, p)
    else if x == b'='
    then (with_eq, true, p)
    else (if unary then prefix else infix_op, unary, x ∷ p)

unfoldable pub not_token : Bool → List ℕ → Punct
not_token unary [] = (Token.lnot, unary, [])
not_token unary (x ∷ p) = if x == b'=' then (Token.neq, true, p) else (Token.lnot, unary, x ∷ p)

-- The cases of the `switch` that are operators, `c` being the byte; `none` in the others.
unfoldable pub punct : Bool → ℕ → List ℕ → Option Punct
unfolding or_eq doubled sign_token not_token
punct unary c p =
    if c == b'+'
    then some
        (sign_token c unary Token.preplus Token.postplus Token.pluseq Token.uplus Token.plus p)
    else if c == b'-'
    then some
        (sign_token c unary Token.preminus Token.postminus Token.minuseq Token.uminus Token.minus p)
    else if c == b'('
    then some (Token.m_inpar, true, p)
    else if c == b')'
    then some (Token.m_outpar, unary, p)
    else if c == b'!'
    then some (not_token unary p)
    else if c == b'~'
    then some (Token.comp, unary, p)
    else if c == b'&'
    then some (doubled c Token.band Token.andeq Token.dand Token.dandeq p)
    else if c == b'|'
    then some (doubled c Token.bor Token.oreq Token.dor Token.doreq p)
    else if c == b'^'
    then some (doubled c Token.bxor Token.xoreq Token.dxor Token.dxoreq p)
    else if c == b'*'
    then some (doubled c Token.mul Token.muleq Token.power Token.powereq p)
    else if c == b'/'
    then some (or_eq Token.divide Token.diveq p)
    else if c == b'%'
    then some (or_eq Token.modulo Token.modeq p)
    else if c == b'<'
    then some (doubled c Token.les Token.leq Token.shleft Token.shlefteq p)
    else if c == b'>'
    then some (doubled c Token.gre Token.geq Token.shright Token.shrighteq p)
    else if c == b'='
    then some (or_eq Token.eq Token.deq p)
    else if c == b':'
    then some (Token.colon, true, p)
    else if c == b','
    then some (Token.comma, true, p)
    else if c == b'?' && not unary
    then some (Token.quest, true, p)
    else none

-- The subscript of an identifier, `l` brackets deep: its bytes and what is left.
unfoldable pub subscript : ℕ → List ℕ → List ℕ × List ℕ
subscript zero p = ([], p)
subscript (suc l) [] = ([], [])
subscript (suc l) (c ∷ []) = (c ∷ [], [])
subscript (suc l) (c ∷ d ∷ p) =
    let escaped = subscript (suc l) p in
    let next =
      subscript (if c == b'[' then suc (suc l) else if c == b']' then l else suc l) (d ∷ p) in
    if c == 92 then (c ∷ d ∷ escaped.0, escaped.1) else (c ∷ next.0, next.1)

unfoldable pub identifier : List ℕ → List ℕ × List ℕ
unfolding subscript
identifier [] = ([], [])
identifier (c ∷ p) =
    let rest = identifier p in
    let sub = subscript 1 p in
    if iident c then (c ∷ rest.0, rest.1) else if c == b'[' then (c ∷ sub.0, sub.1) else ([], c ∷ p)

unfoldable pub skip_space : List ℕ → List ℕ
skip_space [] = []
skip_space (c ∷ p) = if c == 32 || c == 9 || c == 10 then skip_space p else c ∷ p

-- A number: its value, what is left, and `lastbase`.
abbrev pub Numeral : Type 0
Numeral = ℕ × List ℕ × ℕ

unfoldable pub after_bracket : List ℕ → List ℕ
after_bracket [] = []
after_bracket (x ∷ r) = if x == b']' then r else x ∷ r

-- `[base]digits`, behind the bracket.
unfoldable pub bracket_number : List ℕ → Numeral
bracket_number p =
    let (base, q) = zstrtol (pos 10) p in
    let (v, rest) = zstrtol (to_int base) (after_bracket q) in (v, rest, base)

-- `v` was read; it is a base if a `#` follows.
unfoldable pub or_based : ℕ → ℕ → List ℕ → Numeral
or_based lastbase v [] = (v, [], lastbase)
or_based lastbase v (x ∷ r) =
    let (v', rest) = zstrtol (to_int v) r in
    if x == b'#' then (v', rest, v) else (v, x ∷ r, lastbase)

unfoldable pub plain_number : ℕ → List ℕ → Numeral
plain_number lastbase p = let (v, q) = zstrtol (pos 10) p in or_based lastbase v q

-- `0x`, the byte behind the zero being `x`.
unfoldable pub hex_prefix : ℕ → List ℕ → Bool
hex_prefix c [] = false
hex_prefix c (x ∷ p) = c == b'0' && (x == b'x' || x == b'X')

unfoldable pub hex_number : List ℕ → Numeral
hex_number [] = (0, [], 16)
hex_number (x ∷ p) = let (v, rest) = zstrtol (pos 16) p in (v, rest, 16)

-- `#\c`, behind the backslash. `none`: the string ends there, and the pointer leaves it.
unfoldable pub char_code : List ℕ → Option (ℕ × List ℕ)
char_code [] = none
char_code (c ∷ []) = if c == meta then none else some (c, [])
char_code (c ∷ d ∷ p) = if c == meta then some (flip d, p) else some (c, d ∷ p)

abbrev pub lv_count : ℕ
lv_count = 32

module _ {P : Type 0} (sh : Shell P) where
  abbrev pub Lexed : Type 0
  Lexed = Option (Token × Math P)

  abbrev pub number : Math P → ℕ → List ℕ → Lexed
  number m v rest = some (Token.num, record m { yyval = v; ptr = rest; unary = false })

  abbrev pub numeral : Math P → Numeral → Lexed
  numeral m (v, rest, base) =
      some (Token.num, record m { yyval = v; ptr = rest; unary = false; lastbase = base })

  -- From `iident(*ptr)` on, with the token to return.
  unfoldable pub lex_identifier : Token → Math P → List ℕ → Lexed
  lex_identifier t m p =
      let (name, rest) = identifier p in
      if length m.lvals == lv_count
      then some (Token.eoi, record m { ptr = p; errflag = true })
      else some (
        t,
        record m {
          ptr = rest;
          unary = false;
          lvals = m.lvals ++ (name ∷ []);
          yylval = length m.lvals;
        },
      )

  -- The case of `#`, behind it.
  unfoldable pub lex_hash : Math P → List ℕ → Lexed
  lex_hash m [] = number m sh.positionals []
  lex_hash m (c ∷ p) =
      if c == 92
      then elim (char_code p) [ none ↦ none | some (v, rest) ↦ number m v rest ]
      else if iident c
      then lex_identifier Token.cid m (c ∷ p)
      else number m sh.positionals (c ∷ p)

  -- The cases that are no operators.
  unfoldable pub lex_other : Math P → ℕ → List ℕ → Lexed
  lex_other m c p =
      if c == b'$'
      then number m sh.mypid p
      else if c == b'?'
      then number m sh.lastval p
      else if c == b'['
      then numeral m (bracket_number p)
      else if hex_prefix c p
      then numeral m (hex_number p)
      else if idigit c
      then numeral m (plain_number m.lastbase (c ∷ p))
      else if c == b'#'
      then lex_hash m p
      else if iident c
      then lex_identifier Token.id m (c ∷ p)
      else some (Token.eoi, record m { ptr = c ∷ p })

  unfoldable pub lex_byte : Math P → List ℕ → Lexed
  lex_byte m [] = some (Token.eoi, record m { ptr = []; unary = true })
  lex_byte m (c ∷ p) = elim (punct m.unary c p) [
    | some (t, unary, rest) ↦ some (t, record m { ptr = rest; unary = unary })
    | none ↦ lex_other m c p
  ]

  -- Blanks are skipped.
  unfoldable pub zzlex : Math P → Lexed
  zzlex m = lex_byte m (skip_space m.ptr)
