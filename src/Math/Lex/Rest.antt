-- ===== src/Math/Lex/Rest.antt =====
-- What the helpers of `zzlex` leave of the string is an end of it.
use winzsh.Prelude.{
  ℕ, zero, suc, ◌≤◌, ◌≡◌, List, [], ◌∷◌, Bool, true, false, not, Option, none, some, ◌==◌, ◌&&◌,
  if◌then◌else◌, arith,
}
use winzsh.Prelude.Int.{pos}
use winzsh.Prelude.Lists.{length}
use winzsh.Chars.{idigit, iident}
use winzsh.Number.{zstrtol, to_int}
use winzsh.Number.Rest.{zstrtol-le, zstrtol-digit-le}
use winzsh.Math.Token.{Token}
use winzsh.Math.Lex.{
  Punct, or_eq, doubled, sign_token, not_token, punct, subscript, identifier, skip_space,
  bracket_number, plain_number, hex_number, after_bracket, or_based,
}

-- The rest of the string is at most as long as `p`.
abbrev pub Within : List ℕ → Punct → Type 0
Within p r = length r.2 ≤ length p

pub or_eq-Within : (a b : Token) (p : List ℕ) → Within p (or_eq a b p)
unfolding or_eq
or_eq-Within a b [] = omega arith
or_eq-Within a b (x ∷ p) = ground arith

pub doubled-Within : (c : ℕ) (s t u v : Token) (p : List ℕ) → Within p (doubled c s t u v p)
unfolding doubled
doubled-Within c s t u v [] = omega arith
doubled-Within c s t u v (x ∷ p) = ground (arith, or_eq-Within u v p)

pub sign_token-Within :
    (c : ℕ) (un : Bool) (a b d e f : Token) (p : List ℕ) → Within p (sign_token c un a b d e f p)
unfolding sign_token
sign_token-Within c un a b d e f [] = omega arith
sign_token-Within c un a b d e f (x ∷ p) = ground arith

pub not_token-Within : (un : Bool) (p : List ℕ) → Within p (not_token un p)
unfolding not_token
not_token-Within un [] = omega arith
not_token-Within un (x ∷ p) = ground arith

abbrev pub AllWithin : List ℕ → Option Punct → Type 0
AllWithin p none = Unit
AllWithin p (some r) = Within p r

-- The first test of a chain, and what its other tests come to.
pub case :
    (p : List ℕ) (b : Bool) (r : Punct) (o : Option Punct)
    → Within p r
    → AllWithin p o
    → AllWithin p (if b then some r else o)
case p true r o h k = h
case p false r o h k = k

pub punct-Within : (un : Bool) (c : ℕ) (p : List ℕ) → AllWithin p (punct un c p)
unfolding punct
punct-Within un c p =
    let le : length p ≤ length p = omega arith in
    let two = doubled-Within c in
    case p (c == 43) _ _ (sign_token-Within c un _ _ _ _ _ p) (
      case p (c == 45) _ _ (sign_token-Within c un _ _ _ _ _ p) (
        case p (c == 40) _ _ (le) (
          case p (c == 41) _ _ (le) (
            case p (c == 33) _ _ (not_token-Within un p) (
              case p (c == 126) _ _ (le) (
                case p (c == 38) _ _ (two _ _ _ _ p) (
                  case p (c == 124) _ _ (two _ _ _ _ p) (
                    case p (c == 94) _ _ (two _ _ _ _ p) (
                      case p (c == 42) _ _ (two _ _ _ _ p) (
                        case p (c == 47) _ _ (or_eq-Within _ _ p) (
                          case p (c == 37) _ _ (or_eq-Within _ _ p) (
                            case p (c == 60) _ _ (two _ _ _ _ p) (
                              case p (c == 62) _ _ (two _ _ _ _ p) (
                                case p (c == 61) _ _ (or_eq-Within _ _ p) (
                                  case p (c == 58) _ _ (le) (
                                    case p (c == 44) _ _ (le)
                                      (case p (c == 63 && not un) _ _ (le) (tt))))))))))))))))))

pub subscript-le : (l : ℕ) (p : List ℕ) → length (subscript l p).1 ≤ length p
unfolding subscript
subscript-le zero p = omega arith
subscript-le (suc l) [] = omega arith
subscript-le (suc l) (c ∷ []) = omega arith
subscript-le (suc l) (c ∷ d ∷ p) =
    let l' = if c == 91 then suc (suc l) else if c == 93 then l else suc l in
    ground (arith, subscript-le (suc l) p, subscript-le l' (d ∷ p))

pub identifier-le : (p : List ℕ) → length (identifier p).1 ≤ length p
unfolding identifier
identifier-le [] = omega arith
identifier-le (c ∷ p) = ground (arith, identifier-le p, subscript-le 1 p)

pub identifier-lt :
    (c : ℕ) (p : List ℕ) → iident c ≡ true → length (identifier (c ∷ p)).1 ≤ length p
unfolding identifier
identifier-lt c p h = rw h (identifier-le p)

pub skip_space-le : (p : List ℕ) → length (skip_space p) ≤ length p
unfolding skip_space
skip_space-le [] = omega arith
skip_space-le (c ∷ p) = ground (arith, skip_space-le p)

pub after_bracket-le : (p : List ℕ) → length (after_bracket p) ≤ length p
unfolding after_bracket
after_bracket-le [] = omega arith
after_bracket-le (x ∷ p) = ground arith

pub bracket_number-le : (p : List ℕ) → length (bracket_number p).1 ≤ length p
unfolding bracket_number
bracket_number-le p =
    let q = zstrtol (pos 10) p in
    omega (
      arith,
      zstrtol-le (pos 10) p,
      after_bracket-le q.1,
      zstrtol-le (to_int q.0) (after_bracket q.1),
    )

pub or_based-le : (b v : ℕ) (p : List ℕ) → length (or_based b v p).1 ≤ length p
unfolding or_based
or_based-le b v [] = omega arith
or_based-le b v (x ∷ p) = ground (arith, zstrtol-le (to_int v) p)

pub plain_number-le :
    (b c : ℕ) (p : List ℕ) → idigit c ≡ true → length (plain_number b (c ∷ p)).1 ≤ length p
unfolding plain_number
plain_number-le b c p h =
    let q = zstrtol (pos 10) (c ∷ p) in omega (arith, zstrtol-digit-le c p h, or_based-le b q.0 q.1)

pub hex_number-le : (p : List ℕ) → length (hex_number p).1 ≤ length p
unfolding hex_number
hex_number-le [] = omega arith
hex_number-le (x ∷ p) = omega (arith, zstrtol-le (pos 16) p)
