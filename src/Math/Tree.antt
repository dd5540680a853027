-- ===== src/Math/Tree.antt =====
-- Expressions as trees, for the evaluation of Src/math.c: how they are written and what they mean.
pub mod Lexed
pub mod Numeral
pub mod Operators
pub mod Rounds
pub mod Evaluates
pub mod Levels
pub mod Parses
use winzsh.Prelude.{
  ℕ, suc, ◌+◌, ◌*◌, ◌-◌, ◌%◌, max, List, [], ◌∷◌, ◌++◌, map, Bool, not, ◌&&◌, ◌||◌, Option, none,
  some, leb, ltb, ◌==◌, if◌then◌else◌, bit_and, bit_or, bit_xor,
}
use winzsh.Number.{word_mod}
use winzsh.Math.Token
use winzsh.Math.Token.{Token, Assoc, right_left, prec, type_of}
use winzsh.Math.Word.{
  Calc, value, failed, undefined, truth, nonzero, below, quotient, remainder, shift_left,
  shift_right, raised, exclusive,
}
use winzsh.Math.Op.{sum, difference, product}
use winzsh.Math.Parse.{is_right_left, argument_prec}

pub data Prefix : Type 0 where
  lnot comp : Prefix

-- The infix operators that do not assign, but for `?`.
pub data Binary : Type 0 where
  band bxor bor mul divide modulo plus minus shleft shright les leq gre geq deq neq : Binary
  dand dor dxor comma power : Binary

-- A numeral has a digit for every number, the remainder by 10.
pub data Expr : Type 0 where
  num : (d : ℕ) (ds : List ℕ) → Expr
  prefixed : (u : Prefix) (e : Expr) → Expr
  infixed : (o : Binary) (l r : Expr) → Expr

abbrev pub prefix_token : Prefix → Token
prefix_token lnot = Token.lnot
prefix_token comp = Token.comp

abbrev pub prefix_symbol : Prefix → ℕ
prefix_symbol lnot = b'!'
prefix_symbol comp = b'~'

abbrev pub token : Binary → Token
token band = Token.band
token bxor = Token.bxor
token bor = Token.bor
token mul = Token.mul
token divide = Token.divide
token modulo = Token.modulo
token plus = Token.plus
token minus = Token.minus
token shleft = Token.shleft
token shright = Token.shright
token les = Token.les
token leq = Token.leq
token gre = Token.gre
token geq = Token.geq
token deq = Token.deq
token neq = Token.neq
token dand = Token.dand
token dor = Token.dor
token dxor = Token.dxor
token comma = Token.comma
token power = Token.power

abbrev pub symbol : Binary → List ℕ
symbol band = b'&' ∷ []
symbol bxor = b'^' ∷ []
symbol bor = b'|' ∷ []
symbol mul = b'*' ∷ []
symbol divide = b'/' ∷ []
symbol modulo = b'%' ∷ []
symbol plus = b'+' ∷ []
symbol minus = b'-' ∷ []
symbol shleft = b'<' ∷ b'<' ∷ []
symbol shright = b'>' ∷ b'>' ∷ []
symbol les = b'<' ∷ []
symbol leq = b'<' ∷ b'=' ∷ []
symbol gre = b'>' ∷ []
symbol geq = b'>' ∷ b'=' ∷ []
symbol deq = b'=' ∷ b'=' ∷ []
symbol neq = b'!' ∷ b'=' ∷ []
symbol dand = b'&' ∷ b'&' ∷ []
symbol dor = b'|' ∷ b'|' ∷ []
symbol dxor = b'^' ∷ b'^' ∷ []
symbol comma = b',' ∷ []
symbol power = b'*' ∷ b'*' ∷ []

-- What the operators mean.
abbrev pub apply : Binary → ℕ → ℕ → Calc
apply band a b = value (bit_and a b)
apply bxor a b = value (bit_xor a b)
apply bor a b = value (bit_or a b)
apply mul a b = product a b
apply divide a b = if b == 0 then failed else quotient a b
apply modulo a b = if b == 0 then failed else remainder a b
apply plus a b = sum a b
apply minus a b = difference a b
apply shleft a b = shift_left a b
apply shright a b = shift_right a b
apply les a b = value (truth (below a b))
apply leq a b = value (truth (not (below b a)))
apply gre a b = value (truth (below b a))
apply geq a b = value (truth (not (below a b)))
apply deq a b = value (truth (a == b))
apply neq a b = value (truth (not (a == b)))
apply dand a b = value (truth (nonzero a && nonzero b))
apply dor a b = value (truth (nonzero a || nonzero b))
apply dxor a b = value (truth (exclusive a b))
apply comma a b = value b
apply power a b = raised a b

abbrev pub apply_prefix : Prefix → ℕ → ℕ
apply_prefix lnot a = truth (a == 0)
apply_prefix comp a = word_mod - 1 - a

-- The number that digits stand for, behind those of `n`.
abbrev pub decimal : ℕ → List ℕ → ℕ
decimal n [] = n
decimal n (d ∷ ds) = decimal (n * 10 + d % 10) ds

abbrev pub calc_value : Calc → Option ℕ
calc_value (value v) = some v
calc_value _ = none

abbrev pub bind : Option ℕ → (ℕ → Option ℕ) → Option ℕ
bind none k = none
bind (some a) k = k a

-- The value, on 32 bits; `none` where an operator has none.
unfoldable pub meaning : Expr → Option ℕ
meaning (num d ds) = some (decimal 0 (d ∷ ds) % word_mod)
meaning (prefixed u e) = bind (meaning e) λ a. some (apply_prefix u a)
meaning (infixed o l r) = bind (meaning l) λ a. bind (meaning r) λ b. calc_value (apply o a b)

abbrev pub digit : ℕ → ℕ
digit d = b'0' + d % 10

abbrev pub parens : Bool → List ℕ → List ℕ
parens needed s = if needed then b'(' ∷ s ++ (b')' ∷ []) else s

-- An operator takes on its left what binds as tightly as itself, if it is left associative, and
-- what binds more tightly, if not.
unfoldable pub left_prec : Binary → ℕ
left_prec o = if is_right_left (type_of (token o)) then prec (token o) - 1 else prec (token o)

-- The expression with the parentheses that the precedence `p` around it needs, and no others.
unfoldable pub print : ℕ → Expr → List ℕ
print p (num d ds) = map digit (d ∷ ds)
print p (prefixed u e) = parens (ltb p 2) (prefix_symbol u ∷ print 2 e)
print p (infixed o l r) =
    parens (ltb p (prec (token o)))
      (print (left_prec o) l ++ symbol o ++ print (argument_prec (token o)) r)

-- How much of the value stack the evaluation takes.
unfoldable pub depth : Expr → ℕ
depth (num d ds) = 1
depth (prefixed u e) = depth e
depth (infixed o l r) = max (depth l) (suc (depth r))

-- The numeral that is read last.
unfoldable pub last_numeral : Expr → ℕ
last_numeral (num d ds) = decimal 0 (d ∷ ds) % word_mod
last_numeral (prefixed u e) = last_numeral e
last_numeral (infixed o l r) = last_numeral r
