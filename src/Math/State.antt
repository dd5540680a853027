-- ===== src/Math/State.antt =====
-- The globals of Src/math.c, and what it asks of the rest of the shell.
use winzsh.Prelude.{ℕ, List, Bool, Option}
use winzsh.Prelude.Strings.{Str}
use winzsh.Math.Token.{Token}

-- The parameters of the shell, `P`, as `getiparam`, `getsparam` and `setiparam` of Src/params.c
-- give them, and `mypid`, `lastval` and `poundgetfn`. To read an integer may evaluate an expression
-- that a string holds, and so change the parameters. A `true` says that `errflag` has been set.
pub record Shell (P : Type 0) : Type 0 where
  pub getiparam : P → Str → ℕ × P × Bool
  pub getsparam : P → Str → Option Str
  pub setiparam : P → Str → ℕ → P × Bool
  pub mypid : ℕ
  pub lastval : ℕ
  pub positionals : ℕ

-- `lval` is an index of `lvals`, or `none` for -1.
pub record MathValue : Type 0 where
  pub val : ℕ
  pub lval : Option ℕ

-- `stack` has the top first, so that `sp` is its length less 1; `lvc` is the length of `lvals`.
pub record Math (P : Type 0) : Type 0 where
  pub ptr : List ℕ
  pub unary : Bool
  pub lvals : List Str
  pub yyval : ℕ
  pub yylval : ℕ
  pub lastbase : ℕ
  pub mtok : Token
  pub stack : List MathValue
  pub noeval : ℕ
  pub errflag : Bool
  pub params : P
