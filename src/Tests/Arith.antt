-- ===== src/Tests/Arith.antt =====
-- Arithmetic evaluation at concrete inputs.
use winzsh.Prelude.{
  ℕ, ◌-◌, ◌^◌, ◌%◌, ◌≤◌, ◌≡◌, ◌⊎◌, arith, refl, List, [], ◌∷◌, Bool, true, false, Option, none,
  some, if◌then◌else◌,
}
use winzsh.Prelude.Strings.{Str, str_eq}
use winzsh.Math.State.{Shell, MathValue, Math}
use winzsh.Prelude.Runs.{Run, ran, stuck, and_then}
use winzsh.Math.Parse.{
  mathparse, mathevall, matheval, mathevalarg, argument_prec, balanced, branches, conditional,
  enter, in_parens, kind, math_start, mathparse_loop, next_token, operation, parse_with, read_value,
  switch,
}
use winzsh.Math.Parse.Results.{Finished, evaluation-Finished, mathparse_no_effect}
use winzsh.Math.Word.{value, quotient, remainder, raised, power_loop, shift_left, shift_right}
use winzsh.Math.Word.Laws.{raised_lem}
use winzsh.Math.Op.Division.{Division, Gives, pushed, with_variable, op-Division}
use winzsh.Math.Op.{zerr}
use winzsh.Math.Tree.{
  Expr, num, prefixed, infixed, Binary, Prefix, print, meaning, depth, left_prec,
}
use winzsh.Math.Tree.Evaluates.{matheval-print, evaluated}
use winzsh.Number.{
  word_mod, digit_value, is_digit, skip_inblank, zstrtol, zstrtol_base, zstrtol_digits,
  zstrtol_sign,
}
use winzsh.Chars.{ialpha, iblank, idigit, iident, inblank}
use winzsh.Math.Lex.{
  after_bracket, bracket_number, char_code, doubled, hex_number, hex_prefix, identifier, lex_byte,
  lex_hash, lex_identifier, lex_other, not_token, or_based, or_eq, plain_number, punct, sign_token,
  skip_space, subscript, zzlex,
}
use winzsh.Math.Op.{
  act, action, bop, getcvar, noeval_if_zero, noeval_unless_zero, op, push, put, put_calc, set_calc,
  setvar, variable,
}
use winzsh.Math.Token.{prec, type_of}
use winzsh.Math.Token

abbrev Vars : Type 0
Vars = List (Str × ℕ)

lookup : Vars → Str → ℕ
lookup [] s = 0
lookup ((k, v) ∷ p) s = if str_eq k s then v else lookup p s

abbrev shell : Shell Vars
shell = record {
  getiparam = λ p s. (lookup p s, p, false);
  getsparam = λ p s. none;
  setiparam = λ p s v. ((s, v) ∷ p, false);
  mypid = 100;
  lastval = 0;
  positionals = 2;
}

abbrev start : Math Vars
start = record {
  ptr = [];
  unary = true;
  lvals = [];
  yyval = 0;
  yylval = 0;
  lastbase = 0;
  mtok = Token.eoi;
  stack = [];
  noeval = 0;
  errflag = false;
  params = [];
}

result : Str → Run (Option ℕ × Bool × Vars)
unfolding ialpha iblank idigit iident inblank after_bracket bracket_number char_code doubled
    hex_number hex_prefix identifier lex_byte lex_hash lex_identifier lex_other not_token or_based
    or_eq plain_number punct sign_token skip_space subscript zzlex act action bop getcvar
    noeval_if_zero noeval_unless_zero op push put put_calc set_calc setvar variable argument_prec
    balanced branches conditional enter in_parens kind math_start matheval mathevall mathparse
    mathparse_loop next_token operation parse_with read_value switch prec type_of power_loop
    quotient raised remainder shift_left shift_right digit_value is_digit skip_inblank zstrtol
    zstrtol_base zstrtol_digits zstrtol_sign
result s = and_then (matheval shell s start) λ (x, m). ran (x, m.errflag, m.params)

-- `1+2*3`, `7-2-1`, `2**3**2`, `0&&(b=1)`, `1/0`.
computed :
    (result (b'1' ∷ b'+' ∷ b'2' ∷ b'*' ∷ b'3' ∷ []) ≡ ran (some 7, false, []))
    × (result (b'7' ∷ b'-' ∷ b'2' ∷ b'-' ∷ b'1' ∷ []) ≡ ran (some 4, false, []))
    × (result (b'2' ∷ b'*' ∷ b'*' ∷ b'3' ∷ b'*' ∷ b'*' ∷ b'2' ∷ []) ≡ ran (some 512, false, []))
    × (result (b'0' ∷ b'&' ∷ b'&' ∷ b'(' ∷ b'b' ∷ b'=' ∷ b'1' ∷ b')' ∷ [])
        ≡ ran (some 0, false, []))
unfolding result
computed = (refl, refl, refl, refl)

-- `1+-2` is refused, and `&&1` reads before the stack.
refused :
    (result (b'1' ∷ b'+' ∷ b'-' ∷ b'2' ∷ []) ≡ ran (some 1, true, []))
    × (result (b'&' ∷ b'&' ∷ b'1' ∷ []) ≡ stuck)
unfolding result
refused = (refl, refl)

-- `a=3` where nothing is to be evaluated.
abbrev assignment : Math Vars
assignment = record start { ptr = b'a' ∷ b'=' ∷ b'3' ∷ []; noeval = 1 }

abbrev assigned : Math Vars
assigned = record assignment {
  ptr = [];
  lvals = (b'a' ∷ []) ∷ [];
  yyval = 3;
  stack = record { val = 3; lval = some 0 } ∷ [];
}

runs : mathparse shell 4 16 assignment ≡ ran assigned
unfolding result
runs = refl

mathparse_no_effect_example : (assigned.params ≡ []) × (assigned.noeval ≡ 1)
mathparse_no_effect_example =
    mathparse_no_effect shell 4 16 assignment assigned (omega arith) (omega arith) (omega arith)
      runs

evaluation-Finished_example :
    Finished (mathparse shell 4 16 assignment)
    × Finished (mathevall shell (b'&' ∷ b'&' ∷ b'1' ∷ []) 16 assignment)
    × Finished (matheval shell (b'&' ∷ b'&' ∷ b'1' ∷ []) assignment)
    × Finished (mathevalarg shell (b'&' ∷ b'&' ∷ b'1' ∷ []) assignment)
evaluation-Finished_example =
    evaluation-Finished shell 4 16 (b'&' ∷ b'&' ∷ b'1' ∷ []) assignment (omega arith) (omega arith)

abbrev minus_seven : ℕ
minus_seven = 2 ^ 32 - 7

abbrev two : ℕ
two = 2

-- -7 and 2 on the stack.
abbrev entry : ℕ → MathValue
entry v = record { val = v; lval = none }

abbrev two_values : Math Vars
two_values = record start { stack = entry two ∷ entry minus_seven ∷ [] }

op-Division_example :
    ((two ≡ 0)
      × Gives shell two_values
          (entry minus_seven)
          (entry two)
          []
          (some (zerr start))
          (some (zerr start))
          (some (zerr start))
          (some (zerr start)))
    ⊎ ((minus_seven ≡ 2 ^ 31)
        × (two ≡ word_mod - 1)
        × Gives shell two_values (entry minus_seven) (entry two) [] none none none none)
    ⊎ ((q : ℕ) × (r : ℕ) × Division minus_seven two q r
        × Gives shell two_values
            (entry minus_seven)
            (entry two)
            []
            (some (pushed shell two_values (entry minus_seven) (entry two) [] q))
            (some (pushed shell two_values (entry minus_seven) (entry two) [] r))
            (some (with_variable shell two_values (entry minus_seven) (entry two) [] q))
            (some (with_variable shell two_values (entry minus_seven) (entry two) [] r)))
op-Division_example =
    op-Division shell two_values (entry minus_seven) (entry two) [] refl (omega arith) (omega arith)
      (omega arith)

raised_lem_example : raised minus_seven 3 ≡ value (minus_seven ^ 3 % word_mod)
raised_lem_example = raised_lem minus_seven 3 (omega arith)

-- `7/2`.
abbrev division : Str
division = b'7' ∷ b'/' ∷ b'2' ∷ []

abbrev three : Option ℕ
three = some 3

abbrev divided : Math Vars
divided = record start {
  yyval = 2;
  lastbase = 2 ^ 32 - 1;
  stack = record { val = 3; lval = none } ∷ [];
}

-- `10-!0-2**(3+1,2)`.
abbrev tree : Expr
tree =
    infixed Binary.minus (infixed Binary.minus (num 1 (0 ∷ [])) (prefixed Prefix.lnot (num 0 []))) (
      infixed Binary.power (num 2 [])
        (infixed Binary.comma (infixed Binary.plus (num 3 []) (num 1 [])) (num 2 [])))

written :
    print 16 tree
    ≡ b'1' ∷ b'0' ∷ b'-' ∷ b'!' ∷ b'0' ∷ b'-' ∷ b'2' ∷ b'*' ∷ b'*' ∷ b'(' ∷ b'3' ∷ b'+' ∷ b'1'
      ∷ b',' ∷ b'2' ∷ b')' ∷ []
unfolding print left_prec argument_prec prec type_of
written = refl

means_five : meaning tree ≡ some 5
unfolding meaning raised power_loop
means_five = refl

shallow : depth tree ≤ 100
unfolding depth
shallow = omega arith

matheval-print_example : matheval shell (print 16 tree) start ≡ ran (some 5, evaluated tree 5 start)
matheval-print_example = matheval-print shell tree 5 start means_five shallow refl
