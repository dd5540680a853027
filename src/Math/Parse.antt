-- ===== src/Math/Parse.antt =====
-- `mathparse` and its three callers, Src/math.c.
pub mod Reads
pub mod Results
pub mod Rounds
pub mod Steps
pub mod Total
use winzsh.Prelude.{
  ℕ, zero, suc, ◌+◌, ◌-◌, ◌^◌, List, [], ◌∷◌, Bool, true, false, not, Option, none, some, ltb, leb,
  ◌==◌, ◌&&◌, ◌||◌, if◌then◌else◌,
}
use winzsh.Prelude.Lists.{length}
use winzsh.Prelude.Runs.{Run, ran, stuck, unfinished, and_then, defined}
use winzsh.Prelude.Strings.{Str}
use winzsh.Math.Token
use winzsh.Math.Token.{
  Token, Assoc, left_right, right_left, short_circuit, prec, type_of, top_prec, arg_prec,
}
use winzsh.Math.State.{Shell, MathValue, Math}
use winzsh.Math.Lex.{zzlex}
use winzsh.Math.Op.{zerr, push, variable, getcvar, op, bop}

-- The cases of the `switch` of `mathparse`.
pub data Kind : Type 0 where
  number name char_name paren question operator : Kind

unfoldable pub kind : Token → Kind
kind Token.num = number
kind Token.id = name
kind Token.cid = char_name
kind Token.m_inpar = paren
kind Token.quest = question
kind _ = operator

abbrev pub is_right_left : Assoc → Bool
is_right_left right_left = true
is_right_left _ = false

abbrev pub is_outpar : Token → Bool
is_outpar Token.m_outpar = true
is_outpar _ = false

-- `prec[otok] - (type[otok] != RL)`
unfoldable pub argument_prec : Token → ℕ
argument_prec t = if is_right_left (type_of t) then prec t else prec t - 1

abbrev pub bottom : List MathValue → Option ℕ
bottom [] = none
bottom (v ∷ []) = some v.val
bottom (v ∷ w ∷ rest) = bottom (w ∷ rest)

module _ {P : Type 0} where
  -- The state in which `mathevall` parses `s`.
  unfoldable pub math_start : Str → Math P → Math P
  math_start s m = record m { stack = []; lastbase = 2 ^ 32 - 1; lvals = []; ptr = s; unary = true }

  unfoldable pub balanced : Math P → Math P
  balanced m = if length m.stack == 1 then m else zerr m

  abbrev pub more_noeval : Math P → Math P
  more_noeval m = record m { noeval = suc m.noeval }

  abbrev pub less_noeval : Math P → Math P
  less_noeval m = record m { noeval = m.noeval - 1 }

module _ {P : Type 0} (sh : Shell P) where
  -- `mtok = zzlex();`
  unfoldable pub next_token : Math P → Run (Math P)
  next_token m = elim (zzlex sh m) [ none ↦ stuck | some (t, m') ↦ ran (record m' { mtok = t }) ]

  -- `mathparse`, with `loop` for its loop.
  unfoldable pub parse_with : (ℕ → Math P → Run (Math P)) → ℕ → Math P → Run (Math P)
  parse_with loop pc m = if m.errflag then ran m else and_then (next_token m) (loop pc)

  unfoldable pub read_value : Kind → Math P → Math P
  read_value name m =
      let (m', v) = variable sh m m.yylval in
      if m.noeval == 0
      then push (record { val = v; lval = some m.yylval }) m'
      else push (record { val = 0; lval = some m.yylval }) m
  read_value char_name m =
      let v = if m.noeval == 0 then getcvar sh m m.yylval else 0 in
      push (record { val = v; lval = some m.yylval }) m
  read_value _ m = push (record { val = m.yyval; lval = none }) m

  -- The case of `(`.
  unfoldable pub in_parens : (ℕ → Math P → Run (Math P)) → ℕ → Math P → Run (Math P)
  in_parens loop pc m =
      and_then (parse_with loop top_prec m)
        λ m'. if is_outpar m'.mtok then and_then (next_token m') (loop pc) else ran (zerr m')

  -- The case of `?`, from the test of `q` on; the first argument is `!q`. The branch that is not
  -- taken is parsed with `noeval` set.
  unfoldable pub branches : Bool → (ℕ → Math P → Run (Math P)) → ℕ → Math P → Run (Math P)
  branches true loop pc m = and_then (parse_with loop (prec Token.quest - 1) (more_noeval m)) λ m₁.
      and_then (parse_with loop (prec Token.quest) (less_noeval m₁))
        λ m₂. and_then (defined (op sh Token.quest m₂)) (loop pc)
  branches false loop pc m = and_then (parse_with loop (prec Token.quest - 1) m) λ m₁.
      and_then (parse_with loop (prec Token.quest) (more_noeval m₁))
        λ m₂. and_then (defined (op sh Token.quest (less_noeval m₂))) (loop pc)

  -- On an empty stack the value before it is read.
  unfoldable pub conditional : (ℕ → Math P → Run (Math P)) → ℕ → Math P → Run (Math P)
  conditional loop pc m = elim m.stack [ [] ↦ stuck | q ∷ _ ↦ branches (q.val == 0) loop pc m ]

  -- `if (type[otok] == BOOL) bop(otok);`
  unfoldable pub enter : Assoc → Math P → Option (Math P)
  enter short_circuit m = bop sh m.mtok m
  enter _ m = some m

  -- The other operators.
  unfoldable pub operation : (ℕ → Math P → Run (Math P)) → ℕ → Math P → Run (Math P)
  operation loop pc m =
      let otok = m.mtok in
      and_then (defined (enter (type_of otok) m)) λ m₁.
        and_then (parse_with loop (argument_prec otok) m₁)
          λ m₂. and_then (defined (op sh otok (record m₂ { noeval = m.noeval }))) (loop pc)

  unfoldable pub switch : (ℕ → Math P → Run (Math P)) → ℕ → Math P → Kind → Run (Math P)
  switch loop pc m paren = in_parens loop pc m
  switch loop pc m question = conditional loop pc m
  switch loop pc m operator = operation loop pc m
  switch loop pc m k = and_then (next_token (read_value k m)) (loop pc)

  -- The loop of `mathparse`. Every round and every call reads a token, and so spends fuel.
  unfoldable pub mathparse_loop : ℕ → ℕ → Math P → Run (Math P)
  mathparse_loop zero pc m = unfinished
  mathparse_loop (suc fuel) pc m =
      let round = switch (mathparse_loop fuel) pc m (kind m.mtok) in
      if leb (prec m.mtok) pc then (if m.errflag then ran m else round) else ran m

  unfoldable pub mathparse : ℕ → ℕ → Math P → Run (Math P)
  mathparse fuel pc m = parse_with (mathparse_loop fuel) pc m

  -- `mathevall`, for the outermost call (`mlevel` 0); an inner one is part of `getiparam` and
  -- `setiparam`, and puts the globals back. The value, `*ep` and the state. `stack[0].val` of an
  -- empty stack is what the memory holds, here `none`. The fuel is the length of the string and 2.
  unfoldable pub mathevall : Str → ℕ → Math P → Run (Option ℕ × List ℕ × Math P)
  mathevall s prek m =
      and_then (mathparse (length s + 2) prek (math_start s m))
        λ r. ran (bottom r.stack, r.ptr, balanced r)

  -- `mtok` is put back.
  unfoldable pub matheval : Str → Math P → Run (Option ℕ × Math P)
  matheval [] m = ran (some 0, m)
  matheval (c ∷ s) m =
      and_then (mathevall (c ∷ s) top_prec m)
        λ (x, junk, r). ran (x, record (elim junk [ [] ↦ r | _ ↦ zerr r ]) { mtok = m.mtok })

  -- A comma that ended the argument is not passed.
  unfoldable pub mathevalarg : Str → Math P → Run (Option ℕ × List ℕ × Math P)
  mathevalarg s m = and_then (mathevall s arg_prec m) λ (x, ss, r).
      ran (x, elim r.mtok [ Token.comma ↦ b',' ∷ ss | _ ↦ ss ], record r { mtok = m.mtok })
