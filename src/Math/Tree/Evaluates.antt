-- ===== src/Math/Tree/Evaluates.antt =====
-- `matheval` of Src/math.c gives a written expression the value that it means.
use winzsh.Prelude.{
  ℕ, suc, ◌+◌, ◌-◌, ◌%◌, ◌^◌, ◌≤◌, ◌≡◌, ◌∙◌, max, refl, sym, ap, subst, List, [], ◌∷◌, map, Bool,
  true, false, ltb, Option, none, some, arith,
}
use mathlib.Core.List.{append-nil}
use winzsh.Prelude.Lists.{length}
use winzsh.Prelude.Strings.{Str}
use winzsh.Number.{word_mod}
use winzsh.Math.Token.{Token, prec, top_prec}
use winzsh.Math.State.{Shell, Math}
use winzsh.Math.Word.{Calc, value, failed, undefined}
use winzsh.Math.Op.{zerr}
use winzsh.Prelude.Runs.{Run, ran, and_then}
use winzsh.Math.Parse.{
  argument_prec, next_token, parse_with, mathparse, mathparse_loop, math_start, bottom, balanced,
  mathevall, matheval,
}
use winzsh.Math.Tree.{
  Expr, num, prefixed, infixed, token, prefix_symbol, apply, apply_prefix, digit, decimal, parens,
  left_prec, print, depth, meaning, last_numeral, bind, calc_value,
}
use winzsh.Math.Tree.Numeral.{reading}
use winzsh.Math.Tree.Lexed.{Next-end}
use winzsh.Math.Tree.Rounds.{just, loop_stops, parse_with_lem}
use winzsh.Math.Tree.Levels.{
  argument_prec-le, prec-bounds, left_prec-pos, argument_prec-pos, Begins, print-Begins,
  print_on-Begins,
}
use winzsh.Math.Tree.Parses.{Closes, Parses, num-Parses, parens-Parses}
use winzsh.Math.Tree.Operators.{prefix-Parses, infix-Parses}

bind-some :
    (x : Option ℕ) (k : ℕ → Option ℕ) (v : ℕ)
    → bind x k ≡ some v
    → (a : ℕ) × (x ≡ some a) × (k a ≡ some v)
bind-some none k v e = absurd (cc e)
bind-some (some a) k v e = (a, refl, e)

some_injective : (a b : ℕ) → some a ≡ some b → a ≡ b
some_injective a b e = ap get e
  where
    get : Option ℕ → ℕ
    get none = 0
    get (some a) = a

calc_value-some : (c : Calc) (v : ℕ) → calc_value c ≡ some v → c ≡ value v
calc_value-some (value w) v e = ap value (some_injective w v e)
calc_value-some failed v e = absurd (cc e)
calc_value-some undefined v e = absurd (cc e)

module _ {P : Type 0} where
  -- The state that the evaluation leaves.
  abbrev pub evaluated : Expr → ℕ → Math P → Math P
  evaluated e v m = record m {
    ptr = [];
    unary = true;
    lvals = [];
    yyval = last_numeral e;
    lastbase = 2 ^ 32 - 1;
    stack = just v ∷ [];
    errflag = false;
  }

module _ {P : Type 0} (sh : Shell P) where
  -- With parentheses where they are needed.
  enclosed-Parses :
      (s : List ℕ) (p q v d y : ℕ)
      → 2 ≤ p
      → q ≤ 16
      → ((r : ℕ) → q ≤ r → Parses sh s r v d y)
      → Parses sh (parens (ltb p q) s) p v d y
  enclosed-Parses s p q v d y hp hq h = by_test (ltb p q) refl
    where
      by_test : (b : Bool) → ltb p q ≡ b → Parses sh (parens b s) p v d y
      by_test true e = parens-Parses sh s 16 p v d y (omega arith) (omega (arith, hp)) (h 16 hq)
      by_test false e = h p (ground (arith, e))

  print-Parses :
      (e : Expr) (p v : ℕ)
      → 2 ≤ p
      → meaning e ≡ some v
      → Parses sh (print p e) p v (depth e) (last_numeral e)
  unfolding print meaning depth last_numeral
  print-Parses (num d ds) p v hp m =
      let n = decimal 0 (d ∷ ds) % word_mod in
      subst (λ (x : ℕ). Parses sh (map digit (d ∷ ds)) p x 1 n) (some_injective n v m)
        (num-Parses sh d ds p)
  print-Parses (prefixed u e) p v hp m =
      let (a, ea, ev) = bind-some (meaning e) (λ x. some (apply_prefix u x)) v m in
      subst
        (λ (x : ℕ).
          Parses sh (parens (ltb p 2) (prefix_symbol u ∷ print 2 e)) p x (depth e) (last_numeral e))
        (some_injective (apply_prefix u a) v ev)
        (enclosed-Parses (prefix_symbol u ∷ print 2 e) p 2 (apply_prefix u a) (depth e)
          (last_numeral e) hp (omega arith)
          (λ q hq.
            prefix-Parses sh u (print 2 e) q a (depth e) (last_numeral e) hq (print_on-Begins e 2)
              (print-Parses e 2 a (omega arith) ea)))
  print-Parses (infixed o l r) p v hp m =
      let (a, ea, k) =
        bind-some (meaning l) (λ x. bind (meaning r) λ y. calc_value (apply o x y)) v m in
      let (b, eb, ev) = bind-some (meaning r) (λ y. calc_value (apply o a y)) v k in
      enclosed-Parses _ p (prec (token o)) v (max (depth l) (suc (depth r))) (last_numeral r) hp
        (prec-bounds o).1
        (λ q hq.
          infix-Parses sh o (print (left_prec o) l) (print (argument_prec (token o)) r) a b v
            (depth l) (depth r) (last_numeral l) (last_numeral r) q hq
            (print_on-Begins r (argument_prec (token o)))
            (print-Parses l (left_prec o) a (left_prec-pos o) ea)
            (print-Parses r (argument_prec (token o)) b (argument_prec-pos o) eb)
            (calc_value-some (apply o a b) v ev))

  eoi-Closes : Closes 16 Token.eoi
  unfolding prec
  eoi-Closes = record { past = λ o h. omega (arith, h, argument_prec-le o); tight = omega arith }

  mathparse-print :
      (e : Expr) (v : ℕ) (m : Math P)
      → meaning e ≡ some v
      → depth e ≤ 100
      → m.errflag ≡ false
      → mathparse sh (length (print 16 e) + 2) 16 (math_start (print 16 e) m)
        ≡ ran (record (evaluated e v m) { mtok = Token.eoi })
  unfolding mathparse math_start prec
  mathparse-print e v m means room ok =
      let s = print 16 e in
      let m₀ = record m { lastbase = 2 ^ 32 - 1; lvals = [] } in
      let fuel = length s + 2 in
      let whole = append-nil s in
      let parse =
        (print-Parses e 16 v (omega arith) means).run m₀ 16 fuel true [] m.yyval [] [] Token.eoi
          true (omega arith) (Next-end sh) eoi-Closes (omega (arith, room))
          (omega (arith, ap (λ (l : List ℕ). length l) whole)) in
      ap
        (λ (b : Bool).
          parse_with sh (mathparse_loop sh fuel) 16 (record (math_start s m) { errflag = b }))
        ok
      ∙ parse_with_lem sh (mathparse_loop sh fuel) 16 (reading m₀ s true [] m.yyval) refl
      ∙ ap
          (λ (l : List ℕ).
            and_then (next_token sh (reading m₀ l true [] m.yyval)) (mathparse_loop sh fuel 16))
          (sym whole)
      ∙ parse.2
      ∙ loop_stops sh parse.0 16 (record (evaluated e v m) { mtok = Token.eoi }) (omega arith)
          (omega (arith, parse.1))

  mathevall-print :
      (e : Expr) (v : ℕ) (m : Math P)
      → meaning e ≡ some v
      → depth e ≤ 100
      → m.errflag ≡ false
      → mathevall sh (print 16 e) 16 m
        ≡ ran (some v, [], record (evaluated e v m) { mtok = Token.eoi })
  unfolding mathevall balanced
  mathevall-print e v m means room ok =
      ap (λ (o : Run (Math P)). and_then o λ r. ran (bottom r.stack, r.ptr, balanced r))
        (mathparse-print e v m means room ok)

  matheval_begun :
      (s : Str) (m : Math P)
      → Begins s
      → matheval sh s m
        ≡ and_then
            (mathevall sh s top_prec m)
            λ (x, junk, r). ran (x, record (elim junk [ [] ↦ r | _ ↦ zerr r ]) { mtok = m.mtok })
  unfolding matheval
  matheval_begun s m b =
      subst
        (λ (s : Str).
          matheval sh s m
          ≡ and_then (mathevall sh s top_prec m)
              λ (x, junk, r). ran (x, record (elim junk [ [] ↦ r | _ ↦ zerr r ]) { mtok = m.mtok }))
        (sym b.is_begin) refl

  -- An expression of numerals, `!`, `~` and the infix operators that do not assign, written with
  -- the parentheses that the precedences need and no others, that has a value and needs at most
  -- 100 places of the value stack, is given this value by `matheval`, where there is no error
  -- before, without an error and without a change of the parameters or of `noeval`.
  pub matheval-print :
      (e : Expr) (v : ℕ) (m : Math P)
      → meaning e ≡ some v
      → depth e ≤ 100
      → m.errflag ≡ false
      → matheval sh (print 16 e) m ≡ ran (some v, evaluated e v m)
  matheval-print e v m means room ok =
      matheval_begun (print 16 e) m (print-Begins e 16)
      ∙ ap
          (λ (o : Run (Option ℕ × List ℕ × Math P)).
            and_then o
              λ (x, junk, r). ran (x, record (elim junk [ [] ↦ r | _ ↦ zerr r ]) { mtok = m.mtok }))
          (mathevall-print e v m means room ok)
