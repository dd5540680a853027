-- ===== src/Math/Tree/Operators.antt =====
-- `mathparse` of Src/math.c on the operators of a written expression.
use winzsh.Prelude.{
  ℕ, suc, ◌+◌, ◌≤◌, ◌<◌, ◌≡◌, ◌∙◌, max, refl, sym, ap, subst, List, ◌∷◌, ◌++◌, Bool, Option, arith,
}
use mathlib.Core.List.{append_assoc}
use winzsh.Prelude.Lists.{length, length-append}
use winzsh.Math.Token.{Token, prec}
use winzsh.Math.State.{Shell, MathValue, Math}
use winzsh.Math.Word.{value}
use winzsh.Prelude.Runs.{Run, ran, and_then, defined}
use winzsh.Math.Parse.{next_token, parse_with, switch, argument_prec, mathparse_loop}
use winzsh.Math.Tree.{
  Prefix, Binary, lnot, comp, token, prefix_token, symbol, prefix_symbol, apply, apply_prefix,
  left_prec,
}
use winzsh.Math.Tree.Numeral.{reading}
use winzsh.Math.Tree.Lexed.{Next, Next-infix, operand_unary, next_token_prefix}
use winzsh.Math.Tree.Rounds.{
  just, loop_stops, parse_with_lem, op_infix, op_prefix, kind_infix, kind_prefix, op_then,
  operation_prefix, operation_infix,
}
use winzsh.Math.Tree.Levels.{
  argument_prec-le, left_prec-le, symbol-pos, prec-bounds, left_ends, Begins,
}
use winzsh.Math.Tree.Parses.{Closes, done, Comes, Parses, after, round}

module _ {P : Type 0} (sh : Shell P) where
  -- An operand and `op` behind it.
  operand :
      (f q v d y : ℕ) (s : List ℕ)
      → Parses sh s q v d y
      → (m : Math P) (u : Bool) (st : List MathValue) (x : ℕ) (s' rest : List ℕ) (t : Token)
        (u' : Bool)
      → Next sh s' t u' rest
      → Closes q t
      → q < prec t
      → length st + d ≤ 100
      → length (s ++ s') < f
      → parse_with sh (mathparse_loop sh f) q (reading m (s ++ s') u st x)
        ≡ ran (done sh m rest u' (just v ∷ st) y t)
  operand f q v d y s h m u st x s' rest t u' nx cl past room le =
      let inner = h.run m q f u st x s' rest t u' (omega arith) nx cl room le in
      parse_with_lem sh (mathparse_loop sh f) q (reading m (s ++ s') u st x) refl
      ∙ inner.2
      ∙ loop_stops sh inner.0 q (done sh m rest u' (just v ∷ st) y t) past (omega (arith, inner.1))

  next_token_begun :
      (m : Math P) (o : Prefix) (z : List ℕ) (u : Bool) (st : List MathValue) (x : ℕ)
      → Begins z
      → next_token sh (reading m (prefix_symbol o ∷ z) u st x)
        ≡ ran (record (reading m z u st x) { mtok = prefix_token o })
  next_token_begun m o z u st x b =
      subst
        (λ (z : List ℕ).
          next_token sh (reading m (prefix_symbol o ∷ z) u st x)
          ≡ ran (record (reading m z u st x) { mtok = prefix_token o }))
        (sym b.is_begin) (next_token_prefix sh m o b.head b.tail u st x b.start)

  prefix_prec : (o : Prefix) → prec (prefix_token o) ≡ 2
  unfolding prec
  prefix_prec lnot = refl
  prefix_prec comp = refl

  pub prefix-Parses :
      (o : Prefix) (s : List ℕ) (q v d y : ℕ)
      → 2 ≤ q
      → ((t : List ℕ) → Begins (s ++ t))
      → Parses sh s 2 v d y
      → Parses sh (prefix_symbol o ∷ s) q (apply_prefix o v) d y
  unfolding switch
  prefix-Parses o s q v d y hq begins h = record {
    run = λ m pc fuel u st x s' rest t u' le_pc nx cl room le.
        let m₁ = record (reading m (s ++ s') u st x) { mtok = prefix_token o } in
        let size = length-append s s' in
        after sh (length s') pc _ (mathparse_loop sh fuel pc m₁) _
          (ap (λ (r : Run (Math P)). and_then r (mathparse_loop sh fuel pc))
            (next_token_begun m o (s ++ s') u st x (begins s')))
          (round sh pc fuel m₁ _ (length s') (omega (arith, prefix_prec o, le_pc, hq)) refl
            (omega (arith, size, le))
            (λ f e. (
              f,
              omega (arith, e, size, le),
              ap (switch sh (mathparse_loop sh f) pc m₁) (kind_prefix sh o)
                  ∙ operation_prefix sh o (mathparse_loop sh f) pc (reading m (s ++ s') u st x)
                  ∙ ap
                      (λ (r : Run (Math P)).
                        and_then r (op_then sh (mathparse_loop sh f) pc (prefix_token o) m.noeval))
                      (operand f 2 v d y s h (record m { mtok = prefix_token o }) u st x s' rest t
                        u' nx
                        (record {
                          past = λ b g. cl.past b (omega (arith, g, hq));
                          tight = cl.tight;
                        })
                        cl.tight room (omega (arith, e, le)))
                  ∙ ap (λ (r : Option (Math P)). and_then (defined r) (mathparse_loop sh f pc))
                      (op_prefix sh o v st (done sh m rest u' st y t)),
            )));
  }

  infix_behind :
      (o : Binary) (z : List ℕ)
      → Begins z
      → Next sh (symbol o ++ z) (token o) (operand_unary sh o) z
  infix_behind o z b =
      subst (λ (z : List ℕ). Next sh (symbol o ++ z) (token o) (operand_unary sh o) z)
        (sym b.is_begin) (Next-infix sh o b.head b.tail b.start)

  left-Closes : (o : Binary) → Closes (left_prec o) (token o)
  left-Closes o = record { past = left_ends o; tight = omega (arith, (prec-bounds o).0) }

  -- From the operator on.
  infix_rest :
      (o : Binary) (sr : List ℕ) (a b v dr yl yr : ℕ)
      → Parses sh sr (argument_prec (token o)) b dr yr
      → apply o a b ≡ value v
      → (m : Math P) (pc fuel : ℕ) (u : Bool) (st : List MathValue) (s' rest : List ℕ) (t : Token)
        (u' : Bool)
      → prec (token o) ≤ pc
      → Next sh s' t u' rest
      → Closes (prec (token o)) t
      → length st + suc dr ≤ 100
      → suc (length (sr ++ s')) < fuel
      → Comes sh
          (length s')
          pc
          (mathparse_loop sh fuel pc (done sh m (sr ++ s') u (just a ∷ st) yl (token o)))
          (done sh m rest u' (just v ∷ st) yr t)
  unfolding switch
  infix_rest o sr a b v dr yl yr h e m pc fuel u st s' rest t u' hp nx cl room le =
      let m₁ = done sh m (sr ++ s') u (just a ∷ st) yl (token o) in
      let size = length-append sr s' in
      round sh pc fuel m₁ _ (length s') hp refl (omega (arith, size, le)) (λ f ef.
        let loop = mathparse_loop sh f in
        let (n, eo) =
          operation_infix sh o loop pc (reading m (sr ++ s') u (just a ∷ st) yl) (just a) st in
        (
          f,
          omega (arith, ef, size, le),
          ap (switch sh loop pc m₁) (kind_infix sh o)
              ∙ eo
              ∙ ap (λ (r : Run (Math P)). and_then r (op_then sh loop pc (token o) m.noeval))
                  (operand f (argument_prec (token o)) b dr yr sr h
                    (record m { mtok = token o; noeval = n }) u (just a ∷ st) yl s' rest t u' nx
                    (record {
                      past = λ p g. cl.past p (omega (arith, g, argument_prec-le o));
                      tight = cl.tight;
                    })
                    (cl.past o (omega arith)) (omega (arith, room)) (omega (arith, ef, le)))
              ∙ ap (λ (r : Option (Math P)). and_then (defined r) (loop pc))
                  (op_infix sh o a b v st (done sh m rest u' st yr t) (omega (arith, room)) e),
        ))

  pub infix-Parses :
      (o : Binary) (sl sr : List ℕ) (a b v dl dr yl yr q : ℕ)
      → prec (token o) ≤ q
      → ((t : List ℕ) → Begins (sr ++ t))
      → Parses sh sl (left_prec o) a dl yl
      → Parses sh sr (argument_prec (token o)) b dr yr
      → apply o a b ≡ value v
      → Parses sh (sl ++ symbol o ++ sr) q v (max dl (suc dr)) yr
  infix-Parses o sl sr a b v dl dr yl yr q hq begins hl hr e = record {
    run = λ m pc fuel u st x s' rest t u' le_pc nx cl room le.
        let z = sr ++ s' in
        let assoc : (sl ++ symbol o ++ sr) ++ s' ≡ sl ++ (symbol o ++ z) =
          append_assoc (sl ++ symbol o) sr s' ∙ append_assoc sl (symbol o) z in
        let size = ap (λ (l : List ℕ). length l) assoc in
        let left =
          hl.run m pc fuel u st x (symbol o ++ z) z (token o) (operand_unary sh o)
            (omega (arith, le_pc, hq, left_prec-le o)) (infix_behind o z (begins s'))
            (left-Closes o) (omega (arith, room)) (omega (arith, size, le)) in
        after sh (length s') pc _
          (mathparse_loop sh left.0 pc
            (done sh m z (operand_unary sh o) (just a ∷ st) yl (token o)))
          _
          (ap
              (λ (l : List ℕ).
                and_then (next_token sh (reading m l u st x)) (mathparse_loop sh fuel pc))
              assoc
            ∙ left.2)
          (infix_rest o sr a b v dr yl yr hr e m pc left.0 (operand_unary sh o) st s' rest t u'
            (omega (arith, le_pc, hq)) nx
            (record { past = λ p g. cl.past p (omega (arith, g, hq)); tight = cl.tight })
            (omega (arith, room))
            (omega (arith, left.1, length-append (symbol o) z, symbol-pos o)));
  }
