-- ===== src/Math/Tree/Rounds.antt =====
-- The rounds of `mathparse`, Src/math.c, on the tokens of a written expression.
use winzsh.Prelude.{
  ℕ, zero, suc, ◌≤◌, ◌<◌, ◌≡◌, refl, ap, List, ◌∷◌, Bool, true, false, Option, none, some, leb,
  ◌==◌, if◌then◌else◌, arith,
}
use winzsh.Prelude.Lists.{length}
use winzsh.Math.Token.{Token, prec, type_of}
use winzsh.Math.State.{Shell, MathValue, Math}
use winzsh.Math.Word.{value}
use winzsh.Math.Op.{
  binary, action, act, op, push, put, put_calc, bop, noeval_if_zero, noeval_unless_zero, stack_size,
}
use winzsh.Prelude.Runs.{Run, ran, and_then, defined}
use winzsh.Math.Parse.{
  kind, Kind, enter, switch, parse_with, next_token, mathparse_loop, argument_prec, operation,
}
use winzsh.Math.Tree.{
  Prefix, Binary, lnot, comp, band, bxor, bor, mul, divide, modulo, plus, minus, shleft, shright,
  les, leq, gre, geq, deq, neq, dand, dor, dxor, comma, power, token, prefix_token, apply,
  apply_prefix,
}

abbrev pub just : ℕ → MathValue
just v = record { val = v; lval = none }

module _ {P : Type 0} where
  pub push_room :
      (v : MathValue) (m : Math P)
      → length m.stack < 100
      → push v m ≡ record m { stack = v ∷ m.stack }
  unfolding push
  push_room v m h = rw (room (length m.stack) h) refl
    where
      room : (n : ℕ) → n < 100 → (n == stack_size) ≡ false
      room n h = ground (arith, h)

  module _ (sh : Shell P) where
    pub loop_stops :
        (g pc : ℕ) (m : Math P) → pc < prec m.mtok → 0 < g → mathparse_loop sh g pc m ≡ ran m
    unfolding mathparse_loop
    loop_stops zero pc m h z = absurd (omega (arith, z))
    loop_stops (suc f) pc m h z = rw (above (prec m.mtok) pc h) refl
      where
        above : (a b : ℕ) → b < a → leb a b ≡ false
        above a b h = ground (arith, h)

    pub loop_round :
        (f pc : ℕ) (m : Math P)
        → prec m.mtok ≤ pc
        → m.errflag ≡ false
        → mathparse_loop sh (suc f) pc m ≡ switch sh (mathparse_loop sh f) pc m (kind m.mtok)
    unfolding mathparse_loop
    loop_round f pc m h e = rw (within (prec m.mtok) pc h, e) refl
      where
        within : (a b : ℕ) → a ≤ b → leb a b ≡ true
        within a b h = ground (arith, h)

    pub parse_with_lem :
        (loop : ℕ → Math P → Run (Math P)) (pc : ℕ) (m : Math P)
        → m.errflag ≡ false
        → parse_with sh loop pc m ≡ and_then (next_token sh m) (loop pc)
    unfolding parse_with
    parse_with_lem loop pc m e = rw e refl

    -- `bop` may raise `noeval`.
    abbrev pub Entered : Math P → Option (Math P) → Type 0
    Entered m r = (n : ℕ) × (r ≡ some (record m { noeval = n }))

    raised_if :
        (b : Bool) (m : Math P)
        → Entered m (if b then some (record m { noeval = suc m.noeval }) else some m)
    raised_if true m = (suc m.noeval, refl)
    raised_if false m = (m.noeval, refl)

    raised_unless :
        (b : Bool) (m : Math P)
        → Entered m (if b then some m else some (record m { noeval = suc m.noeval }))
    raised_unless true m = (m.noeval, refl)
    raised_unless false m = (suc m.noeval, refl)

    pub enter_lem :
        (o : Binary) (m : Math P) (x : MathValue) (st : List MathValue)
        → Entered
            (record m { mtok = token o; stack = x ∷ st })
            (enter sh (type_of (token o)) (record m { mtok = token o; stack = x ∷ st }))
    unfolding enter type_of bop noeval_if_zero noeval_unless_zero
    enter_lem band m x st = (m.noeval, refl)
    enter_lem bxor m x st = (m.noeval, refl)
    enter_lem bor m x st = (m.noeval, refl)
    enter_lem mul m x st = (m.noeval, refl)
    enter_lem divide m x st = (m.noeval, refl)
    enter_lem modulo m x st = (m.noeval, refl)
    enter_lem plus m x st = (m.noeval, refl)
    enter_lem minus m x st = (m.noeval, refl)
    enter_lem shleft m x st = (m.noeval, refl)
    enter_lem shright m x st = (m.noeval, refl)
    enter_lem les m x st = (m.noeval, refl)
    enter_lem leq m x st = (m.noeval, refl)
    enter_lem gre m x st = (m.noeval, refl)
    enter_lem geq m x st = (m.noeval, refl)
    enter_lem deq m x st = (m.noeval, refl)
    enter_lem neq m x st = (m.noeval, refl)
    enter_lem dand m x st = raised_if (x.val == 0) (record m { mtok = token dand; stack = x ∷ st })
    enter_lem dor m x st =
        raised_unless (x.val == 0) (record m { mtok = token dor; stack = x ∷ st })
    enter_lem dxor m x st = (m.noeval, refl)
    enter_lem comma m x st = (m.noeval, refl)
    enter_lem power m x st = (m.noeval, refl)

    action_infix : (o : Binary) → action (token o) ≡ binary (apply o)
    unfolding action
    action_infix band = refl
    action_infix bxor = refl
    action_infix bor = refl
    action_infix mul = refl
    action_infix divide = refl
    action_infix modulo = refl
    action_infix plus = refl
    action_infix minus = refl
    action_infix shleft = refl
    action_infix shright = refl
    action_infix les = refl
    action_infix leq = refl
    action_infix gre = refl
    action_infix geq = refl
    action_infix deq = refl
    action_infix neq = refl
    action_infix dand = refl
    action_infix dor = refl
    action_infix dxor = refl
    action_infix comma = refl
    action_infix power = refl

    pub op_infix :
        (o : Binary) (a b v : ℕ) (st : List MathValue) (m : Math P)
        → length st < 100
        → apply o a b ≡ value v
        → op sh (token o) (record m { stack = just b ∷ just a ∷ st })
          ≡ some (record m { stack = just v ∷ st })
    unfolding op act put_calc put
    op_infix o a b v st m room e =
        rw (action_infix o, op, act)
          (rw (e, put_calc) (ap some (push_room (just v) (record m { stack = st }) room)))

    pub op_prefix :
        (o : Prefix) (a : ℕ) (st : List MathValue) (m : Math P)
        → op sh (prefix_token o) (record m { stack = just a ∷ st })
          ≡ some (record m { stack = just (apply_prefix o a) ∷ st })
    unfolding op act action
    op_prefix lnot a st m = refl
    op_prefix comp a st m = refl

    pub kind_infix : (o : Binary) → kind (token o) ≡ Kind.operator
    unfolding kind
    kind_infix band = refl
    kind_infix bxor = refl
    kind_infix bor = refl
    kind_infix mul = refl
    kind_infix divide = refl
    kind_infix modulo = refl
    kind_infix plus = refl
    kind_infix minus = refl
    kind_infix shleft = refl
    kind_infix shright = refl
    kind_infix les = refl
    kind_infix leq = refl
    kind_infix gre = refl
    kind_infix geq = refl
    kind_infix deq = refl
    kind_infix neq = refl
    kind_infix dand = refl
    kind_infix dor = refl
    kind_infix dxor = refl
    kind_infix comma = refl
    kind_infix power = refl

    pub kind_prefix : (o : Prefix) → kind (prefix_token o) ≡ Kind.operator
    unfolding kind
    kind_prefix lnot = refl
    kind_prefix comp = refl

    -- What `operation` does behind the operand.
    abbrev pub op_then : (ℕ → Math P → Run (Math P)) → ℕ → Token → ℕ → Math P → Run (Math P)
    op_then loop pc t n z = and_then (defined (op sh t (record z { noeval = n }))) (loop pc)

    pub operation_prefix :
        (o : Prefix) (loop : ℕ → Math P → Run (Math P)) (pc : ℕ) (m : Math P)
        → operation sh loop pc (record m { mtok = prefix_token o })
          ≡ and_then
              (parse_with sh loop 2 (record m { mtok = prefix_token o }))
              (op_then loop pc (prefix_token o) m.noeval)
    unfolding operation enter type_of argument_prec prec
    operation_prefix lnot loop pc m = refl
    operation_prefix comp loop pc m = refl

    pub operation_infix :
        (o : Binary) (loop : ℕ → Math P → Run (Math P)) (pc : ℕ) (m : Math P) (x : MathValue)
        (st : List MathValue)
        → (n : ℕ) × (operation sh loop pc (record m { mtok = token o; stack = x ∷ st })
            ≡ and_then
                (parse_with sh loop
                  (argument_prec (token o))
                  (record m { mtok = token o; stack = x ∷ st; noeval = n }))
                (op_then loop pc (token o) m.noeval))
    unfolding operation
    operation_infix o loop pc m x st =
        let (n, e) = enter_lem o m x st in
        (
          n,
          ap
              (λ (r : Option (Math P)). and_then (defined r) λ z.
                and_then (parse_with sh loop (argument_prec (token o)) z)
                  (op_then loop pc (token o) m.noeval))
              e,
        )
