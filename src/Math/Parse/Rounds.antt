-- ===== src/Math/Parse/Rounds.antt =====
-- A round of the loop of `mathparse`, Src/math.c, where what it calls may be relied on.
use winzsh.Prelude.{
  if_both, ℕ, suc, ◌-◌, ◌≤◌, ◌<◌, ◌≡◌, refl, ap, List, [], ◌∷◌, Bool, true, false, Option, none,
  some, ◌==◌, arith,
}
use winzsh.Prelude.Lists.{length}
use winzsh.Math.Token.{Token, prec, type_of, top_prec}
use winzsh.Math.State.{Shell, MathValue, Math}
use winzsh.Math.Op.{zerr, op}
use winzsh.Math.Op.Keeps.{AllKeep, zerr-Keeps, op-Keeps}
use winzsh.Math.Op.Enters.{AllEnter}
use winzsh.Prelude.Runs.{Run, ran, stuck, and_then, defined}
use winzsh.Math.Parse.{
  Kind, is_outpar, argument_prec, next_token, parse_with, read_value, in_parens, more_noeval,
  less_noeval, branches, conditional, enter, operation, switch,
}
use winzsh.Math.Parse.Steps.{
  weight, weight_error, Step, Ends, Step-Keeps, Step-trans, Step-Keeps-refl, Ends-trans, Ends-then,
  weaken, noeval_restored, lowered,
}
use winzsh.Math.Parse.Reads.{next_token-Ends, read_value-Keeps, enter-AllEnter, argument_prec-le}

module _ {P : Type 0} (sh : Shell P) where
  module _ (loop : ℕ → Math P → Run (Math P)) (f : ℕ)
      (ih : (pc : ℕ) (m : Math P) → pc < 200 → weight m < f → Ends (weight m) m (loop pc m)) where
    pub parse_with-Ends :
        (pc : ℕ) (m : Math P)
        → pc < 200
        → length m.ptr < f
        → Ends (length m.ptr) m (parse_with sh loop pc m)
    unfolding parse_with
    parse_with-Ends pc m hp le =
        if_both (Ends (length m.ptr) m) m.errflag (λ e. unchanged e)
          (λ e.
            Ends-then (length m.ptr) (length m.ptr) m m (next_token sh m) (loop pc)
              (next_token-Ends sh m) onward)
      where
        onward : (r : Math P) → Step (length m.ptr) m r → Ends (length m.ptr) m (loop pc r)
        onward r s =
            Ends-trans (length m.ptr) (weight r) (length m.ptr) m r (loop pc r) s s.left
              (ih pc r hp (omega (arith, s.left, le)))

        unchanged : m.errflag ≡ true → Ends (length m.ptr) m (ran m)
        unchanged e =
            unfold Ends in
            record {
              left = omega (arith, weight_error m e);
              shorter = omega arith;
              same_noeval = refl;
              no_effect = λ h. refl;
              keeps_error = λ b. b;
            }

    -- A round of the loop goes on with less to read.
    again :
        (v pc : ℕ) (m r : Math P)
        → pc < 200
        → length m.ptr < f
        → v ≤ length m.ptr
        → Step v m r
        → Ends (suc (length m.ptr)) m (loop pc r)
    again v pc m r hp le small s =
        Ends-trans v (weight r) (suc (length m.ptr)) m r (loop pc r) s
          (omega (arith, s.left, small)) (ih pc r hp (omega (arith, s.left, small, le)))

    read_on-Ends :
        (v pc : ℕ) (m r : Math P)
        → pc < 200
        → length m.ptr < f
        → Step v m r
        → Ends (suc (length m.ptr)) m (and_then (next_token sh r) (loop pc))
    read_on-Ends v pc m r hp le s =
        Ends-then (length r.ptr) (suc (length m.ptr)) m m (next_token sh r) (loop pc)
          (Ends-trans v (length r.ptr) (length r.ptr) m r (next_token sh r) s (omega arith)
            (next_token-Ends sh r))
          (λ x t. again (length r.ptr) pc m x hp le s.shorter t)

    -- `op(t)` after a step, and the loop.
    op_on-Ends :
        (v pc : ℕ) (t : Token) (m r : Math P)
        → pc < 200
        → length m.ptr < f
        → v ≤ length m.ptr
        → Step v m r
        → Ends (suc (length m.ptr)) m (and_then (defined (op sh t r)) (loop pc))
    unfolding AllKeep
    op_on-Ends v pc t m r hp le small s = by_result (op sh t r) (op-Keeps sh t r)
      where
        by_result :
            (o : Option (Math P))
            → AllKeep r o
            → Ends (suc (length m.ptr)) m (and_then (defined o) (loop pc))
        by_result none k = unfold Ends in tt
        by_result (some x) k = again v pc m x hp le small (Step-Keeps v m r x s k)

    in_parens-Ends :
        (pc : ℕ) (m : Math P)
        → pc < 200
        → length m.ptr < f
        → Ends (suc (length m.ptr)) m (in_parens sh loop pc m)
    unfolding in_parens
    in_parens-Ends pc m hp le =
        Ends-then (length m.ptr) (suc (length m.ptr)) m m _ _
          (parse_with-Ends top_prec m (omega arith) le)
          (λ r s.
            if_both (Ends (suc (length m.ptr)) m) (is_outpar r.mtok)
              (λ e. read_on-Ends (length m.ptr) pc m r hp le s) (λ e. failed r s))
      where
        failed : (r : Math P) → Step (length m.ptr) m r → Ends (suc (length m.ptr)) m (ran (zerr r))
        failed r s =
            unfold Ends in
            weaken (length m.ptr) (suc (length m.ptr)) m (zerr r) (omega arith)
              (Step-Keeps (length m.ptr) m r (zerr r) s (zerr-Keeps r))

    same_length : (m n : Math P) → n.ptr ≡ m.ptr → length n.ptr ≡ length m.ptr
    same_length m n e = ap (λ (p : List ℕ). length p) e

    operation-Ends :
        (pc : ℕ) (m : Math P)
        → pc < 200
        → prec m.mtok ≤ pc
        → length m.ptr < f
        → Ends (suc (length m.ptr)) m (operation sh loop pc m)
    unfolding operation AllEnter
    operation-Ends pc m hp small le =
        entered (enter sh (type_of m.mtok) m) (enter-AllEnter sh (type_of m.mtok) m)
      where
        after_op : Math P → Run (Math P)
        after_op r = and_then (defined (op sh m.mtok (record r { noeval = m.noeval }))) (loop pc)

        entered :
            (o : Option (Math P))
            → AllEnter m o
            → Ends (suc (length m.ptr)) m (
                and_then
                  (defined o)
                  λ m₁. and_then (parse_with sh loop (argument_prec m.mtok) m₁) after_op)
        entered none e = unfold Ends in tt
        entered (some m₁) e =
            let size = same_length m m₁ e.same_ptr in
            Ends-then (length m₁.ptr) (suc (length m.ptr)) m m₁ _ after_op
              (parse_with-Ends (argument_prec m.mtok) m₁
                (omega (arith, argument_prec-le sh m.mtok, small, hp)) (omega (arith, size, le)))
              (λ r s.
                op_on-Ends (length m₁.ptr) pc m.mtok m (record r { noeval = m.noeval }) hp le
                  (omega (arith, size)) (noeval_restored (length m₁.ptr) m m₁ r e s))

    branches-Ends :
        (zero_test : Bool) (pc : ℕ) (m : Math P)
        → pc < 200
        → length m.ptr < f
        → Ends (suc (length m.ptr)) m (branches sh zero_test loop pc m)
    unfolding branches prec
    branches-Ends true pc m hp le =
        Ends-then (length m.ptr) (suc (length m.ptr)) m (more_noeval m) _ _
          (parse_with-Ends (prec Token.quest - 1) (more_noeval m) (omega arith) le)
          (λ r s. second r (lowered (length m.ptr) m r s))
      where
        second :
            (r : Math P)
            → Step (length m.ptr) m (less_noeval r)
            → Ends (suc (length m.ptr)) m (
                and_then
                  (parse_with sh loop (prec Token.quest) (less_noeval r))
                  λ x. and_then (defined (op sh Token.quest x)) (loop pc))
        second r s =
            Ends-then (length r.ptr) (suc (length m.ptr)) m (less_noeval r) _ _
              (parse_with-Ends (prec Token.quest) (less_noeval r) (omega arith)
                (omega (arith, s.shorter, le)))
              (λ x t.
                op_on-Ends (length r.ptr) pc Token.quest m x hp le s.shorter
                  (Step-trans (length m.ptr) (length r.ptr) m (less_noeval r) x s t))
    branches-Ends false pc m hp le =
        Ends-then (length m.ptr) (suc (length m.ptr)) m m _ _
          (parse_with-Ends (prec Token.quest - 1) m (omega arith) le) (λ r s. second r s)
      where
        second :
            (r : Math P)
            → Step (length m.ptr) m r
            → Ends (suc (length m.ptr)) m (
                and_then
                  (parse_with sh loop (prec Token.quest) (more_noeval r))
                  λ x. and_then (defined (op sh Token.quest (less_noeval x))) (loop pc))
        second r s =
            Ends-then (length r.ptr) (suc (length m.ptr)) m (more_noeval r) _ _
              (parse_with-Ends (prec Token.quest) (more_noeval r) (omega arith)
                (omega (arith, s.shorter, le)))
              (λ x t. op_on-Ends (length r.ptr) pc Token.quest m (less_noeval x) hp le s.shorter (
                Step-trans (length m.ptr) (length r.ptr) m r (less_noeval x) s
                  (lowered (length r.ptr) r x t)))

    conditional-Ends :
        (pc : ℕ) (m : Math P)
        → pc < 200
        → length m.ptr < f
        → Ends (suc (length m.ptr)) m (conditional sh loop pc m)
    unfolding conditional
    conditional-Ends pc m hp le = by_stack m.stack
      where
        by_stack :
            (st : List MathValue)
            → Ends
                (suc (length m.ptr))
                m
                (elim st [ [] ↦ stuck | q ∷ _ ↦ branches sh (q.val == 0) loop pc m ])
        by_stack [] = unfold Ends in tt
        by_stack (q ∷ st) = branches-Ends (q.val == 0) pc m hp le

    pub switch-Ends :
        (k : Kind) (pc : ℕ) (m : Math P)
        → pc < 200
        → prec m.mtok ≤ pc
        → length m.ptr < f
        → Ends (suc (length m.ptr)) m (switch sh loop pc m k)
    unfolding switch
    switch-Ends Kind.paren pc m hp small le = in_parens-Ends pc m hp le
    switch-Ends Kind.question pc m hp small le = conditional-Ends pc m hp le
    switch-Ends Kind.operator pc m hp small le = operation-Ends pc m hp small le
    switch-Ends Kind.number pc m hp small le =
        read_on-Ends (weight m) pc m (read_value sh Kind.number m) hp le
          (Step-Keeps-refl m _ (read_value-Keeps sh Kind.number m))
    switch-Ends Kind.name pc m hp small le =
        read_on-Ends (weight m) pc m (read_value sh Kind.name m) hp le
          (Step-Keeps-refl m _ (read_value-Keeps sh Kind.name m))
    switch-Ends Kind.char_name pc m hp small le =
        read_on-Ends (weight m) pc m (read_value sh Kind.char_name m) hp le
          (Step-Keeps-refl m _ (read_value-Keeps sh Kind.char_name m))
