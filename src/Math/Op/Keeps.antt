-- ===== src/Math/Op/Keeps.antt =====
-- What the operations on the stack leave alone.
use winzsh.Prelude.{
  ℕ, ◌+◌, ◌%◌, ◌<◌, ◌≡◌, ◌∙◌, refl, List, [], ◌∷◌, true, false, Option, none, some, Bool-cases,
  Option-cases, inl, inr, ◌==◌, if◌then◌else◌, arith,
}
use winzsh.Prelude.Lists.{length}
use winzsh.Math.Token.{Token}
use winzsh.Math.Word.{Calc, value, failed, undefined}
use winzsh.Math.State.{Shell, MathValue, Math}
use winzsh.Number.{word_mod}
use winzsh.Math.Op.{
  Action, monadic, increment, binary, assign, ternary, nothing, out_of_integers, action, stack_size,
  name_at, zerr, push, put, variable, setvar, put_calc, set_calc, act, op,
}

module _ {P : Type 0} where
  -- The place in the string, the token and `noeval` stay, an error is not taken back, and where
  -- nothing is to be evaluated the parameters stay.
  pub record Keeps (m r : Math P) : Type 0 where
    pub same_ptr : r.ptr ≡ m.ptr
    pub same_mtok : r.mtok ≡ m.mtok
    pub same_noeval : r.noeval ≡ m.noeval
    pub keeps_error : m.errflag ≡ true → r.errflag ≡ true
    pub no_effect : 0 < m.noeval → r.params ≡ m.params

  unfoldable pub AllKeep : Math P → Option (Math P) → Type 0
  AllKeep m none = Unit
  AllKeep m (some r) = Keeps m r

  Keeps-refl : (m : Math P) → Keeps m m
  Keeps-refl m = record {
    same_ptr = refl;
    same_mtok = refl;
    same_noeval = refl;
    keeps_error = λ e. e;
    no_effect = λ h. refl;
  }

  pub Keeps-trans : (m r s : Math P) → Keeps m r → Keeps r s → Keeps m s
  Keeps-trans m r s a b = record {
    same_ptr = b.same_ptr ∙ a.same_ptr;
    same_mtok = b.same_mtok ∙ a.same_mtok;
    same_noeval = b.same_noeval ∙ a.same_noeval;
    keeps_error = λ e. b.keeps_error (a.keeps_error e);
    no_effect = λ h. b.no_effect (omega (arith, h, a.same_noeval)) ∙ a.no_effect h;
  }

  pub zerr-Keeps : (m : Math P) → Keeps m (zerr m)
  zerr-Keeps m = record {
    same_ptr = refl;
    same_mtok = refl;
    same_noeval = refl;
    keeps_error = λ e. refl;
    no_effect = λ h. refl;
  }

  -- A change of the stack alone.
  restacked : (m : Math P) (st : List MathValue) → Keeps m (record m { stack = st })
  restacked m st = record {
    same_ptr = refl;
    same_mtok = refl;
    same_noeval = refl;
    keeps_error = λ e. e;
    no_effect = λ h. refl;
  }

  pub push-Keeps : (v : MathValue) (m : Math P) → Keeps m (push v m)
  unfolding push
  push-Keeps v m = elim (Bool-cases (length m.stack == stack_size)) [
    | inl e ↦ rw e (Keeps-trans m (zerr m) _ (zerr-Keeps m) (restacked (zerr m) _))
    | inr e ↦ rw e (restacked m _)
  ]

  put-Keeps : (lv : Option ℕ) (v : ℕ) (m : Math P) → Keeps m (put lv v m)
  unfolding put
  put-Keeps lv v m = push-Keeps (record { val = v; lval = lv }) m

  module _ (sh : Shell P) where
    -- With `noeval` set it is not called.
    pub variable-Keeps : (m : Math P) (i : ℕ) → m.noeval ≡ 0 → Keeps m (variable sh m i).0
    unfolding variable
    variable-Keeps m i z = elim (Option-cases (name_at m.lvals i)) [
      | inl e ↦ rw (e, variable) (Keeps-refl m)
      | inr (s, e) ↦
          rw (e, variable)
            (record {
              same_ptr = refl;
              same_mtok = refl;
              same_noeval = refl;
              keeps_error = λ b. rw b refl;
              no_effect = λ h. absurd (omega (arith, h, z));
            })
    ]

    setvar-Keeps : (lv : Option ℕ) (v : ℕ) (m : Math P) → Keeps m (setvar sh lv v m).0
    unfolding setvar
    setvar-Keeps none v m = zerr-Keeps m
    setvar-Keeps (some i) v m = elim (Option-cases (name_at m.lvals i)) [
      | inl e ↦ rw (e, setvar) (zerr-Keeps m)
      | inr (s, e) ↦
          rw (e, setvar)
            (elim (Bool-cases (m.noeval == 0)) [
              | inl z ↦ rw z (record {
                same_ptr = refl;
                same_mtok = refl;
                same_noeval = refl;
                keeps_error = λ b. rw b refl;
                no_effect = λ h. absurd (ground (arith, h, z));
              })
              | inr z ↦ rw z (Keeps-refl m)
            ])
    ]

    put_calc-Keeps : (c : Calc) (m : Math P) → AllKeep m (put_calc sh c m)
    unfolding put_calc AllKeep
    put_calc-Keeps (value v) m = put-Keeps none v m
    put_calc-Keeps failed m = zerr-Keeps m
    put_calc-Keeps undefined m = tt

    set_calc-Keeps : (lv : Option ℕ) (c : Calc) (m : Math P) → AllKeep m (set_calc sh lv c m)
    unfolding set_calc AllKeep
    set_calc-Keeps lv (value v) m =
        let s = setvar sh lv v m in Keeps-trans m s.0 _ (setvar-Keeps lv v m) (put-Keeps lv s.1 s.0)
    set_calc-Keeps lv failed m = zerr-Keeps m
    set_calc-Keeps lv undefined m = tt

    -- After a change of the stack.
    from_stack :
        (m : Math P) (st : List MathValue) (o : Option (Math P))
        → AllKeep (record m { stack = st }) o
        → AllKeep m o
    unfolding AllKeep
    from_stack m st none h = tt
    from_stack m st (some r) h = Keeps-trans m _ r (restacked m st) h

    act-Keeps :
        (a : Action) (top : MathValue) (rest : List MathValue) (m : Math P)
        → AllKeep m (act sh a top rest m)
    unfolding act
    act-Keeps (monadic f) top rest m = unfold AllKeep in restacked m _
    act-Keeps (increment false by) top rest m =
        unfold AllKeep in setvar-Keeps top.lval ((top.val + by) % word_mod) m
    act-Keeps (increment true by) top rest m =
        let s = setvar sh top.lval ((top.val + by) % word_mod) m in
        unfold AllKeep in
        Keeps-trans m s.0 _ (setvar-Keeps top.lval ((top.val + by) % word_mod) m) (restacked s.0 _)
    act-Keeps (binary f) b [] m = unfold AllKeep in zerr-Keeps m
    act-Keeps (binary f) b (a ∷ rest) m =
        from_stack m rest _ (put_calc-Keeps (f a.val b.val) (record m { stack = rest }))
    act-Keeps (assign f) b [] m = unfold AllKeep in zerr-Keeps m
    act-Keeps (assign f) b (a ∷ rest) m =
        from_stack m rest _ (set_calc-Keeps a.lval (f a.val b.val) (record m { stack = rest }))
    act-Keeps ternary c [] m = unfold AllKeep in zerr-Keeps m
    act-Keeps ternary c (b ∷ []) m = unfold AllKeep in zerr-Keeps m
    act-Keeps ternary c (b ∷ a ∷ rest) m =
        let v = if a.val == 0 then c.val else b.val in
        unfold AllKeep in
        Keeps-trans m (record m { stack = rest }) _ (restacked m rest)
          (put-Keeps none v (record m { stack = rest }))
    act-Keeps nothing top rest m = unfold AllKeep in Keeps-refl m
    act-Keeps out_of_integers top rest m = unfold AllKeep in zerr-Keeps m

    pub op-Keeps : (t : Token) (m : Math P) → AllKeep m (op sh t m)
    unfolding op
    op-Keeps t m = by_stack m.stack
      where
        by_stack :
            (st : List MathValue)
            → AllKeep m (elim st [ [] ↦ some (zerr m) | top ∷ rest ↦ act sh (action t) top rest m ])
        by_stack [] = unfold AllKeep in zerr-Keeps m
        by_stack (top ∷ rest) = act-Keeps (action t) top rest m
