-- ===== src/Math/Parse/Total.antt =====
-- `mathparse` and its callers, Src/math.c: the fuel is enough, and what a run leaves alone.
use winzsh.Prelude.{
  if_both, ℕ, zero, suc, ◌≤◌, ◌<◌, ◌≡◌, refl, sym, subst, false, leb, leb→le, arith,
}
use winzsh.Prelude.Lists.{length}
use winzsh.Math.Token.{Token, prec}
use winzsh.Math.State.{Shell, Math}
use winzsh.Math.Lex.Shorter.{is_eoi}
use winzsh.Prelude.Runs.{ran}
use winzsh.Math.Parse.{kind, switch, mathparse_loop, mathparse}
use winzsh.Math.Parse.Steps.{weight, Step, Ends}
use winzsh.Math.Parse.Rounds.{parse_with-Ends, switch-Ends}

module _ {P : Type 0} (sh : Shell P) where
  Step-refl : (m : Math P) → Step (weight m) m m
  Step-refl m = record {
    left = omega arith;
    shorter = omega arith;
    same_noeval = refl;
    no_effect = λ h. refl;
    keeps_error = λ e. e;
  }

  not_eoi : (t : Token) → prec t < 200 → is_eoi t ≡ false
  unfolding prec is_eoi
  not_eoi Token.eoi h = absurd (omega (arith, h))
  not_eoi _ h = refl

  -- Where the token binds more tightly than 200 it is not the last, and without an error the
  -- weight counts it.
  round-weight :
      (m : Math P) → prec m.mtok < 200 → m.errflag ≡ false → weight m ≡ suc (length m.ptr)
  unfolding weight
  round-weight m hp e = rw (e, not_eoi m.mtok hp) refl

  a_round-Ends :
      (fuel pc : ℕ) (m : Math P)
      → pc < 200
      → prec m.mtok ≤ pc
      → m.errflag ≡ false
      → weight m < suc fuel
      → ((pc : ℕ) (m : Math P)
          → pc < 200
          → weight m < fuel
          → Ends (weight m) m (mathparse_loop sh fuel pc m))
      → Ends (weight m) m (switch sh (mathparse_loop sh fuel) pc m (kind m.mtok))
  a_round-Ends fuel pc m hp small e le ih =
      let w = round-weight m (omega (arith, small, hp)) e in
      subst (λ (n : ℕ). Ends n m (switch sh (mathparse_loop sh fuel) pc m (kind m.mtok))) (sym w)
        (switch-Ends sh (mathparse_loop sh fuel) fuel ih (kind m.mtok) pc m hp small
          (omega (arith, le, w)))

  pub mathparse_loop-Ends :
      (fuel pc : ℕ) (m : Math P)
      → pc < 200
      → weight m < fuel
      → Ends (weight m) m (mathparse_loop sh fuel pc m)
  unfolding mathparse_loop
  mathparse_loop-Ends zero pc m hp le = absurd (omega (arith, le))
  mathparse_loop-Ends (suc fuel) pc m hp le =
      if_both (Ends (weight m) m) (leb (prec m.mtok) pc)
        (λ small.
          if_both (Ends (weight m) m) m.errflag (λ e. stays)
            (λ e.
              a_round-Ends fuel pc m hp (leb→le (prec m.mtok) pc small) e le
                (mathparse_loop-Ends fuel)))
        (λ big. stays)
    where
      stays : Ends (weight m) m (ran m)
      stays = unfold Ends in Step-refl m

  pub mathparse-Ends :
      (fuel pc : ℕ) (m : Math P)
      → pc < 200
      → length m.ptr < fuel
      → Ends (length m.ptr) m (mathparse sh fuel pc m)
  unfolding mathparse
  mathparse-Ends fuel pc m hp le =
      parse_with-Ends sh (mathparse_loop sh fuel) fuel (mathparse_loop-Ends fuel) pc m hp le
