-- ===== src/Math/Parse/Reads.antt =====
-- One step of `mathparse`: `zzlex`, a value, and `bop`, Src/math.c.
use winzsh.Prelude.{
  if_both, ℕ, suc, ◌≤◌, ◌≡◌, refl, sym, ap, subst, List, [], ◌∷◌, true, some, Bool-cases,
  Option-cases, inl, inr, ◌==◌, ==_iff, arith,
}
use winzsh.Prelude.Lists.{length}
use winzsh.Math.Token.{Token, Assoc, left_right, right_left, short_circuit, prec}
use winzsh.Math.State.{Shell, Math}
use winzsh.Math.Lex.{zzlex}
use winzsh.Math.Lex.Shorter.{is_eoi, Read, AllRead, zzlex-Read, zzlex_nil}
use winzsh.Math.Op.{variable}
use winzsh.Math.Op.Keeps.{Keeps, Keeps-trans, push-Keeps, variable-Keeps}
use winzsh.Math.Op.Enters.{AllEnter, Enters-noeval, bop-Enters}
use winzsh.Math.Parse.{Kind, argument_prec, next_token, read_value, enter}
use winzsh.Math.Parse.Steps.{weight, weight-le, Step, Ends}

module _ {P : Type 0} (sh : Shell P) where
  ends_behind :
      (m : Math P) (n : ℕ) (t : Token) (r : Math P)
      → suc n ≡ length m.ptr
      → Read m n t r
      → Step (length m.ptr) m (record r { mtok = t })
  unfolding weight
  ends_behind m n t r size a = record {
    left = elim a.shorter [
      | inl e ↦ elim (Bool-cases r.errflag) [
        | inl b ↦ rw b (omega arith)
        | inr b ↦ rw (b, e) (omega arith)
      ]
      | inr le ↦ omega (arith, weight-le (record r { mtok = t }), le, size)
    ];
    shorter = omega (arith, a.within, size);
    same_noeval = a.same_noeval;
    no_effect = λ h. a.same_params;
    keeps_error = a.keeps_error;
  }

  pub next_token-Ends : (m : Math P) → Ends (length m.ptr) m (next_token sh m)
  unfolding next_token Ends AllRead
  next_token-Ends m = by_string m.ptr refl
    where
      ended : weight (record m { ptr = []; unary = true; mtok = Token.eoi }) ≤ length m.ptr
      ended =
          unfold weight is_eoi in
          elim (Bool-cases m.errflag) [ inl b ↦ rw b (omega arith) | inr b ↦ rw b (omega arith) ]

      at_end :
          m.ptr ≡ [] → Step (length m.ptr) m (record m { ptr = []; unary = true; mtok = Token.eoi })
      at_end e = record {
        left = ended;
        shorter = omega arith;
        same_noeval = refl;
        no_effect = λ h. refl;
        keeps_error = λ b. b;
      }

      by_string : (p : List ℕ) → m.ptr ≡ p → Ends (length m.ptr) m (next_token sh m)
      by_string [] e = rw (zzlex_nil sh m e, next_token) (at_end e)
      by_string (c ∷ p) e =
          let size : suc (length p) ≡ length m.ptr = ap (λ (x : List ℕ). length x) (sym e) in
          let all = zzlex-Read sh m (length p) (omega (arith, size)) in
          elim (Option-cases (zzlex sh m)) [
            | inl z ↦ rw (z, next_token) tt
            | inr ((t, r), z) ↦
                rw (z, next_token)
                  (ends_behind m (length p) t r size (subst (AllRead m (length p)) z all))
          ]

  pub read_value-Keeps : (k : Kind) (m : Math P) → Keeps m (read_value sh k m)
  unfolding read_value
  read_value-Keeps Kind.number m = push-Keeps _ m
  read_value-Keeps Kind.name m =
      let i = some m.yylval in
      if_both (Keeps m) (m.noeval == 0)
        (λ z.
          let r = variable sh m m.yylval in
          Keeps-trans m r.0 _ (variable-Keeps sh m m.yylval ((==_iff m.noeval 0).0 z))
            (push-Keeps (record { val = r.1; lval = i }) r.0))
        (λ z. push-Keeps (record { val = 0; lval = i }) m)
  read_value-Keeps Kind.char_name m = push-Keeps _ m
  read_value-Keeps Kind.paren m = push-Keeps _ m
  read_value-Keeps Kind.question m = push-Keeps _ m
  read_value-Keeps Kind.operator m = push-Keeps _ m

  pub enter-AllEnter : (a : Assoc) (m : Math P) → AllEnter m (enter sh a m)
  unfolding enter AllEnter
  enter-AllEnter short_circuit m = bop-Enters sh m.mtok m
  enter-AllEnter left_right m = Enters-noeval m m.noeval (omega arith)
  enter-AllEnter right_left m = Enters-noeval m m.noeval (omega arith)

  pub argument_prec-le : (t : Token) → argument_prec t ≤ prec t
  unfolding argument_prec
  argument_prec-le t = ground arith
