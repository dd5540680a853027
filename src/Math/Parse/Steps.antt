-- ===== src/Math/Parse/Steps.antt =====
-- How a run of `mathparse` of Src/math.c may change the state.
use winzsh.Prelude.{
  ℕ, suc, ◌≤◌, ◌<◌, ◌≡◌, ◌∙◌, refl, ap, List, true, ◌||◌, Bool-cases, inl, inr, if◌then◌else◌,
  arith,
}
use winzsh.Prelude.Lists.{length}
use winzsh.Math.State.{Math}
use winzsh.Math.Lex.Shorter.{is_eoi}
use winzsh.Math.Op.Keeps.{Keeps}
use winzsh.Math.Op.Enters.{Enters}
use winzsh.Prelude.Runs.{Run, ran, stuck, unfinished, and_then}
use winzsh.Math.Parse.{more_noeval, less_noeval}

module _ {P : Type 0} where
  -- How much there is to read: the string and the token, unless this is the last or the loops are
  -- to end on an error.
  unfoldable pub weight : Math P → ℕ
  unfolding is_eoi
  weight m = if m.errflag || is_eoi m.mtok then 0 else suc (length m.ptr)

  -- From `m` to `r`, with `w` to read at most.
  pub record Step (w : ℕ) (m r : Math P) : Type 0 where
    pub left : weight r ≤ w
    pub shorter : length r.ptr ≤ length m.ptr
    pub same_noeval : r.noeval ≡ m.noeval
    pub no_effect : 0 < m.noeval → r.params ≡ m.params
    pub keeps_error : m.errflag ≡ true → r.errflag ≡ true

  unfoldable pub Ends : ℕ → Math P → Run (Math P) → Type 0
  Ends w m (ran r) = Step w m r
  Ends w m stuck = Unit
  Ends w m unfinished = ⊥

  pub weight-le : (m : Math P) → weight m ≤ suc (length m.ptr)
  unfolding weight
  weight-le m = ground arith

  pub weight_error : (m : Math P) → m.errflag ≡ true → weight m ≡ 0
  unfolding weight
  weight_error m e = rw e refl

  pub Keeps-weight : (m r : Math P) → Keeps m r → weight r ≤ weight m
  unfolding weight
  Keeps-weight m r k =
      let same : suc (length r.ptr) ≡ suc (length m.ptr) =
        ap (λ (p : List ℕ). suc (length p)) k.same_ptr in
      elim (Bool-cases m.errflag) [
        | inl e ↦ rw (k.keeps_error e) (omega arith)
        | inr e ↦
            rw (e, k.same_mtok, same)
              (elim (Bool-cases (r.errflag)) [
                | inl b ↦ rw b (omega arith)
                | inr b ↦ rw b (omega arith)
              ])
      ]

  pub Step-Keeps : (w : ℕ) (m r s : Math P) → Step w m r → Keeps r s → Step w m s
  Step-Keeps w m r s a k = record {
    left = omega (arith, a.left, Keeps-weight r s k);
    shorter = rw (k.same_ptr) a.shorter;
    same_noeval = k.same_noeval ∙ a.same_noeval;
    no_effect = λ h. k.no_effect (omega (arith, h, a.same_noeval)) ∙ a.no_effect h;
    keeps_error = λ e. k.keeps_error (a.keeps_error e);
  }

  pub Step-trans : (v w : ℕ) (m r s : Math P) → Step v m r → Step w r s → Step w m s
  Step-trans v w m r s a b = record {
    left = b.left;
    shorter = omega (arith, a.shorter, b.shorter);
    same_noeval = b.same_noeval ∙ a.same_noeval;
    no_effect = λ h. b.no_effect (omega (arith, h, a.same_noeval)) ∙ a.no_effect h;
    keeps_error = λ e. b.keeps_error (a.keeps_error e);
  }

  pub Step-Keeps-refl : (m r : Math P) → Keeps m r → Step (weight m) m r
  Step-Keeps-refl m r k = record {
    left = Keeps-weight m r k;
    shorter = rw (k.same_ptr) (omega arith);
    same_noeval = k.same_noeval;
    no_effect = k.no_effect;
    keeps_error = k.keeps_error;
  }

  -- A run that goes on from where another one ended.
  pub Ends-trans :
      (v w w' : ℕ) (m r : Math P) (o : Run (Math P))
      → Step v m r
      → w ≤ w'
      → Ends w r o
      → Ends w' m o
  unfolding Ends
  Ends-trans v w w' m r (ran s) a le e =
      let b = Step-trans v w m r s a e in
      record {
        left = omega (arith, b.left, le);
        shorter = b.shorter;
        same_noeval = b.same_noeval;
        no_effect = b.no_effect;
        keeps_error = b.keeps_error;
      }
  Ends-trans v w w' m r stuck a le e = tt
  Ends-trans v w w' m r unfinished a le e = e

  pub Ends-then :
      (v w : ℕ) (m n : Math P) (o : Run (Math P)) (k : Math P → Run (Math P))
      → Ends v n o
      → ((r : Math P) → Step v n r → Ends w m (k r))
      → Ends w m (and_then o k)
  unfolding Ends
  Ends-then v w m n (ran r) k h f = f r h
  Ends-then v w m n stuck k h f = tt
  Ends-then v w m n unfinished k h f = absurd h

  pub weaken : (v w : ℕ) (m r : Math P) → v ≤ w → Step v m r → Step w m r
  weaken v w m r le s = record {
    left = omega (arith, s.left, le);
    shorter = s.shorter;
    same_noeval = s.same_noeval;
    no_effect = s.no_effect;
    keeps_error = s.keeps_error;
  }

  -- `noeval = onoeval;`
  pub noeval_restored :
      (v : ℕ) (m m₁ r : Math P)
      → Enters m m₁
      → Step v m₁ r
      → Step v m (record r { noeval = m.noeval })
  unfolding weight
  noeval_restored v m m₁ r e s = record {
    left = s.left;
    shorter = omega (arith, s.shorter, ap (λ (p : List ℕ). length p) e.same_ptr);
    same_noeval = refl;
    no_effect = λ h. s.no_effect (omega (arith, h, e.more)) ∙ e.same_params;
    keeps_error = λ b. s.keeps_error (e.same_error ∙ b);
  }

  -- `noeval++;` before the step and `noeval--;` after it.
  pub lowered : (v : ℕ) (m r : Math P) → Step v (more_noeval m) r → Step v m (less_noeval r)
  unfolding weight
  lowered v m r s = record {
    left = s.left;
    shorter = s.shorter;
    same_noeval = omega (arith, s.same_noeval);
    no_effect = λ h. s.no_effect (omega arith);
    keeps_error = s.keeps_error;
  }
