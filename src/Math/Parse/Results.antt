-- ===== src/Math/Parse/Results.antt =====
-- The results of `mathparse`, `mathevall`, `matheval` and `mathevalarg`, Src/math.c.
use winzsh.Prelude.{ℕ, ◌+◌, ◌≤◌, ◌<◌, ◌≡◌, subst, List, [], ◌∷◌, false, Option, none, arith}
use winzsh.Prelude.Lists.{length}
use winzsh.Prelude.Strings.{Str}
use winzsh.Math.Token.{top_prec, arg_prec}
use winzsh.Math.State.{Shell, Math}
use winzsh.Prelude.Runs.{Run, ran, stuck, unfinished, and_then}
use winzsh.Math.Parse.{mathparse, math_start, mathevall, matheval, mathevalarg}
use winzsh.Math.Parse.Steps.{Step, Ends}
use winzsh.Math.Parse.Total.{mathparse-Ends}

-- The run has a result or does what C does not define.
unfoldable pub Finished : {A : Type 0} → Run A → Type 0
Finished unfinished = ⊥
Finished _ = Unit

-- A property of the result, where there is one.
unfoldable When : {A : Type 0} → (A → Type 0) → Run A → Type 0
When Q (ran a) = Q a
When Q _ = Unit

When-ran : {A : Type 0} → (Q : A → Type 0) (o : Run A) (a : A) → When Q o → o ≡ ran a → Q a
unfolding When
When-ran Q o a h e = subst (When Q) e h

Finished-then :
    {A B : Type 0} → (o : Run A) (k : A → B) → Finished o → Finished (and_then o λ a. ran (k a))
unfolding Finished
Finished-then (ran a) k h = tt
Finished-then stuck k h = tt
Finished-then unfinished k h = h

-- What a result of `mathevall` is like.
record Good {P : Type 0} (s : Str) (m : Math P) (x : Option ℕ) (ss : List ℕ) (r : Math P)
    : Type 0 where
  pub no_error : r.errflag ≡ false → (m.errflag ≡ false) × ((x ≡ none) → ⊥)
  pub rest : length ss ≤ length s
  pub same_noeval : r.noeval ≡ m.noeval

module _ {P : Type 0} (sh : Shell P) where
  mathparse-Finished :
      (fuel pc : ℕ) (m : Math P)
      → pc < 200
      → length m.ptr < fuel
      → Finished (mathparse sh fuel pc m)
  mathparse-Finished fuel pc m hp le = by_run _ (mathparse-Ends sh fuel pc m hp le)
    where
      by_run : (o : Run (Math P)) → Ends (length m.ptr) m o → Finished o
      by_run (ran r) e = unfold Finished in tt
      by_run stuck e = unfold Finished in tt
      by_run unfinished e = unfold Ends Finished in e

  mathevall-Finished :
      (s : Str) (prek : ℕ) (m : Math P) → prek < 200 → Finished (mathevall sh s prek m)
  unfolding mathevall math_start
  mathevall-Finished s prek m hp =
      Finished-then (mathparse sh (length s + 2) prek (math_start s m)) _
        (mathparse-Finished (length s + 2) prek (math_start s m) hp (omega arith))

  matheval-Finished : (s : Str) (m : Math P) → Finished (matheval sh s m)
  unfolding matheval
  matheval-Finished [] m = unfold Finished in tt
  matheval-Finished (c ∷ s) m =
      Finished-then (mathevall sh (c ∷ s) top_prec m) _
        (mathevall-Finished (c ∷ s) top_prec m (omega arith))

  -- For every string and every precedence below that of the end of a string, `mathparse`, with
  -- more fuel than the string has bytes, and `mathevall`, `matheval` and `mathevalarg` with the
  -- fuel that they give it, do not run out of fuel.
  pub evaluation-Finished :
      (fuel prek : ℕ) (s : Str) (m : Math P)
      → prek < 200
      → length m.ptr < fuel
      → Finished (mathparse sh fuel prek m)
        × Finished (mathevall sh s prek m)
        × Finished (matheval sh s m)
        × Finished (mathevalarg sh s m)
  unfolding mathevalarg
  evaluation-Finished fuel prek s m hp le = (
    mathparse-Finished fuel prek m hp le,
    mathevall-Finished s prek m hp,
    matheval-Finished s m,
    Finished-then (mathevall sh s arg_prec m) _ (mathevall-Finished s arg_prec m (omega arith)),
  )

  mathparse-When :
      (fuel pc : ℕ) (m : Math P)
      → pc < 200
      → length m.ptr < fuel
      → When (Step (length m.ptr) m) (mathparse sh fuel pc m)
  mathparse-When fuel pc m hp le = by_run _ (mathparse-Ends sh fuel pc m hp le)
    where
      by_run : (o : Run (Math P)) → Ends (length m.ptr) m o → When (Step (length m.ptr) m) o
      by_run (ran r) e = unfold Ends When in e
      by_run stuck e = unfold When in tt
      by_run unfinished e = unfold When in tt

  -- Where `noeval` is set, and with more fuel than the string has bytes, a result of `mathparse`
  -- has the parameters of the state before, whatever assignments were parsed, and `noeval` as it
  -- was.
  pub mathparse_no_effect :
      (fuel pc : ℕ) (m r : Math P)
      → pc < 200
      → length m.ptr < fuel
      → 0 < m.noeval
      → mathparse sh fuel pc m ≡ ran r
      → (r.params ≡ m.params) × (r.noeval ≡ m.noeval)
  mathparse_no_effect fuel pc m r hp le h e =
      let s = When-ran _ _ r (mathparse-When fuel pc m hp le) e in (s.no_effect h, s.same_noeval)
