-- ===== src/Math/Op/Enters.antt =====
-- What `bop` of Src/math.c leaves alone.
use winzsh.Prelude.{
  ℕ, suc, ◌≤◌, ◌≡◌, refl, List, [], ◌∷◌, Bool, true, false, Option, none, some, ◌==◌, if◌then◌else◌,
  arith,
}
use winzsh.Math.Token.{Token}
use winzsh.Math.State.{Shell, MathValue, Math}
use winzsh.Math.Op.{bop, noeval_if_zero, noeval_unless_zero}

module _ {P : Type 0} where
  -- `bop` changes `noeval` alone, and only upwards.
  pub record Enters (m r : Math P) : Type 0 where
    pub same_ptr : r.ptr ≡ m.ptr
    pub same_params : r.params ≡ m.params
    pub same_error : r.errflag ≡ m.errflag
    pub more : m.noeval ≤ r.noeval

  unfoldable pub AllEnter : Math P → Option (Math P) → Type 0
  AllEnter m none = Unit
  AllEnter m (some r) = Enters m r

  pub Enters-noeval : (m : Math P) (n : ℕ) → m.noeval ≤ n → Enters m (record m { noeval = n })
  Enters-noeval m n le = record {
    same_ptr = refl;
    same_params = refl;
    same_error = refl;
    more = le;
  }

  on_test :
      (m : Math P) (b : Bool)
      → AllEnter m (if b then some (record m { noeval = suc m.noeval }) else some m)
  unfolding AllEnter
  on_test m true = Enters-noeval m (suc m.noeval) (omega arith)
  on_test m false = Enters-noeval m m.noeval (omega arith)

  off_test :
      (m : Math P) (b : Bool)
      → AllEnter m (if b then some m else some (record m { noeval = suc m.noeval }))
  unfolding AllEnter
  off_test m true = Enters-noeval m m.noeval (omega arith)
  off_test m false = Enters-noeval m (suc m.noeval) (omega arith)

  module _ (sh : Shell P) where
    if_zero-Enters : (st : List MathValue) (m : Math P) → AllEnter m (noeval_if_zero sh st m)
    unfolding noeval_if_zero AllEnter
    if_zero-Enters [] m = tt
    if_zero-Enters (x ∷ st) m = on_test m (x.val == 0)

    unless_zero-Enters :
        (st : List MathValue) (m : Math P) → AllEnter m (noeval_unless_zero sh st m)
    unfolding noeval_unless_zero AllEnter
    unless_zero-Enters [] m = tt
    unless_zero-Enters (x ∷ st) m = off_test m (x.val == 0)

    pub bop-Enters : (t : Token) (m : Math P) → AllEnter m (bop sh t m)
    unfolding bop AllEnter
    bop-Enters Token.dand m = if_zero-Enters m.stack m
    bop-Enters Token.dandeq m = if_zero-Enters m.stack m
    bop-Enters Token.dor m = unless_zero-Enters m.stack m
    bop-Enters Token.doreq m = unless_zero-Enters m.stack m
    bop-Enters _ m = Enters-noeval m m.noeval (omega arith)
