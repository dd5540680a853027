-- ===== src/Math/Op.antt =====
-- The value stack of Src/math.c: `push`, `getcvar`, `setvar`, `op` and `bop`.
pub mod Division
pub mod Enters
pub mod Keeps
use winzsh.Prelude.{
  ℕ, zero, suc, ◌+◌, ◌-◌, ◌*◌, ◌%◌, List, [], ◌∷◌, Bool, true, false, not, Option, none, some,
  bit_and, bit_or, bit_xor, ◌==◌, ◌&&◌, ◌||◌, if◌then◌else◌,
}
use winzsh.Prelude.Lists.{length, get_or}
use winzsh.Prelude.Strings.{Str}
use winzsh.Chars.{meta}
use winzsh.Meta.{flip}
use winzsh.Number.{word_mod, negate_word}
use winzsh.Math.Token
use winzsh.Math.Token.{Token}
use winzsh.Math.Word.{
  Calc, value, failed, undefined, truth, nonzero, below, notzero, quotient, remainder, shift_left,
  shift_right, raised, exclusive,
}
use winzsh.Math.State.{Shell, MathValue, Math}

-- What a token does to the stack: to its top, to a variable and the top, to the two values on top,
-- to these and the variable of the lower one, to three, or nothing.
pub data Action : Type 0 where
  monadic : (ℕ → ℕ) → Action
  increment : (prefix : Bool) (by : ℕ) → Action
  binary : (ℕ → ℕ → Calc) → Action
  assign : (ℕ → ℕ → Calc) → Action
  ternary : Action
  nothing : Action
  out_of_integers : Action

abbrev plain : (ℕ → ℕ → ℕ) → ℕ → ℕ → Calc
plain f a b = value (f a b)

abbrev test : (ℕ → ℕ → Bool) → ℕ → ℕ → Calc
test f a b = value (truth (f a b))

abbrev pub sum : ℕ → ℕ → Calc
sum = plain (λ a b. (a + b) % word_mod)

abbrev pub difference : ℕ → ℕ → Calc
difference = plain (λ a b. (a + word_mod - b) % word_mod)

abbrev pub product : ℕ → ℕ → Calc
product = plain (λ a b. a * b % word_mod)

abbrev both : ℕ → ℕ → Calc
both = test (λ a b. nonzero a && nonzero b)

abbrev either : ℕ → ℕ → Calc
either = test (λ a b. nonzero a || nonzero b)

-- The `switch` of `op`.
unfoldable pub action : Token → Action
action Token.lnot = monadic (λ a. truth (a == 0))
action Token.comp = monadic (λ a. word_mod - 1 - a)
action Token.postplus = increment false 1
action Token.postminus = increment false (word_mod - 1)
action Token.uplus = monadic (λ a. a)
action Token.uminus = monadic negate_word
action Token.band = binary (plain bit_and)
action Token.bxor = binary (plain bit_xor)
action Token.bor = binary (plain bit_or)
action Token.mul = binary product
action Token.divide = binary (notzero quotient)
action Token.modulo = binary (notzero remainder)
action Token.plus = binary sum
action Token.minus = binary difference
action Token.shleft = binary shift_left
action Token.shright = binary shift_right
action Token.les = binary (test below)
action Token.leq = binary (test (λ a b. not (below b a)))
action Token.gre = binary (test (λ a b. below b a))
action Token.geq = binary (test (λ a b. not (below a b)))
action Token.deq = binary (test (λ a b. a == b))
action Token.neq = binary (test (λ a b. not (a == b)))
action Token.dand = binary both
action Token.dor = binary either
action Token.dxor = binary (test exclusive)
action Token.quest = ternary
action Token.colon = nothing
action Token.eq = assign (plain (λ a b. b))
action Token.pluseq = assign sum
action Token.minuseq = assign difference
action Token.muleq = assign product
action Token.diveq = assign (notzero quotient)
action Token.modeq = assign (notzero remainder)
action Token.andeq = assign (plain bit_and)
action Token.xoreq = assign (plain bit_xor)
action Token.oreq = assign (plain bit_or)
action Token.shlefteq = assign shift_left
action Token.shrighteq = assign shift_right
action Token.dandeq = assign both
action Token.doreq = assign either
action Token.dxoreq = assign (test exclusive)
action Token.comma = binary (plain (λ a b. b))
action Token.preplus = increment true 1
action Token.preminus = increment true (word_mod - 1)
action Token.power = binary raised
action Token.powereq = assign raised
action _ = out_of_integers

abbrev pub stack_size : ℕ
stack_size = 100

abbrev pub name_at : List Str → ℕ → Option Str
name_at [] i = none
name_at (x ∷ xs) zero = some x
name_at (x ∷ xs) (suc i) = name_at xs i

module _ {P : Type 0} where
  abbrev pub zerr : Math P → Math P
  zerr m = record m { errflag = true }

  -- A full stack loses its top.
  unfoldable pub push : MathValue → Math P → Math P
  push v m =
      if length m.stack == stack_size
      then record m { stack = elim m.stack [ [] ↦ v ∷ [] | x ∷ rest ↦ v ∷ rest ]; errflag = true }
      else record m { stack = v ∷ m.stack }

  -- An argument of the action that is missing is an error, and leaves the stack as it is.
  unfoldable pub put : Option ℕ → ℕ → Math P → Math P
  unfolding push
  put lval v m = push (record { val = v; lval = lval }) m

  module _ (sh : Shell P) where
    -- `getiparam(lvals[s])`, and the first byte of the value for a name behind `#`.
    unfoldable pub variable : Math P → ℕ → Math P × ℕ
    variable m i = elim (name_at m.lvals i) [
      | none ↦ (m, 0)
      | some s ↦
          let (v, p, bad) = sh.getiparam m.params s in
          (record m { params = p; errflag = m.errflag || bad }, v)
    ]

    unfoldable pub getcvar : Math P → ℕ → ℕ
    getcvar m i = elim (name_at m.lvals i) [
      | none ↦ 0
      | some s ↦ elim (sh.getsparam m.params s) [
        | none ↦ 0
        | some t ↦ if get_or t 0 0 == meta then flip (get_or t 1 0) else get_or t 0 0
      ]
    ]

    -- The value, and `none` for an lvalue that is none.
    unfoldable pub setvar : Option ℕ → ℕ → Math P → Math P × ℕ
    setvar none v m = (zerr m, 0)
    setvar (some i) v m = elim (name_at m.lvals i) [
      | none ↦ (zerr m, 0)
      | some s ↦
          let (p, bad) = sh.setiparam m.params s v in
          if m.noeval == 0 then (record m { params = p; errflag = m.errflag || bad }, v) else (m, v)
    ]

    -- `set(X)` and `pushv(X)`. The last result stands for what C does not define.
    unfoldable pub put_calc : Calc → Math P → Option (Math P)
    unfolding put
    put_calc (value v) m = some (put none v m)
    put_calc failed m = some (zerr m)
    put_calc undefined m = none

    unfoldable pub set_calc : Option ℕ → Calc → Math P → Option (Math P)
    unfolding put
    set_calc lv (value v) m = let (m', v') = setvar lv v m in some (put lv v' m')
    set_calc lv failed m = some (zerr m)
    set_calc lv undefined m = none

    -- The stack is `top ∷ rest`.
    unfoldable pub act : Action → MathValue → List MathValue → Math P → Option (Math P)
    act (monadic f) top rest m =
        some (record m { stack = record { val = f top.val; lval = none } ∷ rest })
    act (increment false by) top rest m = some (setvar top.lval ((top.val + by) % word_mod) m).0
    act (increment true by) top rest m =
        let (m', v) = setvar top.lval ((top.val + by) % word_mod) m in
        some (record m' { stack = record top { val = v } ∷ rest })
    act (binary f) b [] m = some (zerr m)
    act (binary f) b (a ∷ rest) m = put_calc (f a.val b.val) (record m { stack = rest })
    act (assign f) b [] m = some (zerr m)
    act (assign f) b (a ∷ rest) m = set_calc a.lval (f a.val b.val) (record m { stack = rest })
    act ternary c [] m = some (zerr m)
    act ternary c (b ∷ []) m = some (zerr m)
    act ternary c (b ∷ a ∷ rest) m =
        some (put none (if a.val == 0 then c.val else b.val) (record m { stack = rest }))
    act nothing top rest m = some m
    act out_of_integers top rest m = some (zerr m)

    unfoldable pub op : Token → Math P → Option (Math P)
    op t m = elim m.stack [ [] ↦ some (zerr m) | top ∷ rest ↦ act (action t) top rest m ]

    -- `if (!stack[sp].val) noeval++;`. `none`: the stack is empty, and the value before it is read.
    unfoldable pub noeval_if_zero : List MathValue → Math P → Option (Math P)
    noeval_if_zero [] m = none
    noeval_if_zero (x ∷ _) m =
        if x.val == 0 then some (record m { noeval = suc m.noeval }) else some m

    unfoldable pub noeval_unless_zero : List MathValue → Math P → Option (Math P)
    noeval_unless_zero [] m = none
    noeval_unless_zero (x ∷ _) m =
        if x.val == 0 then some m else some (record m { noeval = suc m.noeval })

    unfoldable pub bop : Token → Math P → Option (Math P)
    bop Token.dand m = noeval_if_zero m.stack m
    bop Token.dandeq m = noeval_if_zero m.stack m
    bop Token.dor m = noeval_unless_zero m.stack m
    bop Token.doreq m = noeval_unless_zero m.stack m
    bop _ m = some m
