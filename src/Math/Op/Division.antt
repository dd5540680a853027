-- ===== src/Math/Op/Division.antt =====
-- The cases DIV and MOD of `op` of Src/math.c.
use winzsh.Prelude.{
  ℕ, zero, suc, ◌+◌, ◌-◌, ◌*◌, ◌/◌, ◌%◌, ◌^◌, ◌≤◌, ◌<◌, ◌≡◌, ◌⊎◌, ◌∙◌, refl, sym, ap, List, ◌∷◌,
  Bool, true, false, not, Option, none, some, ◌==◌, ==_iff, if◌then◌else◌, ◌&&◌, Bool-cases, inl,
  inr, arith,
}
use native.Mathlib.Nat.{mul-le-mul_left, div-add-mod', div-le_self, mod-lt}
use winzsh.Prelude.Lists.{length}
use winzsh.Number.{word_mod, negate_word, is_negative}
use winzsh.Math.Token.{Token}
use winzsh.Math.State.{Shell, MathValue, Math}
use winzsh.Math.Word.{
  Calc, value, failed, undefined, notzero, unsigned, same_sign, quotient, remainder,
}
use winzsh.Math.Op.{stack_size, zerr, push, put, setvar, put_calc, set_calc, action, act, op}

-- `q` and `r` are quotient and remainder of the integers `a` and `b`, the quotient cut off
-- towards 0; `unsigned` is the magnitude.
pub record Division (a b q r : ℕ) : Type 0 where
  pub words : (q < word_mod) × (r < word_mod)
  pub magnitudes : unsigned a ≡ unsigned q * unsigned b + unsigned r
  pub less : unsigned r < unsigned b
  pub sign_of_quotient : (q ≡ 0) ⊎ (is_negative q ≡ not (same_sign a b))
  pub sign_of_remainder : (r ≡ 0) ⊎ (is_negative r ≡ is_negative a)

-- A sign put on a magnitude.
abbrev signed : Bool → ℕ → ℕ
signed s x = if s then negate_word x else x

unsigned-signed : (s : Bool) (x : ℕ) → x ≤ 2 ^ 31 → unsigned (signed s x) ≡ x
unsigned-signed s x h = ground (arith, h)

signed-lt : (s : Bool) (x : ℕ) → x ≤ 2 ^ 31 → signed s x < word_mod
signed-lt s x h = ground (arith, h)

signed-negative : (x : ℕ) → x ≤ 2 ^ 31 → (signed true x ≡ 0) ⊎ (is_negative (signed true x) ≡ true)
signed-negative zero h = inl refl
signed-negative (suc x) h = inr (ground (arith, h))

signed-positive : (x : ℕ) → x < 2 ^ 31 → is_negative (signed false x) ≡ false
signed-positive x h = ground (arith, h)

signed-sign :
    (s : Bool) (x : ℕ)
    → x ≤ 2 ^ 31
    → (s ≡ false → x < 2 ^ 31)
    → (signed s x ≡ 0) ⊎ (is_negative (signed s x) ≡ s)
signed-sign true x h k = signed-negative x h
signed-sign false x h k = inr (signed-positive x (k refl))

if_signed : (s : Bool) (x : ℕ) → (if s then x else negate_word x) ≡ signed (not s) x
if_signed true x = refl
if_signed false x = refl

true_from_not : (s : Bool) → not s ≡ false → s ≡ true
true_from_not true h = refl
true_from_not false h = absurd (cc h)

unsigned-le : (a : ℕ) → a < word_mod → unsigned a ≤ 2 ^ 31
unsigned-le a h = ground (arith, h)

unsigned-pos : (a : ℕ) → (a == 0) ≡ false → a < word_mod → 0 < unsigned a
unsigned-pos a n h = ground (arith, n)

-- A quotient of two integers of one sign is below 2 ^ 31, but for the least one and -1.
quotient-small : (x y q r : ℕ) → x ≡ q * y + r → x ≤ 2 ^ 31 → 1 < y → q < 2 ^ 31
quotient-small x y q r e hx hy = omega (arith, e, hx, mul-le-mul_left q hy)

abbrev is_least : ℕ → ℕ → Bool
is_least a b = a == 2 ^ 31 && b == word_mod - 1

small_or_less :
    (a b : ℕ)
    → a < word_mod
    → b < word_mod
    → (b == 0) ≡ false
    → is_least a b ≡ false
    → same_sign a b ≡ true
    → (unsigned a < 2 ^ 31) ⊎ (1 < unsigned b)
small_or_less a b ha hb nz least same = elim (Bool-cases (a == 2 ^ 31)) [
  | inl e ↦ inr (ground (arith, ha, hb, nz, least, same, e))
  | inr e ↦ inl (ground (arith, ha, e))
]

module _ (a b : ℕ) (ha : a < word_mod) (hb : b < word_mod) (nz : (b == 0) ≡ false)
    (least : is_least a b ≡ false) where
  abbrev x : ℕ
  x = unsigned a

  abbrev y : ℕ
  y = unsigned b

  quotient-le : x / y ≤ 2 ^ 31
  quotient-le = omega (arith, div-le_self x y, unsigned-le a ha)

  remainder-lt : x % y < y
  remainder-lt = mod-lt x (unsigned-pos b nz hb)

  remainder-le : x % y < 2 ^ 31
  remainder-le = omega (arith, remainder-lt, unsigned-le b hb)

  quotient-lt : same_sign a b ≡ true → x / y < 2 ^ 31
  quotient-lt same = elim (small_or_less a b ha hb nz least same) [
    | inl h ↦ omega (arith, div-le_self x y, h)
    | inr h ↦ quotient-small x y (x / y) (x % y) (sym (div-add-mod' x y)) (unsigned-le a ha) h
  ]

  abbrev q : ℕ
  q = signed (not (same_sign a b)) (x / y)

  abbrev r : ℕ
  r = signed (is_negative a) (x % y)

  the_signs :
      ((q ≡ 0) ⊎ (is_negative q ≡ not (same_sign a b)))
      × ((r ≡ 0) ⊎ (is_negative r ≡ is_negative a))
  the_signs = (
    signed-sign (not (same_sign a b)) (x / y) quotient-le
        (λ e. quotient-lt (true_from_not (same_sign a b) e)),
    signed-sign (is_negative a) (x % y) (omega (arith, remainder-le)) (λ e. remainder-le),
  )

  the-Division : Division a b q r
  the-Division =
      let uq = unsigned-signed (not (same_sign a b)) (x / y) quotient-le in
      let ur = unsigned-signed (is_negative a) (x % y) (omega (arith, remainder-le)) in
      record {
        words = (
          signed-lt (not (same_sign a b)) (x / y) quotient-le,
          signed-lt (is_negative a) (x % y) (omega (arith, remainder-le)),
        );
        magnitudes = rw (uq, ur) (sym (div-add-mod' x y));
        less = rw ur remainder-lt;
        sign_of_quotient = the_signs.0;
        sign_of_remainder = the_signs.1;
      }

  quotient_lem : quotient a b ≡ value q
  unfolding quotient
  quotient_lem = rw (nz, least, quotient) (ap value (if_signed (same_sign a b) (x / y)))

  remainder_lem : remainder a b ≡ value r
  unfolding remainder
  remainder_lem = rw (nz, least, remainder) refl

none_in_c :
    (a b : ℕ)
    → (b == 0) ≡ false
    → is_least a b ≡ true
    → (notzero quotient a b ≡ undefined) × (notzero remainder a b ≡ undefined)
unfolding quotient remainder
none_in_c a b nz l = (rw (nz, l, quotient) refl, rw (nz, l, remainder) refl)

-- `op` with the two values on top of the stack.
module _ {P : Type 0} (sh : Shell P) (m : Math P) (va vb : MathValue) (rest : List MathValue) where
  abbrev pub popped : Math P
  popped = record m { stack = rest }

  abbrev pub pushed : ℕ → Math P
  pushed v = record m { stack = record { val = v; lval = none } ∷ rest }

  -- What the old value of the variable is replaced by, and what is pushed for it.
  abbrev pub with_variable : ℕ → Math P
  with_variable v = let (m', v') = setvar sh va.lval v popped in put va.lval v' m'

  -- The results of `/`, `%`, `/=` and `%=`.
  abbrev pub Gives : (by_divide by_modulo by_diveq by_modeq : Option (Math P)) → Type 0
  Gives d r dq rq =
      (op sh Token.divide m ≡ d)
      × (op sh Token.modulo m ≡ r)
      × (op sh Token.diveq m ≡ dq)
      × (op sh Token.modeq m ≡ rq)

  results :
      (c d : Calc)
      → m.stack ≡ vb ∷ va ∷ rest
      → notzero quotient va.val vb.val ≡ c
      → notzero remainder va.val vb.val ≡ d
      → Gives
          (put_calc sh c popped)
          (put_calc sh d popped)
          (set_calc sh va.lval c popped)
          (set_calc sh va.lval d popped)
  unfolding op action act
  results c d st ec ed = (
    rw (st, op) (ap (λ (k : Calc). put_calc sh k popped) ec),
    rw (st, op) (ap (λ (k : Calc). put_calc sh k popped) ed),
    rw (st, op) (ap (λ (k : Calc). set_calc sh va.lval k popped) ec),
    rw (st, op) (ap (λ (k : Calc). set_calc sh va.lval k popped) ed),
  )

  room : (v : ℕ) → length rest < stack_size → put none v popped ≡ pushed v
  unfolding put push
  room v h = rw (full (length rest) h) refl
    where
      full : (n : ℕ) → n < stack_size → (n == stack_size) ≡ false
      full n h = ground (arith, h)

  divided :
      (q r : ℕ)
      → m.stack ≡ vb ∷ va ∷ rest
      → length rest < stack_size
      → notzero quotient va.val vb.val ≡ value q
      → notzero remainder va.val vb.val ≡ value r
      → Gives (some (pushed q)) (some (pushed r)) (some (with_variable q)) (some (with_variable r))
  unfolding put_calc set_calc
  divided q r st h eq er =
      let (d, e, dq, rq) = results (value q) (value r) st eq er in
      (d ∙ ap some (room q h), e ∙ ap some (room r h), dq, rq)

  by_zero :
      m.stack ≡ vb ∷ va ∷ rest
      → vb.val ≡ 0
      → Gives (some (zerr popped)) (some (zerr popped)) (some (zerr popped)) (some (zerr popped))
  unfolding put_calc set_calc
  by_zero st z = results failed failed st (ground (arith, z)) (ground (arith, z))

  no_result :
      m.stack ≡ vb ∷ va ∷ rest
      → (vb.val == 0) ≡ false
      → is_least va.val vb.val ≡ true
      → Gives none none none none
  unfolding put_calc set_calc
  no_result st nz l =
      let (e, f) = none_in_c va.val vb.val nz l in results undefined undefined st e f

  -- With two words on top of the stack and room on it, `op` for `/`, `%`, `/=` and `%=` takes
  -- both off: for a divisor of 0 that is an error and no more; for the least integer and -1 C has
  -- no result; else there are the quotient, cut off towards 0, and the remainder, with the sign
  -- of the dividend, of the lower value by the upper one, `/` and `%` push them as no lvalue, and
  -- `/=` and `%=` give them to `setvar` for the variable of the lower value and push what it
  -- returns with that variable.
  pub op-Division :
      m.stack ≡ vb ∷ va ∷ rest
      → length rest < stack_size
      → va.val < word_mod
      → vb.val < word_mod
      → ((vb.val ≡ 0)
          × Gives
              (some (zerr popped))
              (some (zerr popped))
              (some (zerr popped))
              (some (zerr popped)))
        ⊎ ((va.val ≡ 2 ^ 31) × (vb.val ≡ word_mod - 1) × Gives none none none none)
        ⊎ ((q : ℕ) × (r : ℕ) × Division va.val vb.val q r
            × Gives
                (some (pushed q))
                (some (pushed r))
                (some (with_variable q))
                (some (with_variable r)))
  op-Division st h ha hb = elim (Bool-cases (vb.val == 0)) [
    | inl z ↦ inl ((==_iff vb.val 0).0 z, by_zero st ((==_iff vb.val 0).0 z))
    | inr nz ↦ elim (Bool-cases (is_least va.val vb.val)) [
      | inl l ↦ inr (inl (ground (arith, l), ground (arith, l), no_result st nz l))
      | inr l ↦ inr (
          inr (
            q va.val vb.val ha hb nz l,
            r va.val vb.val ha hb nz l,
            the-Division va.val vb.val ha hb nz l,
            divided _ _ st h (rw nz (quotient_lem va.val vb.val ha hb nz l))
                (rw nz (remainder_lem va.val vb.val ha hb nz l)),
          ))
    ]
  ]
