-- ===== src/Math/Tree/Levels.antt =====
-- The precedences of the infix operators, and how a written expression begins.
use winzsh.Prelude.{
  ℕ, suc, ◌≤◌, ◌<◌, ◌≡◌, refl, ap, List, [], ◌∷◌, ◌++◌, map, Bool, true, false, ltb, arith,
}
use winzsh.Prelude.Lists.{length}
use winzsh.Math.Token.{prec, type_of}
use winzsh.Math.Parse.{argument_prec}
use winzsh.Math.Tree.{
  Binary, Expr, num, prefixed, infixed, token, symbol, digit, parens, left_prec, print, lnot, comp,
  band, bxor, bor, mul, divide, modulo, plus, minus, shleft, shright, les, leq, gre, geq, deq, neq,
  dand, dor, dxor, comma, power,
}
use winzsh.Math.Tree.Numeral.{starts}

pub left_prec-le : (o : Binary) → left_prec o ≤ prec (token o)
unfolding left_prec
left_prec-le o = ground arith

pub argument_prec-le : (o : Binary) → argument_prec (token o) ≤ prec (token o)
unfolding argument_prec
argument_prec-le o = ground arith

pub prec-bounds : (o : Binary) → (4 ≤ suc (prec (token o))) × (prec (token o) ≤ 16)
unfolding prec
prec-bounds band = (omega arith, omega arith)
prec-bounds bxor = (omega arith, omega arith)
prec-bounds bor = (omega arith, omega arith)
prec-bounds mul = (omega arith, omega arith)
prec-bounds divide = (omega arith, omega arith)
prec-bounds modulo = (omega arith, omega arith)
prec-bounds plus = (omega arith, omega arith)
prec-bounds minus = (omega arith, omega arith)
prec-bounds shleft = (omega arith, omega arith)
prec-bounds shright = (omega arith, omega arith)
prec-bounds les = (omega arith, omega arith)
prec-bounds leq = (omega arith, omega arith)
prec-bounds gre = (omega arith, omega arith)
prec-bounds geq = (omega arith, omega arith)
prec-bounds deq = (omega arith, omega arith)
prec-bounds neq = (omega arith, omega arith)
prec-bounds dand = (omega arith, omega arith)
prec-bounds dor = (omega arith, omega arith)
prec-bounds dxor = (omega arith, omega arith)
prec-bounds comma = (omega arith, omega arith)
prec-bounds power = (omega arith, omega arith)

-- Operators of the precedence of `**` are right associative, and so is the comma.
power_level : (o : Binary) → 7 ≤ left_prec o → 7 < prec (token o)
unfolding left_prec prec type_of
power_level band h = omega (arith, h)
power_level bxor h = omega (arith, h)
power_level bor h = omega (arith, h)
power_level mul h = omega (arith, h)
power_level divide h = omega (arith, h)
power_level modulo h = omega (arith, h)
power_level plus h = omega (arith, h)
power_level minus h = omega (arith, h)
power_level shleft h = omega (arith, h)
power_level shright h = omega (arith, h)
power_level les h = omega (arith, h)
power_level leq h = omega (arith, h)
power_level gre h = omega (arith, h)
power_level geq h = omega (arith, h)
power_level deq h = omega (arith, h)
power_level neq h = omega (arith, h)
power_level dand h = omega (arith, h)
power_level dor h = omega (arith, h)
power_level dxor h = omega (arith, h)
power_level comma h = omega (arith, h)
power_level power h = omega (arith, h)

comma_level : (o : Binary) → left_prec o < 16
unfolding left_prec prec type_of
comma_level band = omega arith
comma_level bxor = omega arith
comma_level bor = omega arith
comma_level mul = omega arith
comma_level divide = omega arith
comma_level modulo = omega arith
comma_level plus = omega arith
comma_level minus = omega arith
comma_level shleft = omega arith
comma_level shright = omega arith
comma_level les = omega arith
comma_level leq = omega arith
comma_level gre = omega arith
comma_level geq = omega arith
comma_level deq = omega arith
comma_level neq = omega arith
comma_level dand = omega arith
comma_level dor = omega arith
comma_level dxor = omega arith
comma_level comma = omega arith
comma_level power = omega arith

-- What may stand on the left of `o` without parentheses ends before `o`.
pub left_ends :
    (o p : Binary) → prec (token p) ≤ left_prec o → argument_prec (token p) < prec (token o)
unfolding argument_prec type_of prec
left_ends o band h = omega (arith, h, left_prec-le o)
left_ends o bxor h = omega (arith, h, left_prec-le o)
left_ends o bor h = omega (arith, h, left_prec-le o)
left_ends o mul h = omega (arith, h, left_prec-le o)
left_ends o divide h = omega (arith, h, left_prec-le o)
left_ends o modulo h = omega (arith, h, left_prec-le o)
left_ends o plus h = omega (arith, h, left_prec-le o)
left_ends o minus h = omega (arith, h, left_prec-le o)
left_ends o shleft h = omega (arith, h, left_prec-le o)
left_ends o shright h = omega (arith, h, left_prec-le o)
left_ends o les h = omega (arith, h, left_prec-le o)
left_ends o leq h = omega (arith, h, left_prec-le o)
left_ends o gre h = omega (arith, h, left_prec-le o)
left_ends o geq h = omega (arith, h, left_prec-le o)
left_ends o deq h = omega (arith, h, left_prec-le o)
left_ends o neq h = omega (arith, h, left_prec-le o)
left_ends o dand h = omega (arith, h, left_prec-le o)
left_ends o dor h = omega (arith, h, left_prec-le o)
left_ends o dxor h = omega (arith, h, left_prec-le o)
left_ends o comma h = absurd (omega (arith, h, comma_level o))
left_ends o power h = omega (arith, power_level o h)

pub left_prec-pos : (o : Binary) → 2 ≤ left_prec o
unfolding left_prec prec type_of
left_prec-pos band = omega arith
left_prec-pos bxor = omega arith
left_prec-pos bor = omega arith
left_prec-pos mul = omega arith
left_prec-pos divide = omega arith
left_prec-pos modulo = omega arith
left_prec-pos plus = omega arith
left_prec-pos minus = omega arith
left_prec-pos shleft = omega arith
left_prec-pos shright = omega arith
left_prec-pos les = omega arith
left_prec-pos leq = omega arith
left_prec-pos gre = omega arith
left_prec-pos geq = omega arith
left_prec-pos deq = omega arith
left_prec-pos neq = omega arith
left_prec-pos dand = omega arith
left_prec-pos dor = omega arith
left_prec-pos dxor = omega arith
left_prec-pos comma = omega arith
left_prec-pos power = omega arith

pub argument_prec-pos : (o : Binary) → 2 ≤ argument_prec (token o)
unfolding argument_prec prec type_of
argument_prec-pos band = omega arith
argument_prec-pos bxor = omega arith
argument_prec-pos bor = omega arith
argument_prec-pos mul = omega arith
argument_prec-pos divide = omega arith
argument_prec-pos modulo = omega arith
argument_prec-pos plus = omega arith
argument_prec-pos minus = omega arith
argument_prec-pos shleft = omega arith
argument_prec-pos shright = omega arith
argument_prec-pos les = omega arith
argument_prec-pos leq = omega arith
argument_prec-pos gre = omega arith
argument_prec-pos geq = omega arith
argument_prec-pos deq = omega arith
argument_prec-pos neq = omega arith
argument_prec-pos dand = omega arith
argument_prec-pos dor = omega arith
argument_prec-pos dxor = omega arith
argument_prec-pos comma = omega arith
argument_prec-pos power = omega arith

pub symbol-pos : (o : Binary) → 1 ≤ length (symbol o)
symbol-pos band = omega arith
symbol-pos bxor = omega arith
symbol-pos bor = omega arith
symbol-pos mul = omega arith
symbol-pos divide = omega arith
symbol-pos modulo = omega arith
symbol-pos plus = omega arith
symbol-pos minus = omega arith
symbol-pos shleft = omega arith
symbol-pos shright = omega arith
symbol-pos les = omega arith
symbol-pos leq = omega arith
symbol-pos gre = omega arith
symbol-pos geq = omega arith
symbol-pos deq = omega arith
symbol-pos neq = omega arith
symbol-pos dand = omega arith
symbol-pos dor = omega arith
symbol-pos dxor = omega arith
symbol-pos comma = omega arith
symbol-pos power = omega arith

-- A string that begins like an expression.
pub record Begins (s : List ℕ) : Type 0 where
  pub head : ℕ
  pub tail : List ℕ
  pub is_begin : s ≡ head ∷ tail
  pub start : starts head ≡ true

cons-Begins : (c : ℕ) (s : List ℕ) → starts c ≡ true → Begins (c ∷ s)
cons-Begins c s h = record { head = c; tail = s; is_begin = refl; start = h }

append-Begins : (s t : List ℕ) → Begins s → Begins (s ++ t)
append-Begins s t b = record {
  head = b.head;
  tail = b.tail ++ t;
  is_begin = ap (λ (x : List ℕ). x ++ t) b.is_begin;
  start = b.start;
}

parens-Begins : (needed : Bool) (s : List ℕ) → Begins s → Begins (parens needed s)
parens-Begins true s b = cons-Begins b'(' (s ++ (b')' ∷ [])) refl
parens-Begins false s b = b

pub print-Begins : (e : Expr) (p : ℕ) → Begins (print p e)
unfolding print
print-Begins (num d ds) p = cons-Begins (digit d) (map digit ds) (ground arith)
print-Begins (prefixed lnot e) p = parens-Begins (ltb p 2) _ (cons-Begins b'!' (print 2 e) refl)
print-Begins (prefixed comp e) p = parens-Begins (ltb p 2) _ (cons-Begins b'~' (print 2 e) refl)
print-Begins (infixed o l r) p = parens-Begins (ltb p (prec (token o))) _ (
    append-Begins _ (print (argument_prec (token o)) r)
      (append-Begins _ (symbol o) (print-Begins l (left_prec o))))

pub print_on-Begins : (e : Expr) (p : ℕ) (t : List ℕ) → Begins (print p e ++ t)
print_on-Begins e p t = append-Begins (print p e) t (print-Begins e p)
