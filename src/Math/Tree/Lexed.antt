-- ===== src/Math/Tree/Lexed.antt =====
-- The other tokens of a written expression, as `zzlex` of Src/math.c reads them.
use winzsh.Prelude.{
  ℕ, ◌≤◌, ◌≡◌, refl, List, [], ◌∷◌, ◌++◌, Bool, true, false, inl, inr, Bool-cases, ◌==◌, arith,
}
use winzsh.Prelude.Lists.{length, length-append}
use winzsh.Math.Token.{Token}
use winzsh.Math.State.{Shell, MathValue, Math}
use winzsh.Math.Lex.{punct, or_eq, doubled, sign_token, not_token, skip_space, lex_byte, zzlex}
use winzsh.Prelude.Runs.{ran}
use winzsh.Math.Parse.{next_token}
use winzsh.Math.Tree.{
  Prefix, Binary, lnot, comp, band, bxor, bor, mul, les, gre, shleft, shright, dand, dor, dxor,
  power, divide, modulo, plus, minus, leq, geq, deq, neq, comma, prefix_token, prefix_symbol, token,
  symbol,
}
use winzsh.Math.Tree.Numeral.{starts, ends_numeral, reading}

module _ {P : Type 0} (sh : Shell P) where
  pub next_token_open :
      (m : Math P) (s : List ℕ) (u : Bool) (st : List MathValue) (y : ℕ)
      → next_token sh (reading m (b'(' ∷ s) u st y)
        ≡ ran (record (reading m s true st y) { mtok = Token.m_inpar })
  unfolding next_token zzlex lex_byte skip_space punct
  next_token_open m s u st y = refl

  not_eq : (c : ℕ) → starts c ≡ true → (c == b'=') ≡ false
  not_eq c h = ground (arith, h)

  pub next_token_prefix :
      (m : Math P) (o : Prefix) (c : ℕ) (s : List ℕ) (u : Bool) (st : List MathValue) (y : ℕ)
      → starts c ≡ true
      → next_token sh (reading m (prefix_symbol o ∷ c ∷ s) u st y)
        ≡ ran (record (reading m (c ∷ s) u st y) { mtok = prefix_token o })
  unfolding next_token zzlex lex_byte skip_space punct not_token
  next_token_prefix m lnot c s u st y h =
      rw (not_eq c h, next_token, zzlex, lex_byte, skip_space, punct, not_token) refl
  next_token_prefix m comp c s u st y h = refl

  -- Behind a value, `s` begins with the token `t`, which leaves `rest`.
  pub record Next (s : List ℕ) (t : Token) (u : Bool) (rest : List ℕ) : Type 0 where
    pub lexes :
        (m : Math P) (st : List MathValue) (y : ℕ)
        → next_token sh (reading m s false st y) ≡ ran (record (reading m rest u st y) { mtok = t })
    pub numeral_ends : ends_numeral s ≡ true
    pub shorter : length rest ≤ length s

  pub Next-end : Next [] Token.eoi true []
  unfolding next_token zzlex lex_byte skip_space ends_numeral
  Next-end = record { lexes = λ m st y. refl; numeral_ends = refl; shorter = omega arith }

  pub Next-close : (s : List ℕ) → Next (b')' ∷ s) Token.m_outpar false s
  unfolding next_token zzlex lex_byte skip_space ends_numeral punct
  Next-close s = record { lexes = λ m st y. refl; numeral_ends = refl; shorter = omega arith }

  -- `unary` behind an infix operator.
  abbrev pub operand_unary : Binary → Bool
  operand_unary plus = false
  operand_unary minus = false
  operand_unary _ = true

  other : (c k : ℕ) → starts c ≡ true → starts k ≡ false → (c == k) ≡ false
  other c k h n = elim (Bool-cases (c == k)) [
    | inl e ↦ absurd (ground (arith, h, n, e))
    | inr e ↦ e
  ]

  next_token_infix :
      (o : Binary) (c : ℕ) (s : List ℕ) (m : Math P) (st : List MathValue) (y : ℕ)
      → starts c ≡ true
      → next_token sh (reading m (symbol o ++ c ∷ s) false st y)
        ≡ ran (record (reading m (c ∷ s) (operand_unary o) st y) { mtok = token o })
  unfolding next_token zzlex lex_byte skip_space punct or_eq doubled sign_token not_token
  next_token_infix band c s m st y h =
      rw (other c b'&' h refl, not_eq c h, next_token, zzlex, lex_byte, skip_space, punct, doubled)
        refl
  next_token_infix bxor c s m st y h =
      rw (other c b'^' h refl, not_eq c h, next_token, zzlex, lex_byte, skip_space, punct, doubled)
        refl
  next_token_infix bor c s m st y h =
      rw (other c b'|' h refl, not_eq c h, next_token, zzlex, lex_byte, skip_space, punct, doubled)
        refl
  next_token_infix mul c s m st y h =
      rw (other c b'*' h refl, not_eq c h, next_token, zzlex, lex_byte, skip_space, punct, doubled)
        refl
  next_token_infix les c s m st y h =
      rw (other c b'<' h refl, not_eq c h, next_token, zzlex, lex_byte, skip_space, punct, doubled)
        refl
  next_token_infix gre c s m st y h =
      rw (other c b'>' h refl, not_eq c h, next_token, zzlex, lex_byte, skip_space, punct, doubled)
        refl
  next_token_infix shleft c s m st y h =
      rw (not_eq c h, next_token, zzlex, lex_byte, skip_space, punct, doubled, or_eq) refl
  next_token_infix shright c s m st y h =
      rw (not_eq c h, next_token, zzlex, lex_byte, skip_space, punct, doubled, or_eq) refl
  next_token_infix dand c s m st y h =
      rw (not_eq c h, next_token, zzlex, lex_byte, skip_space, punct, doubled, or_eq) refl
  next_token_infix dor c s m st y h =
      rw (not_eq c h, next_token, zzlex, lex_byte, skip_space, punct, doubled, or_eq) refl
  next_token_infix dxor c s m st y h =
      rw (not_eq c h, next_token, zzlex, lex_byte, skip_space, punct, doubled, or_eq) refl
  next_token_infix power c s m st y h =
      rw (not_eq c h, next_token, zzlex, lex_byte, skip_space, punct, doubled, or_eq) refl
  next_token_infix divide c s m st y h =
      rw (not_eq c h, next_token, zzlex, lex_byte, skip_space, punct, or_eq) refl
  next_token_infix modulo c s m st y h =
      rw (not_eq c h, next_token, zzlex, lex_byte, skip_space, punct, or_eq) refl
  next_token_infix plus c s m st y h =
      rw
        (
          other c b'+' h refl,
          not_eq c h,
          next_token,
          zzlex,
          lex_byte,
          skip_space,
          punct,
          sign_token,
        )
        refl
  next_token_infix minus c s m st y h =
      rw
        (
          other c b'-' h refl,
          not_eq c h,
          next_token,
          zzlex,
          lex_byte,
          skip_space,
          punct,
          sign_token,
        )
        refl
  next_token_infix leq c s m st y h = refl
  next_token_infix geq c s m st y h = refl
  next_token_infix deq c s m st y h = refl
  next_token_infix neq c s m st y h = refl
  next_token_infix comma c s m st y h = refl

  symbol_ends : (o : Binary) (s : List ℕ) → ends_numeral (symbol o ++ s) ≡ true
  unfolding ends_numeral
  symbol_ends band s = refl
  symbol_ends bxor s = refl
  symbol_ends bor s = refl
  symbol_ends mul s = refl
  symbol_ends les s = refl
  symbol_ends gre s = refl
  symbol_ends shleft s = refl
  symbol_ends shright s = refl
  symbol_ends dand s = refl
  symbol_ends dor s = refl
  symbol_ends dxor s = refl
  symbol_ends power s = refl
  symbol_ends divide s = refl
  symbol_ends modulo s = refl
  symbol_ends plus s = refl
  symbol_ends minus s = refl
  symbol_ends leq s = refl
  symbol_ends geq s = refl
  symbol_ends deq s = refl
  symbol_ends neq s = refl
  symbol_ends comma s = refl

  pub Next-infix :
      (o : Binary) (c : ℕ) (s : List ℕ)
      → starts c ≡ true
      → Next (symbol o ++ c ∷ s) (token o) (operand_unary o) (c ∷ s)
  Next-infix o c s h = record {
    lexes = λ m st y. next_token_infix o c s m st y h;
    numeral_ends = symbol_ends o (c ∷ s);
    shorter = omega (arith, length-append (symbol o) (c ∷ s));
  }
