-- ===== src/Math/Token.antt =====
-- The tokens of Src/math.c with the tables `prec` and `type`.
use winzsh.Prelude.{ℕ}

-- The constants M_INPAR to POWEREQ, in their order. NOT, AND, XOR, OR, DIV and MOD are `lnot`,
-- `band`, `bxor`, `bor`, `divide` and `modulo`.
pub data Token : Type 0 where
  m_inpar m_outpar lnot comp postplus postminus uplus uminus band bxor bor mul divide modulo : Token
  plus minus shleft shright les leq gre geq deq neq dand dor dxor quest colon eq : Token
  pluseq minuseq muleq diveq modeq andeq xoreq oreq shlefteq shrighteq dandeq doreq : Token
  dxoreq comma eoi preplus preminus num id cid power powereq : Token

unfoldable pub prec : Token → ℕ
prec m_inpar = 1
prec m_outpar = 137
prec lnot = 2
prec comp = 2
prec postplus = 2
prec postminus = 2
prec uplus = 2
prec uminus = 2
prec band = 4
prec bxor = 5
prec bor = 6
prec mul = 8
prec divide = 8
prec modulo = 8
prec plus = 9
prec minus = 9
prec shleft = 3
prec shright = 3
prec les = 10
prec leq = 10
prec gre = 10
prec geq = 10
prec deq = 11
prec neq = 11
prec dand = 12
prec dor = 13
prec dxor = 13
prec quest = 14
prec colon = 14
prec comma = 16
prec eoi = 200
prec preplus = 2
prec preminus = 2
prec num = 0
prec id = 0
prec cid = 0
prec power = 7
prec _ = 15

abbrev pub top_prec : ℕ
top_prec = 16

abbrev pub arg_prec : ℕ
arg_prec = 15

-- The entries of `type`: LR, RL and BOOL.
pub data Assoc : Type 0 where
  left_right right_left short_circuit : Assoc

unfoldable pub type_of : Token → Assoc
type_of lnot = right_left
type_of comp = right_left
type_of postplus = right_left
type_of postminus = right_left
type_of uplus = right_left
type_of uminus = right_left
type_of dand = short_circuit
type_of dor = short_circuit
type_of quest = right_left
type_of colon = right_left
type_of eq = right_left
type_of pluseq = right_left
type_of minuseq = right_left
type_of muleq = right_left
type_of diveq = right_left
type_of modeq = right_left
type_of andeq = right_left
type_of xoreq = right_left
type_of oreq = right_left
type_of shlefteq = right_left
type_of shrighteq = right_left
type_of dandeq = short_circuit
type_of doreq = short_circuit
type_of dxoreq = right_left
type_of comma = right_left
type_of eoi = right_left
type_of preplus = right_left
type_of preminus = right_left
type_of power = right_left
type_of powereq = right_left
type_of _ = left_right
