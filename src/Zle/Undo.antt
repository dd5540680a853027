-- ===== src/Zle/Undo.antt =====
-- Undo: `initundo` and `addundo` of Src/zle_utils.c and `undo` of zle_misc.c. `change` is a null
-- pointer or `len` bytes; `lastline` is memory, as `line` is.
pub mod RoundTrip
use winzsh.Prelude.{
  ℕ, zero, suc, ◌+◌, ◌-◌, ◌%◌, min, List, Bool, true, false, Option, none, some, ltb, ◌==◌, ◌&&◌,
  if◌then◌else◌,
}
use winzsh.Prelude.Lists.{update, slice, write, length}
use winzsh.Zle.Scan.{skip_up}
use winzsh.Zle.Text.{Text, sizeline}

pub record UndoEnt : Type 0 where
  pub pref : ℕ
  pub suff : ℕ
  pub cs : ℕ
  pub change : Option (List ℕ)

pub record History : Type 0 where
  pub text : Text
  pub open text use *
  pub undos : ℕ → UndoEnt
  pub undoct : ℕ
  pub lastline : ℕ → ℕ
  pub lastll : ℕ
  pub lastcs : ℕ
  pub beep : Bool

abbrev pub undo_size : ℕ
undo_size = 64

-- `memcpy(to, from, n)` between two buffers.
abbrev pub copied : (ℕ → ℕ) → (ℕ → ℕ) → ℕ → ℕ → ℕ
copied to from n j = if ltb j n then from j else to j

abbrev pub cleared : UndoEnt → UndoEnt
cleared e = record e { change = none }

-- The loop sets the entries up to UNDOCT; there are no others.
unfoldable pub initundo : History → History
initundo u = record u {
  undos = λ i. cleared (u.undos i);
  undoct = 0;
  lastline = copied u.lastline u.line u.ll;
  lastll = u.ll;
  lastcs = u.text.cs;
}

-- `for (s = line, t = lastline; s < line + ll && t < lastline + lastll && *s == *t; s++, t++);`
unfoldable pub prefix : History → ℕ
prefix u = skip_up (λ j. u.line j == u.lastline j) (min u.ll u.lastll) 0

-- The loop from the ends down: `s2` is `line + ll - k` and `t2` is `lastline + lastll - k`. It
-- goes on while `t > t2`, with `t` at the end of the prefix; `n` rounds take `s2` to the start.
unfoldable pub suffix_loop : History → ℕ → ℕ → ℕ
suffix_loop u zero k = k
suffix_loop u (suc n) k =
    let rest = suffix_loop u n (k + 1) in
    if ltb (prefix u) (u.ll - k)
      && ltb (u.lastll - k) (prefix u)
      && u.line (u.ll - 1 - k) == u.lastline (u.lastll - 1 - k)
    then rest
    else k

unfoldable pub suffix : History → ℕ
suffix u = suffix_loop u u.ll 0

unfoldable pub addundo : History → History
addundo u =
    let pf = prefix u in
    let sf = suffix u in
    let ct = (u.undoct + 1) % undo_size in
    if pf == u.ll && pf == u.lastll then u else record u {
      undoct = ct;
      undos = update u.undos ct (record {
        pref = pf;
        suff = sf;
        cs = u.lastcs;
        change = some (slice u.lastline pf (u.lastll - sf - pf));
      });
      lastline = copied u.lastline u.line u.ll;
      lastll = u.ll;
      lastcs = u.text.cs;
    }

-- The text after `undo` of an entry with the bytes `change`.
unfoldable pub restored : UndoEnt → List ℕ → Text → Text
restored ue change t₀ =
    let m = update t₀.line t₀.ll 0 in
    let s = slice m (t₀.ll - ue.suff) ue.suff in
    let t = sizeline (ue.pref + ue.suff + length change) t₀ in
    record t {
      line = write (write m ue.pref change) (ue.pref + length change) s;
      ll = ue.pref + ue.suff + length change;
      cs = ue.cs;
    }

unfoldable pub undo : History → History
undo u =
    let ue = u.undos u.undoct in
    elim ue.change [
      | none ↦ record u { beep = true }
      | some change ↦ record u {
        text = restored ue change u.text;
        undos = update u.undos u.undoct (cleared ue);
        undoct = (u.undoct + undo_size - 1) % undo_size;
      }
    ]
