-- ===== src/Zle/Kill.antt =====
-- Killing and yanking: `cut`, `backkill` and `forekill` of Src/zle_utils.c, the kill commands and
-- `yank` and `yankpop` of zle_misc.c, with the globals that they share. A buffer of the source is
-- a pointer, a length and a flag; here it is a list of bytes, or `none` for the null pointer.
pub mod Insert
pub mod Cut
pub mod Yank
pub mod Region
use winzsh.Prelude.{
  ℕ, zero, suc, ◌+◌, ◌-◌, ◌*◌, ◌%◌, List, [], ◌∷◌, ◌++◌, Bool, true, false, not, Option, none, some,
  ltb, leb, ◌==◌, ◌&&◌, ◌||◌, if◌then◌else◌,
}
use winzsh.Prelude.Int.{ℤ, pos, negsuc}
use winzsh.Prelude.Lists.{update, slice, write, length}
use winzsh.Zle.Scan.{skip_up, skip_down}
use winzsh.Zle.Text.{Text, newline, spaceinline, shiftchars, foredel, backdel}
use winzsh.Zle.Move.{at, not_newline}

-- `whole_lines` is CUTBUFFER_LINE.
pub record CutBuffer : Type 0 where
  pub buf : Option (List ℕ)
  pub whole_lines : Bool

-- `killing` and `yanking` are the bits ZLE_KILL and ZLE_YANK of `lastcmd`.
pub record Editor : Type 0 where
  pub text : Text
  pub open text use *
  pub cutbuf : CutBuffer
  pub kring : ℕ → CutBuffer
  pub kringnum : ℕ
  pub vibuf : ℕ → CutBuffer
  pub vibufspec : ℕ
  pub gotvibufspec : Bool
  pub vibufappend : Bool
  pub vilinerange : Bool
  pub killing : Bool
  pub yanking : Bool
  pub kct : ℕ
  pub yankb : ℕ
  pub yanke : ℕ
  pub beep : Bool
  pub clearlist : Bool

abbrev pub kringct : ℕ
kringct = 8

abbrev pub filled : List ℕ → Bool → CutBuffer
filled bytes lines = record { buf = some bytes; whole_lines = lines }

-- `for (n = 34; n > 26; n--) vibuf[n] = vibuf[n - 1];`, with `n = 26 + rounds`.
unfoldable pub shift_numbered : ℕ → (ℕ → CutBuffer) → ℕ → CutBuffer
shift_numbered zero vibuf = vibuf
shift_numbered (suc n) vibuf = shift_numbered n (update vibuf (26 + suc n) (vibuf (26 + n)))

-- The branch of `cut` for a named buffer.
unfoldable pub cut_named : List ℕ → Editor → Editor
cut_named bytes e =
    let old = e.vibuf e.vibufspec in
    let append = if old.whole_lines && not e.vilinerange then false else e.vibufappend in
    let fresh : List ℕ = elim old.buf [
      | none ↦ bytes
      | some b ↦
          if append then b ++ ((if e.vilinerange then newline ∷ [] else []) ++ bytes) else bytes
    ] in
    record e {
      vibuf = update e.vibuf e.vibufspec (filled fresh e.vilinerange);
      vibufappend = append;
    }

-- A kill that does not follow another saves the cut buffer in the ring and starts a new one.
unfoldable pub rotate : Editor → Editor
rotate e = elim e.cutbuf.buf [
  | none ↦ record e { cutbuf = filled [] false }
  | some b ↦
      if e.killing
      then e
      else let n = (e.kringnum + 1) % kringct in
        record e { kringnum = n; kring = update e.kring n e.cutbuf; cutbuf = filled [] false }
]

abbrev pub bytes_of : CutBuffer → List ℕ
bytes_of b = elim b.buf [ none ↦ [] | some xs ↦ xs ]

unfoldable pub cut_unnamed : List ℕ → Bool → Editor → Editor
cut_unnamed bytes dir e₀ =
    let e =
      rotate (record e₀ {
        vibuf = update (shift_numbered 8 e₀.vibuf) 26 (filled bytes e₀.vilinerange);
      }) in
    record e {
      cutbuf =
          filled (if dir then bytes ++ bytes_of e.cutbuf else bytes_of e.cutbuf ++ bytes)
            e.vilinerange;
    }

-- `dir` puts the bytes before those of the kills that it continues.
unfoldable pub cut : ℕ → ℕ → Bool → Editor → Editor
cut i ct dir e =
    let bytes = slice e.line i ct in
    if e.gotvibufspec then cut_named bytes e else cut_unnamed bytes dir e

unfoldable pub forekill : ℕ → Bool → Editor → Editor
forekill ct dir e₀ = let e = cut e₀.cs ct dir e₀ in record e { text = shiftchars e.cs ct e.text }

-- `none`: `cs` would be negative, and bytes before the buffer would be copied.
unfoldable pub backkill : ℕ → Bool → Editor → Option Editor
backkill ct dir e₀ =
    if ltb e₀.cs ct
    then none
    else let i = e₀.cs - ct in
      let e = cut i ct dir (record e₀ { text = at e₀.text i }) in
      some (record e { text = shiftchars i ct e.text })

-- `killwholeline`, `zmult` rounds.
unfoldable pub killwholeline_loop : ℕ → Editor → Editor
killwholeline_loop zero e = e
killwholeline_loop (suc n) e =
    let fg = not (e.cs == 0) && e.cs == e.ll in
    let c = skip_down (not_newline e.text) (if fg then e.cs - 1 else e.cs) in
    let i = skip_up (not_newline e.text) e.ll c in
    killwholeline_loop n
      (forekill (i - c + (if i == e.ll then 0 else 1)) fg (record e { text = at e.text c }))

unfoldable pub killwholeline : ℤ → Editor → Editor
killwholeline (pos n) e = record (killwholeline_loop n e) { clearlist = true }
killwholeline (negsuc n) e = e

unfoldable pub killbuffer : Editor → Editor
killbuffer e = record (forekill e.ll false (record e { text = at e.text 0 })) { clearlist = true }

-- The cursor after the rounds of `backwardkillline`; the count `i` is how far it went.
unfoldable pub back_lines : Text → ℕ → ℕ → ℕ
back_lines t zero c = c
back_lines t (suc n) zero = back_lines t n zero
back_lines t (suc n) (suc c) =
    back_lines t n (if t.line c == newline then c else skip_down (not_newline t) (suc c))

unfoldable pub fore_lines : Text → ℕ → ℕ → ℕ
fore_lines t zero c = c
fore_lines t (suc n) c =
    fore_lines t n (if t.line c == newline then c + 1 else skip_up (not_newline t) t.ll c)

unfoldable pub backkill_lines : ℕ → Editor → Editor
backkill_lines n e =
    let c = back_lines e.text n e.cs in
    record (forekill (e.cs - c) true (record e { text = at e.text c })) { clearlist = true }

unfoldable pub forekill_lines : ℕ → Editor → Option Editor
forekill_lines n e =
    let c = fore_lines e.text n e.cs in
    elim (backkill (c - e.cs) false (record e { text = at e.text c })) [
      | none ↦ none
      | some e' ↦ some (record e' { clearlist = true })
    ]

unfoldable pub backwardkillline : ℤ → Editor → Option Editor
backwardkillline (pos n) e = some (backkill_lines n e)
backwardkillline (negsuc n) e = forekill_lines (suc n) e

unfoldable pub killline : ℤ → Editor → Option Editor
killline (pos n) e = forekill_lines n e
killline (negsuc n) e = some (backkill_lines (suc n) e)

-- `if (mark > ll) mark = ll;`
abbrev pub clip_mark : Editor → Editor
clip_mark e = record e { text = record e.text { mark = if ltb e.ll e.mark then e.ll else e.mark } }

unfoldable pub killregion : Editor → Option Editor
killregion e₀ =
    let e = clip_mark e₀ in
    if ltb e.cs e.mark
    then some (forekill (e.mark - e.cs) false e)
    else backkill (e.cs - e.mark) true e

unfoldable pub copyregionaskill : Editor → Editor
copyregionaskill e₀ =
    let e = clip_mark e₀ in
    if ltb e.cs e.mark then cut e.cs (e.mark - e.cs) false e else cut e.mark (e.cs - e.mark) true e

-- `spaceinline(n); memcpy(line + cs, bytes, n); cs += n;`
unfoldable pub insert_bytes : List ℕ → Text → Text
unfolding spaceinline
insert_bytes bytes t₀ =
    let t = spaceinline (length bytes) t₀ in
    record t { line = write t.line t.cs bytes; cs = t.cs + length bytes }

unfoldable pub yank_loop : List ℕ → ℕ → Editor → Editor
yank_loop bytes zero e = e
yank_loop bytes (suc n) e =
    let t = insert_bytes bytes e.text in
    yank_loop bytes n (record e { text = t; kct = e.kringnum; yanke = t.cs })

unfoldable pub yank : ℤ → Editor → Editor
yank (negsuc n) e = e
yank (pos n) e = elim ((if e.gotvibufspec then e.vibuf e.vibufspec else e.cutbuf).buf) [
  | none ↦ record e { beep = true }
  | some bytes ↦ yank_loop bytes n (record e { text = record e.text { mark = e.cs }; yankb = e.cs })
]

unfoldable pub yankpop : Editor → Editor
yankpop e = elim ((e.kring e.kct).buf) [
  | none ↦ record e { beep = true }
  | some bytes ↦
      if e.yanking
      then (let t = insert_bytes bytes (foredel (e.yanke - e.yankb) (at e.text e.yankb)) in
          record e { text = t; yanke = t.cs; kct = (e.kct + kringct - 1) % kringct })
      else record e { beep = true }
]
