-- ===== src/Zle/Kill/Cut.antt =====
-- What `cut` leaves in the cut buffer and the ring, and kills that continue one another.
use winzsh.Prelude.{
  ℕ, ◌+◌, ◌≤◌, ◌≡◌, ◌∙◌, sym, ap, List, [], ◌++◌, Bool, true, false, some, if◌then◌else◌,
  Option-cases, Bool-cases, inl, inr, arith,
}
use mathlib.Core.Path.{ap₂}
use mathlib.Core.List.{append_assoc}
use winzsh.Prelude.Lists.{update, slice, slice-append}
use winzsh.Zle.Text.{Text, contents, shiftchars}
use winzsh.Zle.Text.Space.{cs-shiftchars, slice-shiftchars, contents-shiftchars_twice}
use winzsh.Zle.Kill.{
  Editor, filled, bytes_of, shift_numbered, rotate, cut_unnamed, cut_named, cut, forekill,
}

-- The bytes that a kill adds to: none, unless it continues a kill.
abbrev pub base : Editor → List ℕ
base e = if e.killing then bytes_of e.cutbuf else []

cutbuf-rotate : (e : Editor) → bytes_of (rotate e).cutbuf ≡ base e
unfolding rotate
cutbuf-rotate e = elim (Option-cases e.cutbuf.buf) [
  | inl n ↦ ground arith
  | inr (b, s) ↦ ground arith
]

-- The rest of the editor that `rotate` leaves alone.
vilinerange-rotate : (e : Editor) → (rotate e).vilinerange ≡ e.vilinerange
unfolding rotate
vilinerange-rotate e = elim (Option-cases e.cutbuf.buf) [
  | inl n ↦ ground arith
  | inr (b, s) ↦ ground arith
]

abbrev pub joined : Bool → List ℕ → List ℕ → List ℕ
joined dir bytes old = if dir then bytes ++ old else old ++ bytes

cutbuf-cut_unnamed :
    (bytes : List ℕ) (dir : Bool) (e : Editor)
    → (cut_unnamed bytes dir e).cutbuf ≡ filled (joined dir bytes (base e)) e.vilinerange
unfolding cut_unnamed
cutbuf-cut_unnamed bytes dir e =
    ap₂ (λ old lines. filled (joined dir bytes old) lines) (cutbuf-rotate _) (vilinerange-rotate _)

-- The cut buffer after an unnamed cut: the bytes, joined to those of the kill that this continues.
pub cutbuf-cut :
    (i ct : ℕ) (dir : Bool) (e : Editor)
    → e.gotvibufspec ≡ false
    → (cut i ct dir e).cutbuf ≡ filled (joined dir (slice e.line i ct) (base e)) e.vilinerange
unfolding cut
cutbuf-cut i ct dir e g = ground (arith, cutbuf-cut_unnamed (slice e.line i ct) dir e)

text-rotate : (e : Editor) → (rotate e).text ≡ e.text
unfolding rotate
text-rotate e = elim (Option-cases e.cutbuf.buf) [
  | inl n ↦ ground arith
  | inr (b, s) ↦ ground arith
]

-- A cut leaves the text alone.
pub text-cut : (i ct : ℕ) (dir : Bool) (e : Editor) → (cut i ct dir e).text ≡ e.text
unfolding cut cut_named cut_unnamed
text-cut i ct dir e = elim (Bool-cases e.gotvibufspec) [
  | inl g ↦ ground arith
  | inr g ↦ ground (
    arith,
    text-rotate (record e {
      vibuf = update (shift_numbered 8 e.vibuf) 26 (filled (slice e.line i ct) e.vilinerange);
    }),
  )
]

pub text-forekill :
    (ct : ℕ) (dir : Bool) (e : Editor) → (forekill ct dir e).text ≡ shiftchars e.cs ct e.text
unfolding forekill
text-forekill ct dir e = ap (λ (t : Text). shiftchars t.cs ct t) (text-cut e.cs ct dir e)

pub cutbuf-forekill :
    (ct : ℕ) (dir : Bool) (e : Editor)
    → e.gotvibufspec ≡ false
    → (forekill ct dir e).cutbuf ≡ filled (joined dir (slice e.line e.cs ct) (base e)) e.vilinerange
unfolding forekill
cutbuf-forekill ct dir e g = cutbuf-cut e.cs ct dir e g

module _ (e : Editor) where
  gotvibufspec-rotate : (rotate e).gotvibufspec ≡ e.gotvibufspec
  unfolding rotate
  gotvibufspec-rotate = elim (Option-cases e.cutbuf.buf) [
    | inl n ↦ ground arith
    | inr (b, s) ↦ ground arith
  ]

-- An unnamed kill keeps the two flags of vi mode that it reads.
pub flags-forekill :
    (ct : ℕ) (dir : Bool) (e : Editor)
    → e.gotvibufspec ≡ false
    → ((forekill ct dir e).gotvibufspec ≡ false) × ((forekill ct dir e).vilinerange ≡ e.vilinerange)
unfolding forekill cut cut_unnamed
flags-forekill ct dir e g =
    (ground (arith, gotvibufspec-rotate r), ground (arith, vilinerange-rotate r))
  where
    r : Editor
    r = record e {
      vibuf = update (shift_numbered 8 e.vibuf) 26 (filled (slice e.line e.cs ct) e.vilinerange);
    }

ring-rotate :
    (e : Editor) (old : List ℕ)
    → e.killing ≡ false
    → e.cutbuf.buf ≡ some old
    → ((rotate e).kring (rotate e).kringnum).buf ≡ some old
unfolding rotate
ring-rotate e old k b = ground arith

-- A fresh kill saves the cut buffer in the ring, at the new `kringnum`.
pub ring-forekill :
    (ct : ℕ) (dir : Bool) (e : Editor) (old : List ℕ)
    → e.gotvibufspec ≡ false
    → e.killing ≡ false
    → e.cutbuf.buf ≡ some old
    → ((forekill ct dir e).kring (forekill ct dir e).kringnum).buf ≡ some old
unfolding forekill cut cut_unnamed
ring-forekill ct dir e old g k b = elim (Bool-cases e.gotvibufspec) [
  | inl x ↦ cc
  | inr x ↦ ground (arith, ring-rotate r old)
]
  where
    r : Editor
    r = record e {
      vibuf = update (shift_numbered 8 e.vibuf) 26 (filled (slice e.line e.cs ct) e.vilinerange);
    }

-- The editor after a kill, as the main loop leaves it: ZLE_KILL is set in `lastcmd`.
abbrev pub continued : Editor → Editor
continued e = record e { killing = true }

-- Where no buffer is named and the bytes are in the line, two forward kills, the second
-- continuing the first, leave the contents and the cut buffer of one kill of both.
forekill-forekill :
    (a b : ℕ) (e : Editor)
    → e.gotvibufspec ≡ false
    → e.cs + a + b ≤ e.ll
    → (contents (forekill b false (continued (forekill a false e))).text
        ≡ contents (forekill (a + b) false e).text)
      × ((forekill b false (continued (forekill a false e))).cutbuf
          ≡ (forekill (a + b) false e).cutbuf)
forekill-forekill a b e g fits = (
  ap (λ (t : Text). contents t) twice
      ∙ contents-shiftchars_twice e.cs a b e.text fits
      ∙ sym (ap (λ (t : Text). contents t) (text-forekill (a + b) false e)),
  bufs,
)
  where
    k : Editor
    k = continued (forekill a false e)

    s : Text
    s = shiftchars e.cs a e.text

    first : k.text ≡ s
    first = text-forekill a false e

    twice : (forekill b false k).text ≡ shiftchars e.cs b s
    twice =
        text-forekill b false k
        ∙ ap (λ (t : Text). shiftchars t.cs b t) first
        ∙ ap (λ c. shiftchars c b s) (cs-shiftchars e.cs a e.text)

    moved : slice k.line k.cs b ≡ slice e.line (e.cs + a) b
    moved =
        ap (λ (t : Text). slice t.line t.cs b) first
        ∙ ap (λ c. slice s.line c b) (cs-shiftchars e.cs a e.text)
        ∙ slice-shiftchars e.cs a b e.text fits

    old : base k ≡ base e ++ slice e.line e.cs a
    old = ap bytes_of (cutbuf-forekill a false e g)

    flags :
        ((forekill a false e).gotvibufspec ≡ false)
        × ((forekill a false e).vilinerange ≡ e.vilinerange)
    flags = flags-forekill a false e g

    bytes : base k ++ slice k.line k.cs b ≡ base e ++ slice e.line e.cs (a + b)
    bytes =
        ap₂ (λ (x y : List ℕ). x ++ y) old moved
        ∙ append_assoc (base e) _ _
        ∙ ap (λ (x : List ℕ). base e ++ x) (sym (slice-append e.line e.cs a b))

    bufs : (forekill b false k).cutbuf ≡ (forekill (a + b) false e).cutbuf
    bufs =
        cutbuf-forekill b false k flags.0
        ∙ ap₂ filled bytes flags.1
        ∙ sym (cutbuf-forekill (a + b) false e g)
