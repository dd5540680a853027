-- ===== src/Zle/Kill/Yank.antt =====
-- Yanking back what was killed, and going back in the ring.
use winzsh.Prelude.{
  ℕ, ◌+◌, ◌-◌, ◌≤◌, ◌≡◌, ◌∙◌, refl, sym, ap, List, ◌++◌, Bool, true, false, some, arith,
}
use mathlib.Core.Path.{ap₂}
use winzsh.Prelude.Int.{pos}
use winzsh.Prelude.Lists.{slice, length, length-slice, split_three}
use winzsh.Zle.Text.{Text, contents, sizeline, shiftchars, foredel}
use winzsh.Zle.Text.Space.{cs-shiftchars, ll-shiftchars, slice-shiftchars, slice-shiftchars_below}
use winzsh.Zle.Move.{at}
use winzsh.Zle.Kill.{CutBuffer, Editor, filled, forekill, insert_bytes, yank, yank_loop, yankpop}
use winzsh.Zle.Kill.Cut.{text-forekill, cutbuf-forekill, flags-forekill, ring-forekill}
use winzsh.Zle.Kill.Insert.{
  contents-insert_bytes, cs-insert_bytes, ll-insert_bytes, slice-insert_bytes_below,
  slice-insert_bytes_above,
}

abbrev marked : Text → Text
marked t = record t { mark = t.cs }

text-yank :
    (bytes : List ℕ) (lines : Bool) (e : Editor)
    → e.gotvibufspec ≡ false
    → e.cutbuf ≡ filled bytes lines
    → (yank (pos 1) e).text ≡ insert_bytes bytes (marked e.text)
unfolding yank yank_loop
text-yank bytes lines e g c = ground arith

-- The line with `ct` bytes cut out at the cursor.
opened : ℕ → Text → Text
opened ct t = marked (shiftchars t.cs ct t)

module _ (ct : ℕ) (t : Text) (fits : t.cs + ct ≤ t.ll) where
  opened_sizes : ((opened ct t).cs ≡ t.cs) × ((opened ct t).ll ≡ t.ll - ct)
  unfolding opened
  opened_sizes = (cs-shiftchars t.cs ct t, ll-shiftchars t.cs ct t fits)

  opened_below : slice (opened ct t).line 0 (opened ct t).cs ≡ slice t.line 0 t.cs
  opened_below =
      ap (slice (opened ct t).line 0) opened_sizes.0
      ∙ (unfold opened in slice-shiftchars_below t.cs ct t fits)

  opened_above :
      slice (opened ct t).line (opened ct t).cs ((opened ct t).ll - (opened ct t).cs)
      ≡ slice t.line (t.cs + ct) (t.ll - (t.cs + ct))
  opened_above =
      let rest : (opened ct t).ll - (opened ct t).cs ≡ t.ll - (t.cs + ct) =
        omega (arith, opened_sizes) in
      ap₂ (slice (opened ct t).line) opened_sizes.0 rest
      ∙ (unfold opened in slice-shiftchars t.cs ct (t.ll - (t.cs + ct)) t (omega arith))

  -- Inserting at the place of a cut.
  contents-insert-opened :
      (bytes : List ℕ)
      → contents (insert_bytes bytes (opened ct t))
        ≡ slice t.line 0 t.cs ++ (bytes ++ slice t.line (t.cs + ct) (t.ll - (t.cs + ct)))
  contents-insert-opened bytes =
      contents-insert_bytes bytes (opened ct t) (omega (arith, opened_sizes))
      ∙ ap₂ (λ (x y : List ℕ). x ++ (bytes ++ y)) opened_below opened_above

abbrev killed : ℕ → Editor → List ℕ
killed ct e = slice e.line e.cs ct

module _ (ct : ℕ) (e : Editor) (g : e.gotvibufspec ≡ false) (k : e.killing ≡ false) where
  cutbuf-fresh : (forekill ct false e).cutbuf ≡ filled (killed ct e) e.vilinerange
  cutbuf-fresh = cutbuf-forekill ct false e g ∙ ground arith

  text-yank-forekill :
      (yank (pos 1) (forekill ct false e)).text ≡ insert_bytes (killed ct e) (opened ct e.text)
  text-yank-forekill =
      text-yank (killed ct e) e.vilinerange (forekill ct false e) (flags-forekill ct false e g).0
        cutbuf-fresh
      ∙ (unfold opened in
          ap (λ t. insert_bytes (killed ct e) (marked t)) (text-forekill ct false e))

-- Where no buffer is named and no kill goes before, a kill of bytes that are in the line and a
-- yank leave the contents as they were, and the cursor behind the bytes.
pub yank-forekill :
    (ct : ℕ) (e : Editor)
    → e.gotvibufspec ≡ false
    → e.killing ≡ false
    → e.cs + ct ≤ e.ll
    → (contents (yank (pos 1) (forekill ct false e)).text ≡ contents e.text)
      × ((yank (pos 1) (forekill ct false e)).cs ≡ e.cs + ct)
yank-forekill ct e g k fits = (
  ap (λ (t : Text). contents t) text
      ∙ contents-insert-opened ct e.text fits (killed ct e)
      ∙ sym (split_three e.line e.cs ct e.ll fits),
  ap (λ (t : Text). t.cs) text ∙ cursor,
)
  where
    text : (yank (pos 1) (forekill ct false e)).text ≡ insert_bytes (killed ct e) (opened ct e.text)
    text = text-yank-forekill ct e g k

    cursor : (insert_bytes (killed ct e) (opened ct e.text)).cs ≡ e.cs + ct
    cursor = omega (
      arith,
      cs-insert_bytes (killed ct e) (opened ct e.text) (omega (arith, opened_sizes ct e.text fits)),
      opened_sizes ct e.text fits,
      length-slice e.line e.cs ct,
    )

-- What `yank` keeps for `yankpop`.
record Yanked (e r : Editor) : Type 0 where
  kct : r.kct ≡ e.kringnum
  kring : r.kring ≡ e.kring
  yankb : r.yankb ≡ e.cs
  yanke : r.yanke ≡ r.cs

yank-Yanked :
    (bytes : List ℕ) (lines : Bool) (e : Editor)
    → e.gotvibufspec ≡ false
    → e.cutbuf ≡ filled bytes lines
    → Yanked e (yank (pos 1) e)
unfolding yank yank_loop
yank-Yanked bytes lines e g c = record {
  kct = ground arith;
  kring = ground arith;
  yankb = ground arith;
  yanke = ground arith;
}

text-yankpop :
    (new : List ℕ) (e : Editor)
    → e.yanking ≡ true
    → (e.kring e.kct).buf ≡ some new
    → (yankpop e).text ≡ insert_bytes new (foredel (e.yanke - e.yankb) (at e.text e.yankb))
unfolding yankpop
text-yankpop new e y b = ground arith

contents-insert_mark :
    (bytes : List ℕ) (t : Text)
    → contents (insert_bytes bytes (marked t)) ≡ contents (insert_bytes bytes t)
unfolding insert_bytes sizeline
contents-insert_mark bytes t = refl

-- Bytes in the place of those that were cut out at the cursor.
pub contents-insert-shiftchars :
    (bytes : List ℕ) (ct : ℕ) (t : Text)
    → t.cs + ct ≤ t.ll
    → contents (insert_bytes bytes (shiftchars t.cs ct t))
      ≡ slice t.line 0 t.cs ++ (bytes ++ slice t.line (t.cs + ct) (t.ll - (t.cs + ct)))
unfolding opened
contents-insert-shiftchars bytes ct t fits =
    sym (contents-insert_mark bytes (shiftchars t.cs ct t)) ∙ contents-insert-opened ct t fits bytes

-- The bytes that were inserted are cut out again.
foredel-insert_bytes :
    (bytes new : List ℕ) (t : Text)
    → t.cs ≤ t.ll
    → contents (insert_bytes new (foredel (length bytes) (at (insert_bytes bytes t) t.cs)))
      ≡ slice t.line 0 t.cs ++ (new ++ slice t.line t.cs (t.ll - t.cs))
unfolding foredel opened
foredel-insert_bytes bytes new t inside =
    let u = insert_bytes bytes t in
    let n = length bytes in
    let rest : u.ll - (t.cs + n) ≡ t.ll - t.cs = omega (arith, ll-insert_bytes bytes t inside) in
    let fits : t.cs + n ≤ u.ll = omega (arith, ll-insert_bytes bytes t inside) in
    sym (contents-insert_mark new (shiftchars t.cs n (at u t.cs)))
    ∙ contents-insert-opened n (at u t.cs) fits new
    ∙ ap₂ (λ (x y : List ℕ). x ++ (new ++ y)) (slice-insert_bytes_below bytes t inside)
        (ap (slice u.line (t.cs + n)) rest ∙ slice-insert_bytes_above bytes t inside)

-- The editor after a yank, as the main loop leaves it: ZLE_YANK is set in `lastcmd`.
abbrev pub just_yanked : Editor → Editor
just_yanked e = record e { yanking = true }

-- Where no buffer is named, no kill goes before and the cut buffer holds an older kill, a kill, a
-- yank and `yankpop` leave the bytes of the older kill in the place of the killed ones.
pub yankpop-yank-forekill :
    (ct : ℕ) (old : List ℕ) (e : Editor)
    → e.gotvibufspec ≡ false
    → e.killing ≡ false
    → e.cutbuf.buf ≡ some old
    → e.cs + ct ≤ e.ll
    → contents (yankpop (just_yanked (yank (pos 1) (forekill ct false e)))).text
      ≡ slice e.line 0 e.cs ++ (old ++ slice e.line (e.cs + ct) (e.ll - (e.cs + ct)))
yankpop-yank-forekill ct old e g k b fits =
    ap (λ (t : Text). contents t) (popped ∙ place)
    ∙ foredel-insert_bytes bytes old o (omega (arith, sizes))
    ∙ ap₂ (λ (x y : List ℕ). x ++ (old ++ y)) (opened_below ct e.text fits)
        (opened_above ct e.text fits)
  where
    killing : Editor
    killing = forekill ct false e

    bytes : List ℕ
    bytes = killed ct e

    o : Text
    o = opened ct e.text

    sizes : (o.cs ≡ e.cs) × (o.ll ≡ e.ll - ct)
    sizes = opened_sizes ct e.text fits

    r : Editor
    r = just_yanked (yank (pos 1) killing)

    y : Yanked killing r
    y =
        let z =
          yank-Yanked bytes e.vilinerange killing (flags-forekill ct false e g).0
            (cutbuf-fresh ct e g k) in
        record { kct = z.kct; kring = z.kring; yankb = z.yankb; yanke = z.yanke }

    text : r.text ≡ insert_bytes bytes o
    text = text-yank-forekill ct e g k

    popped : (yankpop r).text ≡ insert_bytes old (foredel (r.yanke - r.yankb) (at r.text r.yankb))
    popped = text-yankpop old r refl (
        ap₂ (λ (f : ℕ → CutBuffer) (n : ℕ). (f n).buf) y.kring y.kct
        ∙ ring-forekill ct false e old g k b)

    start : r.yankb ≡ o.cs
    start = y.yankb ∙ (unfold opened in ap (λ (t : Text). t.cs) (text-forekill ct false e))

    size : r.yanke - r.yankb ≡ length bytes
    size =
        omega (
          arith,
          start,
          y.yanke,
          (yank-forekill ct e g k fits).1,
          sizes,
          length-slice e.line e.cs ct,
        )

    place :
        insert_bytes old (foredel (r.yanke - r.yankb) (at r.text r.yankb))
        ≡ insert_bytes old (foredel (length bytes) (at (insert_bytes bytes o) o.cs))
    place = ap (insert_bytes old) (
        ap (λ (n : ℕ). foredel n (at r.text r.yankb)) size
        ∙ ap₂ (λ (t : Text) (c : ℕ). foredel (length bytes) (at t c)) text start)
