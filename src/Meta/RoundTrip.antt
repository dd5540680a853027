-- ===== src/Meta/RoundTrip.antt =====
-- `unmetafy` after `metafy`.
use mathlib.Core.List.{reverse, reverse-reverse, reverse-append, append_assoc, append-nil}
use winzsh.Prelude.{
  ℕ, zero, suc, ◌+◌, ◌<◌, ◌≡◌, ◌∙◌, refl, sym, ap, List, [], ◌∷◌, ◌++◌, Bool, true, false, some,
  ◌==◌, if◌then◌else◌, Bool-cases, inl, inr, arith,
}
use winzsh.Prelude.Lists.{length}
use winzsh.Chars.{imeta, meta}
use winzsh.Meta.{flip, count_meta, metafy_back, metafy, unmetafy, ztrlen, metalen, metalen_extra}

-- Byte by byte, from the front: what `metafy` is to return.
unfoldable pub encode : List ℕ → List ℕ
encode [] = []
encode (c ∷ buf) = if imeta c then meta ∷ flip c ∷ encode buf else c ∷ encode buf

encode-append : (a b : List ℕ) → encode (a ++ b) ≡ encode a ++ encode b
unfolding encode
encode-append [] b = refl
encode-append (c ∷ a) b = ground (arith, encode-append a b)

count_meta-append : (a b : List ℕ) → count_meta (a ++ b) ≡ count_meta a + count_meta b
unfolding count_meta
count_meta-append [] b = omega arith
count_meta-append (c ∷ a) b = ground (arith, count_meta-append a b)

encode_plain : (buf : List ℕ) → count_meta buf ≡ 0 → encode buf ≡ buf
unfolding encode count_meta
encode_plain [] h = refl
encode_plain (c ∷ buf) h = ground (arith, encode_plain buf)

-- The loop from the end, with the right count, encodes what is left.
metafy_back-encode :
    (left done : List ℕ) (n : ℕ)
    → n ≡ count_meta (reverse left)
    → metafy_back n left done ≡ encode (reverse left) ++ done
unfolding metafy_back
metafy_back-encode left done zero h =
    ap (λ (x : List ℕ). x ++ done) (sym (encode_plain (reverse left) (sym h)))
metafy_back-encode [] done (suc n) h = absurd (unfold count_meta in omega arith)
metafy_back-encode (c ∷ left) done (suc n) h = elim (Bool-cases (imeta c)) [
  | inl t ↦
      rw (t, metafy_back)
        (metafy_back-encode left (meta ∷ flip c ∷ done) n (special t)
          ∙ back (meta ∷ flip c ∷ []) (unfold encode in rw t))
  | inr f ↦
      rw (f, metafy_back)
        (metafy_back-encode left (c ∷ done) (suc n) (plain f)
          ∙ back (c ∷ []) (unfold encode in rw f))
]
  where
    turned : reverse (c ∷ left) ≡ reverse left ++ (c ∷ [])
    turned = reverse-append (c ∷ []) left

    counted : suc n ≡ count_meta (reverse left) + count_meta (c ∷ [])
    counted = h ∙ ap count_meta turned ∙ count_meta-append (reverse left) (c ∷ [])

    special : imeta c ≡ true → n ≡ count_meta (reverse left)
    special t = unfold count_meta in ground (arith, counted)

    plain : imeta c ≡ false → suc n ≡ count_meta (reverse left)
    plain f = unfold count_meta in ground (arith, counted)

    back :
        (x : List ℕ)
        → encode (c ∷ []) ≡ x
        → encode (reverse left) ++ (x ++ done) ≡ encode (reverse (c ∷ left)) ++ done
    back x e =
        sym (append_assoc (encode (reverse left)) x done)
        ∙ ap (λ (y : List ℕ). (encode (reverse left) ++ y) ++ done) (sym e)
        ∙ ap (λ (y : List ℕ). y ++ done)
            (sym (encode-append (reverse left) (c ∷ [])) ∙ ap encode (sym turned))

pub metafy-encode : (buf : List ℕ) → metafy buf ≡ encode buf
unfolding metafy
metafy-encode buf =
    let r = reverse-reverse buf in
    metafy_back-encode (reverse buf) [] (count_meta buf) (ap count_meta (sym r))
    ∙ append-nil (encode (reverse (reverse buf)))
    ∙ ap encode r

-- The bytes are those of `unsigned char`.
abbrev pub Bytes : List ℕ → Type 0
Bytes [] = Unit
Bytes (c ∷ s) = (c < 256) × Bytes s

-- Whether `flip` undoes itself on the numbers below `n`.
undone_upto : ℕ → Bool
undone_upto zero = true
undone_upto (suc n) = let rest = undone_upto n in if flip (flip n) == n then rest else false

undone_upto_lem : (n c : ℕ) → undone_upto n ≡ true → c < n → flip (flip c) ≡ c
unfolding undone_upto
undone_upto_lem zero c e lt = absurd (omega arith)
undone_upto_lem (suc n) c e lt = elim (Bool-cases (c == n)) [
  | inl t ↦ ground (arith, e)
  | inr f ↦ undone_upto_lem n c (ground (arith, e)) (ground (arith, f))
]

pub flip-flip : (c : ℕ) → c < 256 → flip (flip c) ≡ c
unfolding undone_upto
flip-flip c h = undone_upto_lem 256 c refl h

-- A byte that is not special is not Meta.
pub plain_byte : (c : ℕ) → imeta c ≡ false → (c == meta) ≡ false
unfolding imeta
plain_byte c h = ground arith

unmetafy_plain :
    (c : ℕ) (s r : List ℕ)
    → (c == meta) ≡ false
    → unmetafy s ≡ some r
    → unmetafy (c ∷ s) ≡ some (c ∷ r)
unfolding unmetafy
unmetafy_plain c [] r h e = ground (arith, h, e)
unmetafy_plain c (d ∷ s) r h e = rw (h, e) refl

unmetafy_special :
    (d : ℕ) (s r : List ℕ) → unmetafy s ≡ some r → unmetafy (meta ∷ d ∷ s) ≡ some (flip d ∷ r)
unfolding unmetafy
unmetafy_special d s r e = rw e refl

unmetafy-encode : (buf : List ℕ) → Bytes buf → unmetafy (encode buf) ≡ some buf
unfolding encode
unmetafy-encode [] h = unfold unmetafy in refl
unmetafy-encode (c ∷ buf) (h, hs) = elim (Bool-cases (imeta c)) [
  | inl t ↦
      rw (t, encode)
        (unmetafy_special (flip c) (encode buf) buf (unmetafy-encode buf hs)
          ∙ ap (λ (x : ℕ). some (x ∷ buf)) (flip-flip c h))
  | inr f ↦
      rw (f, encode) (unmetafy_plain c (encode buf) buf (plain_byte c f) (unmetafy-encode buf hs))
]

-- `metafy` and then `unmetafy`, which does not fail, gives back every string of bytes.
pub unmetafy-metafy : (buf : List ℕ) → Bytes buf → unmetafy (metafy buf) ≡ some buf
unmetafy-metafy buf h = rw (metafy-encode buf) (unmetafy-encode buf h)

ztrlen_plain : (c : ℕ) (s : List ℕ) → (c == meta) ≡ false → ztrlen (c ∷ s) ≡ suc (ztrlen s)
unfolding ztrlen
ztrlen_plain c [] h = refl
ztrlen_plain c (d ∷ s) h = rw h refl

ztrlen_nil : ztrlen [] ≡ 0
unfolding ztrlen
ztrlen_nil = refl

ztrlen_special : (d : ℕ) (s : List ℕ) → ztrlen (meta ∷ d ∷ s) ≡ suc (ztrlen s)
unfolding ztrlen
ztrlen_special d s = refl

ztrlen-encode : (buf : List ℕ) → ztrlen (encode buf) ≡ length buf
unfolding encode
ztrlen-encode [] = ztrlen_nil
ztrlen-encode (c ∷ buf) = elim (Bool-cases (imeta c)) [
  | inl t ↦ rw (t, encode) (ztrlen_special (flip c) (encode buf) ∙ ap suc (ztrlen-encode buf))
  | inr f ↦
      rw (f, encode) (ztrlen_plain c (encode buf) (plain_byte c f) ∙ ap suc (ztrlen-encode buf))
]

extra_plain :
    (c : ℕ) (s : List ℕ) (n : ℕ)
    → (c == meta) ≡ false
    → metalen_extra (c ∷ s) (suc n) ≡ metalen_extra s n
unfolding metalen_extra
extra_plain c [] zero h = rw h refl
extra_plain c [] (suc n) h = rw h refl
extra_plain c (d ∷ s) n h = rw h refl

extra_special :
    (d : ℕ) (s : List ℕ) (n : ℕ) → metalen_extra (meta ∷ d ∷ s) (suc n) ≡ suc (metalen_extra s n)
unfolding metalen_extra
extra_special d s n = refl

extra_zero : (s : List ℕ) → metalen_extra s 0 ≡ 0
unfolding metalen_extra
extra_zero s = refl

extra-encode :
    (buf rest : List ℕ)
    → length (encode buf) ≡ length buf + metalen_extra (encode buf ++ rest) (length buf)
unfolding encode
extra-encode [] rest = omega (arith, extra_zero rest)
extra-encode (c ∷ buf) rest = elim (Bool-cases (imeta c)) [
  | inl t ↦
      rw (t, encode, extra_special (flip c) (encode buf ++ rest) (length buf))
        (omega (arith, extra-encode buf rest))
  | inr f ↦
      rw (f, encode, extra_plain c (encode buf ++ rest) (length buf) (plain_byte c f))
        (omega (arith, extra-encode buf rest))
]

-- On a metafied string `ztrlen` is the number of the bytes that were metafied, and `metalen`,
-- given that number, is the length of the metafied string, whatever stands behind it.
pub ztrlen-metafy :
    (buf rest : List ℕ)
    → (ztrlen (metafy buf) ≡ length buf)
      × (metalen (metafy buf ++ rest) (length buf) ≡ length (metafy buf))
ztrlen-metafy buf rest =
    rw (metafy-encode buf) (ztrlen-encode buf, unfold metalen in sym (extra-encode buf rest))
