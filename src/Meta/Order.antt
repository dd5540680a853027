-- ===== src/Meta/Order.antt =====
-- The order of `ztrcmp`.
use winzsh.Prelude.{
  ℕ, zero, suc, ◌+◌, ◌<◌, ◌≡◌, ◌∙◌, refl, sym, ap, List, [], ◌∷◌, ◌++◌, Bool, true, false, some,
  ◌==◌, if◌then◌else◌, Bool-cases, ==_iff, inl, inr, arith,
}
use mathlib.Core.Path.{ap₂}
use winzsh.Prelude.Lists.{length}
use winzsh.Chars.{imeta, meta, itok}
use winzsh.Meta.{
  flip, metafy, lead, Sign, less, same, greater, sign, ztrcmp, ztrlen, metalen, ztrsub,
}
use winzsh.Meta.RoundTrip.{Bytes, encode, metafy-encode, ztrlen-metafy, flip-flip, plain_byte}

-- Byte by byte, the end of a string before every byte, the null byte too.
unfoldable pub compare_bytes : List ℕ → List ℕ → Sign
compare_bytes [] [] = same
compare_bytes [] (d ∷ b) = less
compare_bytes (c ∷ a) [] = greater
compare_bytes (c ∷ a) (d ∷ b) = let rest = compare_bytes a b in if c == d then rest else sign c d

-- Whether `flip` adds 32 to the special bytes below `n`, which have bit 5 clear.
raised_upto : ℕ → Bool
raised_upto zero = true
raised_upto (suc n) =
    let rest = raised_upto n in
    let here = if imeta n then flip n == n + 32 else true in if here then rest else false

raised_upto_lem : (n c : ℕ) → raised_upto n ≡ true → c < n → imeta c ≡ true → flip c ≡ c + 32
unfolding raised_upto
raised_upto_lem zero c e lt t = absurd (omega arith)
raised_upto_lem (suc n) c e lt t = elim (Bool-cases (c == n)) [
  | inl q ↦ let p : c ≡ n = (==_iff c n).0 q in ground (arith, e, p)
  | inr f ↦ raised_upto_lem n c (ground (arith, e)) (ground (arith, f)) t
]

flip_special : (c : ℕ) → c < 256 → imeta c ≡ true → flip c ≡ c + 32
unfolding raised_upto imeta itok
flip_special c h t = raised_upto_lem 256 c refl h t

flip_plain : (c : ℕ) → c < 256 → imeta c ≡ true → (flip c == meta) ≡ false
unfolding imeta itok
flip_plain c h t = ground (arith, flip_special c h t, t)

lead_plain : (c : ℕ) (s : List ℕ) → (c == meta) ≡ false → lead (c ∷ s) ≡ suc c
unfolding lead
lead_plain c [] h = rw h refl
lead_plain c (d ∷ s) h = rw h refl

lead_special : (c : ℕ) (s : List ℕ) → c < 256 → lead (meta ∷ flip c ∷ s) ≡ suc c
unfolding lead
lead_special c s h = ap suc (flip-flip c h)

lead-encode : (c : ℕ) (s : List ℕ) → c < 256 → lead (encode (c ∷ s)) ≡ suc c
unfolding encode
lead-encode c s h = elim (Bool-cases (imeta c)) [
  | inl t ↦ rw (t, encode) (lead_special c (encode s) h)
  | inr f ↦ rw (f, encode) (lead_plain c (encode s) (plain_byte c f))
]

ztrcmp_equal : (c : ℕ) (s t : List ℕ) → ztrcmp (c ∷ s) (c ∷ t) ≡ ztrcmp s t
ztrcmp_equal c s t = let e : (c == c) ≡ true = ground arith in unfold ztrcmp in rw e refl

ztrcmp_differs :
    (c d : ℕ) (s t : List ℕ)
    → (c == d) ≡ false
    → ztrcmp (c ∷ s) (d ∷ t) ≡ sign (lead (c ∷ s)) (lead (d ∷ t))
ztrcmp_differs c d s t h = unfold ztrcmp in rw h refl

sign_shift : (n c d : ℕ) → sign (suc (c + n)) (suc (d + n)) ≡ sign c d
unfolding sign
sign_shift n c d = ground arith

sign-suc : (c d : ℕ) → sign (suc c) (suc d) ≡ sign c d
unfolding sign
sign-suc c d = ground arith

encode_special : (c : ℕ) (a : List ℕ) → imeta c ≡ true → encode (c ∷ a) ≡ meta ∷ flip c ∷ encode a
unfolding encode
encode_special c a t = rw t refl

encode_other : (c : ℕ) (a : List ℕ) → imeta c ≡ false → encode (c ∷ a) ≡ c ∷ encode a
unfolding encode
encode_other c a t = rw t refl

-- Two special bytes, behind Meta in both strings.
flipped_differ :
    (c d : ℕ) (s t : List ℕ)
    → c < 256
    → d < 256
    → imeta c ≡ true
    → imeta d ≡ true
    → (c == d) ≡ false
    → ztrcmp (flip c ∷ s) (flip d ∷ t) ≡ sign c d
flipped_differ c d s t hc hd p q ne =
    let ec = flip_special c hc p in
    let ed = flip_special d hd q in
    ztrcmp_differs (flip c) (flip d) s t (rw (ec, ed) (ground arith))
    ∙ ap₂ sign (lead_plain (flip c) s (flip_plain c hc p) ∙ ap suc ec)
        (lead_plain (flip d) t (flip_plain d hd q) ∙ ap suc ed)
    ∙ sign_shift 32 c d

-- One special byte at most: the heads of the metafied strings differ.
heads_differ :
    (c d x y : ℕ) (s t : List ℕ)
    → (x == y) ≡ false
    → lead (x ∷ s) ≡ suc c
    → lead (y ∷ t) ≡ suc d
    → ztrcmp (x ∷ s) (y ∷ t) ≡ sign c d
heads_differ c d x y s t ne lc ld = ztrcmp_differs x y s t ne ∙ ap₂ sign lc ld ∙ sign-suc c d

swapped : (n : ℕ) → (n == meta) ≡ false → (meta == n) ≡ false
swapped n h = ground (arith, h)

-- Two different bytes: a special one is seen through its flipped form.
ztrcmp-encode_differs :
    (c d : ℕ) (a b : List ℕ)
    → c < 256
    → d < 256
    → (c == d) ≡ false
    → ztrcmp (encode (c ∷ a)) (encode (d ∷ b)) ≡ sign c d
ztrcmp-encode_differs c d a b hc hd ne = elim (Bool-cases (imeta c)) [
  | inl t ↦ elim (Bool-cases (imeta d)) [
    | inl u ↦
        rw (encode_special c a t, encode_special d b u)
          (ztrcmp_equal meta _ _ ∙ flipped_differ c d (encode a) (encode b) hc hd t u ne)
    | inr u ↦
        rw (encode_special c a t, encode_other d b u)
          (heads_differ c d meta d _ _ (swapped d (plain_byte d u)) (lead_special c (encode a) hc)
            (lead_plain d (encode b) (plain_byte d u)))
  ]
  | inr t ↦ elim (Bool-cases (imeta d)) [
    | inl u ↦
        rw (encode_other c a t, encode_special d b u)
          (heads_differ c d c meta _ _ (plain_byte c t) (lead_plain c (encode a) (plain_byte c t))
            (lead_special d (encode b) hd))
    | inr u ↦
        rw (encode_other c a t, encode_other d b u)
          (heads_differ c d c d _ _ ne (lead_plain c (encode a) (plain_byte c t))
            (lead_plain d (encode b) (plain_byte d u)))
  ]
]

ztrcmp_ends : ztrcmp (encode []) (encode []) ≡ same
unfolding encode ztrcmp lead sign
ztrcmp_ends = refl

below_all : (s : List ℕ) (d : ℕ) → lead s ≡ suc d → ztrcmp (encode []) s ≡ less
unfolding encode ztrcmp sign
below_all s d h = rw h (ground arith)

above_all : (s : List ℕ) (c : ℕ) → lead s ≡ suc c → ztrcmp s (encode []) ≡ greater
unfolding encode ztrcmp sign lead
above_all [] c h = absurd (omega arith)
above_all (x ∷ s) c h = rw h (ground arith)

ztrcmp-encode :
    (a b : List ℕ) → Bytes a → Bytes b → ztrcmp (encode a) (encode b) ≡ compare_bytes a b
unfolding compare_bytes
ztrcmp-encode [] [] ha hb = ztrcmp_ends
ztrcmp-encode [] (d ∷ b) ha (hd, hb) = below_all (encode (d ∷ b)) d (lead-encode d b hd)
ztrcmp-encode (c ∷ a) [] (hc, ha) hb = above_all (encode (c ∷ a)) c (lead-encode c a hc)
ztrcmp-encode (c ∷ a) (d ∷ b) (hc, ha) (hd, hb) = elim (Bool-cases (c == d)) [
  | inl t ↦ rw t (equal ((==_iff c d).0 t) ∙ ztrcmp-encode a b ha hb)
  | inr f ↦ rw f (ztrcmp-encode_differs c d a b hc hd f)
]
  where
    equal : c ≡ d → ztrcmp (encode (c ∷ a)) (encode (d ∷ b)) ≡ ztrcmp (encode a) (encode b)
    equal e = rw (sym e) (elim (Bool-cases (imeta c)) [
      | inl t ↦
          rw (encode_special c a t, encode_special c b t)
            (ztrcmp_equal meta _ _ ∙ ztrcmp_equal (flip c) (encode a) (encode b))
      | inr f ↦ rw (encode_other c a f, encode_other c b f) (ztrcmp_equal c (encode a) (encode b))
    ])

-- `ztrcmp` of two metafied strings of bytes orders them as their bytes, a string before those
-- that it begins.
pub ztrcmp-metafy :
    (a b : List ℕ) → Bytes a → Bytes b → ztrcmp (metafy a) (metafy b) ≡ compare_bytes a b
ztrcmp-metafy a b ha hb = rw (metafy-encode a, metafy-encode b) (ztrcmp-encode a b ha hb)

ztrsub_special :
    (n l d : ℕ) (s : List ℕ)
    → ztrsub n s ≡ some l
    → ztrsub (suc (suc n)) (meta ∷ d ∷ s) ≡ some (suc l)
unfolding ztrsub
ztrsub_special n l d s h = rw h refl

ztrsub_other :
    (n l c : ℕ) (s : List ℕ)
    → (c == meta) ≡ false
    → ztrsub n s ≡ some l
    → ztrsub (suc n) (c ∷ s) ≡ some (suc l)
unfolding ztrsub
ztrsub_other zero l c s f h = rw f (ground (arith, h))
ztrsub_other (suc n) l c [] f h = ground (arith, h)
ztrsub_other (suc n) l c (d ∷ s) f h = ground (arith, f, h)

ztrsub-encode : (a rest : List ℕ) → ztrsub (length (encode a)) (encode a ++ rest) ≡ some (length a)
ztrsub-encode [] rest = unfold encode ztrsub in refl
ztrsub-encode (c ∷ a) rest = elim (Bool-cases (imeta c)) [
  | inl t ↦ rw (encode_special c a t) (
      ztrsub_special (length (encode a)) (length a) (flip c) (encode a ++ rest)
        (ztrsub-encode a rest))
  | inr f ↦ rw (encode_other c a f) (
      ztrsub_other (length (encode a)) (length a) c (encode a ++ rest) (plain_byte c f)
        (ztrsub-encode a rest))
]

-- On a metafied string, whatever stands behind it, `ztrlen` is the number of the bytes that were
-- metafied, `metalen`, given that number, the length of the metafied string, and `ztrsub`, from
-- its start to its end, that number again.
ztrsub-metafy :
    (a rest : List ℕ)
    → (ztrlen (metafy a) ≡ length a)
      × (metalen (metafy a ++ rest) (length a) ≡ length (metafy a))
      × (ztrsub (length (metafy a)) (metafy a ++ rest) ≡ some (length a))
ztrsub-metafy a rest =
    let (l, m) = ztrlen-metafy a rest in (l, m, rw (metafy-encode a) (ztrsub-encode a rest))
