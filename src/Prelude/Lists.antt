-- ===== src/Prelude/Lists.antt =====
-- Lists measured and indexed by native numbers, under the library's names, and memory as a
-- function from addresses to bytes.
use Prim.Native.Nat.{ℕ, zero, suc, ◌+◌, ◌-◌, ◌≤◌, ◌<◌}
use mathlib.Core.Path.{◌≡◌, ◌∙◌, refl, ap, ap₂}
use mathlib.Core.List.{List, [], ◌∷◌, ◌++◌}
use native.Mathlib.Omega.{arith}
use native.Mathlib.Nat.{zero-add}
use winzsh.Prelude.Tests.{◌==◌, if◌then◌else◌}

module _ {ℓ} {A : Type ℓ} where
  abbrev pub length : List A → ℕ
  length [] = 0
  length (x ∷ xs) = suc (length xs)

  abbrev pub get_or : List A → ℕ → A → A
  get_or [] i d = d
  get_or (x ∷ xs) zero d = x
  get_or (x ∷ xs) (suc i) d = get_or xs i d

  -- A write out of bounds changes nothing.
  abbrev pub set : List A → ℕ → A → List A
  set [] i v = []
  set (x ∷ xs) zero v = v ∷ xs
  set (x ∷ xs) (suc i) v = x ∷ set xs i v

  abbrev pub take : ℕ → List A → List A
  take zero xs = []
  take (suc n) [] = []
  take (suc n) (x ∷ xs) = x ∷ take n xs

  abbrev pub drop : ℕ → List A → List A
  drop zero xs = xs
  drop (suc n) [] = []
  drop (suc n) (x ∷ xs) = drop n xs

  abbrev pub replicate : ℕ → A → List A
  replicate zero a = []
  replicate (suc n) a = a ∷ replicate n a

  pub length-append : (xs ys : List A) → length (xs ++ ys) ≡ length xs + length ys
  length-append [] ys = omega arith
  length-append (x ∷ xs) ys = omega (arith, length-append xs ys)

  pub length-set : (xs : List A) (i : ℕ) (v : A) → length (set xs i v) ≡ length xs
  length-set [] i v = refl
  length-set (x ∷ xs) zero v = refl
  length-set (x ∷ xs) (suc i) v = ap suc (length-set xs i v)

  pub length-replicate : (n : ℕ) (a : A) → length (replicate n a) ≡ n
  length-replicate zero a = refl
  length-replicate (suc n) a = ap suc (length-replicate n a)

  pub get_or-replicate : (n i : ℕ) (a : A) → get_or (replicate n a) i a ≡ a
  get_or-replicate zero i a = refl
  get_or-replicate (suc n) zero a = refl
  get_or-replicate (suc n) (suc i) a = get_or-replicate n i a

  pub get_or-set :
      (xs : List A) (i j : ℕ) (v d : A)
      → i < length xs
      → get_or (set xs i v) j d ≡ (if i == j then v else get_or xs j d)
  get_or-set [] i j v d h = elim h [ ]
  get_or-set (x ∷ xs) zero zero v d h = refl
  get_or-set (x ∷ xs) zero (suc j) v d h = ground arith
  get_or-set (x ∷ xs) (suc i) zero v d h = ground arith
  get_or-set (x ∷ xs) (suc i) (suc j) v d h = ground (arith, get_or-set xs i j v d)

-- One write of memory.
abbrev pub update {ℓ} : {A : Type ℓ} → (ℕ → A) → ℕ → A → ℕ → A
update m i v j = if i == j then v else m j

module _ {ℓ} {A : Type ℓ} where
  -- The `n` cells from `i` on, as a list: `memcpy` out of memory.
  abbrev pub slice : (ℕ → A) → ℕ → ℕ → List A
  slice m i zero = []
  slice m i (suc n) = m i ∷ slice m (suc i) n

  -- `memcpy` into memory, the first cell first.
  abbrev pub write : (ℕ → A) → ℕ → List A → ℕ → A
  write m i [] = m
  write m i (x ∷ xs) = write (update m i x) (suc i) xs

  pub length-slice : (m : ℕ → A) (i n : ℕ) → length (slice m i n) ≡ n
  length-slice m i zero = refl
  length-slice m i (suc n) = ap suc (length-slice m (suc i) n)

  -- Two memories that agree on the cells read give the same list.
  pub slice_congr :
      (m m' : ℕ → A) (i i' n : ℕ)
      → ((k : ℕ) → k < n → m (i + k) ≡ m' (i' + k))
      → slice m i n ≡ slice m' i' n
  slice_congr m m' i i' zero h = refl
  slice_congr m m' i i' (suc n) h =
      let here : m i ≡ m' i' = ground (arith, h 0) in
      ap₂ (λ (x : A) (xs : List A). x ∷ xs) here
        (slice_congr m m' (suc i) (suc i') n (λ k lt. ground (arith, h (suc k))))

  -- The list shows the cells.
  pub slice-injective :
      (m m' : ℕ → A) (i n k : ℕ) → slice m i n ≡ slice m' i n → k < n → m (i + k) ≡ m' (i + k)
  slice-injective m m' i zero k e h = elim h [ ]
  slice-injective m m' i (suc n) zero e h = let z : i + 0 ≡ i = omega arith in rw z (cc e)
  slice-injective m m' i (suc n) (suc k) e h =
      let s : i + suc k ≡ suc i + k = omega arith in
      rw s (slice-injective m m' (suc i) n k (cc e) (omega arith))

  pub slice-append : (m : ℕ → A) (i a b : ℕ) → slice m i (a + b) ≡ slice m i a ++ slice m (i + a) b
  slice-append m i zero b = ground arith
  slice-append m i (suc a) b =
      let e : suc a + b ≡ suc (a + b) = omega arith in
      let f : i + suc a ≡ suc i + a = omega arith in
      rw (e, f) (ap (λ (xs : List A). m i ∷ xs) (slice-append m (suc i) a b))

  -- A write leaves the cells below and behind it alone.
  pub write_below : (m : ℕ → A) (i : ℕ) (xs : List A) (j : ℕ) → j < i → write m i xs j ≡ m j
  write_below m i [] j h = refl
  write_below m i (x ∷ xs) j h = ground (arith, write_below (update m i x) (suc i) xs j)

  pub write_above :
      (m : ℕ → A) (i : ℕ) (xs : List A) (j : ℕ) → i + length xs ≤ j → write m i xs j ≡ m j
  write_above m i [] j h = refl
  write_above m i (x ∷ xs) j h = ground (arith, write_above (update m i x) (suc i) xs j)

  -- What was written is what is read.
  pub slice-write : (m : ℕ → A) (i : ℕ) (xs : List A) → slice (write m i xs) i (length xs) ≡ xs
  slice-write m i [] = refl
  slice-write m i (x ∷ xs) =
      ground (arith, write_below (update m i x) (suc i) xs i, slice-write (update m i x) (suc i) xs)

  -- `i` is 0 where a whole line is read.
  pub slice-append_zero : (m : ℕ → A) (a b : ℕ) → slice m 0 (a + b) ≡ slice m 0 a ++ slice m a b
  slice-append_zero m a b =
      slice-append m 0 a b ∙ ap (λ (i : ℕ). slice m 0 a ++ slice m i b) (zero-add a)

  -- The first `ll` cells, in three parts.
  pub split_three :
      (m : ℕ → A) (c n ll : ℕ)
      → c + n ≤ ll
      → slice m 0 ll ≡ slice m 0 c ++ (slice m c n ++ slice m (c + n) (ll - (c + n)))
  split_three m c n ll h =
      let e : ll ≡ c + (n + (ll - (c + n))) = omega arith in
      ap (slice m 0) e
      ∙ slice-append_zero m c _
      ∙ ap (λ (x : List A). slice m 0 c ++ x) (slice-append m c n (ll - (c + n)))

  -- Up to the end of what was written.
  pub slice-write_upto :
      (m : ℕ → A) (i : ℕ) (xs : List A) → slice (write m i xs) 0 (i + length xs) ≡ slice m 0 i ++ xs
  slice-write_upto m i xs =
      slice-append_zero (write m i xs) i (length xs)
      ∙ ap₂ (λ (x y : List A). x ++ y)
          (slice_congr (write m i xs) m 0 0 i (λ k h. ground (arith, write_below m i xs (0 + k))))
          (slice-write m i xs)
