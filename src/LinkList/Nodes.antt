-- ===== src/LinkList/Nodes.antt =====
-- Lists of addresses, all different.
use mathlib.Core.List.{append-nil}
use winzsh.Prelude.Lists.{update}
use mathlib.Core.Path.{ap₂}
use winzsh.Prelude.{
  ℕ, suc, ◌≡◌, ◌∙◌, refl, ap, List, [], ◌∷◌, ◌++◌, map, Bool, true, false, not, ◌==◌, ◌&&◌, ==_iff,
  ltb, arith,
}

unfoldable pub away : ℕ → List ℕ → Bool
away x [] = true
away x (n ∷ ns) = not (x == n) && away x ns

unfoldable pub distinct : List ℕ → Bool
distinct [] = true
distinct (n ∷ ns) = away n ns && distinct ns

unfoldable pub all_below : ℕ → List ℕ → Bool
all_below k [] = true
all_below k (n ∷ ns) = ltb n k && all_below k ns

-- All but the last of `p` and `ns`.
unfoldable pub before : ℕ → List ℕ → List ℕ
before p [] = []
before p (n ∷ ns) = p ∷ before n ns

pub away_append : (x : ℕ) (a b : List ℕ) → away x (a ++ b) ≡ (away x a && away x b)
unfolding away
away_append x [] b = refl
away_append x (n ∷ a) b = ground (arith, away_append x a b)

pub away-before : (x p : ℕ) (ns : List ℕ) → away x (p ∷ ns) ≡ true → away x (before p ns) ≡ true
unfolding away before
away-before x p [] h = refl
away-before x p (n ∷ ns) h = ground (arith, h, away-before x n ns (ground (arith, h)))

pub below_away : (k : ℕ) (ns : List ℕ) → all_below k ns ≡ true → away k ns ≡ true
unfolding away all_below
below_away k [] h = refl
below_away k (n ∷ ns) h = ground (arith, h, below_away k ns (ground (arith, h)))

pub all_below-suc : (k : ℕ) (ns : List ℕ) → all_below k ns ≡ true → all_below (suc k) ns ≡ true
unfolding all_below
all_below-suc k [] h = refl
all_below-suc k (n ∷ ns) h = ground (arith, h, all_below-suc k ns (ground (arith, h)))

pub all_below_append :
    (k : ℕ) (a b : List ℕ) → all_below k (a ++ b) ≡ (all_below k a && all_below k b)
unfolding all_below
all_below_append k [] b = refl
all_below_append k (n ∷ a) b = ground (arith, all_below_append k a b)

-- A new address in the middle.
pub distinct_insert :
    (t : ℕ) (a b : List ℕ)
    → away t (a ++ b) ≡ true
    → distinct (a ++ b) ≡ true
    → distinct (a ++ (t ∷ b)) ≡ true
unfolding distinct away
distinct_insert t [] b h d = ground (arith, h, d)
distinct_insert t (n ∷ a) b h d = ground (
  arith,
  h,
  d,
  away_append n a (t ∷ b),
  away_append n a b,
  distinct_insert t a b (ground (arith, h)) (ground (arith, d)),
)

-- An address of the middle is in no other place.
pub distinct_middle :
    (n : ℕ) (a b : List ℕ) → distinct (a ++ (n ∷ b)) ≡ true → (away n a && away n b) ≡ true
unfolding distinct away
distinct_middle n [] b h = ground (arith, h)
distinct_middle n (x ∷ a) b h =
    ground (arith, h, away_append x a (n ∷ b), distinct_middle n a b (ground (arith, h)))

pub distinct_remove :
    (n : ℕ) (a b : List ℕ) → distinct (a ++ (n ∷ b)) ≡ true → distinct (a ++ b) ≡ true
unfolding distinct away
distinct_remove n [] b h = ground (arith, h)
distinct_remove n (x ∷ a) b h = ground (
  arith,
  h,
  away_append x a (n ∷ b),
  away_append x a b,
  distinct_remove n a b (ground (arith, h)),
)

pub away_swap : (x : ℕ) (a b : List ℕ) → away x (a ++ b) ≡ true → away x (b ++ a) ≡ true
away_swap x a b h = ground (arith, h, away_append x a b, away_append x b a)

pub distinct_swap : (a b : List ℕ) → distinct (a ++ b) ≡ true → distinct (b ++ a) ≡ true
unfolding distinct
distinct_swap [] b h = ap distinct (append-nil b) ∙ h
distinct_swap (x ∷ a) b h =
    distinct_insert x b a (away_swap x a b (ground (arith, h)))
      (distinct_swap a b (ground (arith, h)))

-- The two last parts change places.
pub distinct_turn :
    (a b c : List ℕ) → distinct (a ++ (b ++ c)) ≡ true → distinct (a ++ (c ++ b)) ≡ true
unfolding distinct
distinct_turn [] b c h = distinct_swap b c h
distinct_turn (x ∷ a) b c h = ground (
  arith,
  h,
  distinct_turn a b c (ground (arith, h)),
  away_append x a (b ++ c),
  away_append x a (c ++ b),
  away_append x b c,
  away_append x c b,
)

module _ {A : Type 0} (f : ℕ → A) where
  pub update_at : (t : ℕ) (d : A) → update f t d t ≡ d
  update_at t d = rw ((==_iff t t).1 refl) refl

  update_other : (t n : ℕ) (d : A) → (t == n) ≡ false → update f t d n ≡ f n
  update_other t n d e = rw e refl

  -- A write to another address.
  pub map-update :
      (t : ℕ) (d : A) (ns : List ℕ) → away t ns ≡ true → map (update f t d) ns ≡ map f ns
  unfolding away
  map-update t d [] h = refl
  map-update t d (n ∷ ns) h =
      ap₂ (λ (x : A) (xs : List A). x ∷ xs) (update_other t n d (ground (arith, h)))
        (map-update t d ns (ground (arith, h)))

  pub map_append : (a b : List ℕ) → map f (a ++ b) ≡ map f a ++ map f b
  map_append [] b = refl
  map_append (x ∷ a) b = ap (λ (xs : List A). f x ∷ xs) (map_append a b)
