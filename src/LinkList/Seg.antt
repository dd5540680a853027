-- ===== src/LinkList/Seg.antt =====
-- What it means that a heap holds a list, and what writes leave of it.
use winzsh.Prelude.{
  ℕ, ◌≡◌, ◌∙◌, refl, sym, ap, List, [], ◌∷◌, ◌++◌, true, false, ◌==◌, subst, arith,
}
use winzsh.Prelude.Lists.{update}
use winzsh.LinkList.{Heap}
use winzsh.LinkList.Nodes.{away, distinct, all_below, before, away_append}

-- Along `next` from `p` stand the nodes `ns`, each with the one before as its `last`, up to `q`.
unfoldable pub Seg : (next last : ℕ → ℕ) → ℕ → List ℕ → ℕ → Type 0
Seg next last p [] q = p ≡ q
Seg next last p (n ∷ ns) q = (next p ≡ n) × (last n ≡ p) × Seg next last n ns q

-- The list at `l` has the nodes `ns`.
pub record IsList {A : Type 0} (h : Heap A) (l : ℕ) (ns : List ℕ) : Type 0 where
  pub linked : Seg h.next h.last l ns (h.last l)
  pub ended : h.next (h.last l) ≡ 0
  pub apart : distinct (l ∷ ns) ≡ true
  pub real : away 0 (l ∷ ns) ≡ true
  pub in_heap : all_below h.free (l ∷ ns) ≡ true

pub with_end :
    {A : Type 0} (h : Heap A) (l q : ℕ) (ns : List ℕ)
    → h.last l ≡ q
    → Seg h.next h.last l ns q
    → h.next q ≡ 0
    → distinct (l ∷ ns) ≡ true
    → away 0 (l ∷ ns) ≡ true
    → all_below h.free (l ∷ ns) ≡ true
    → IsList h l ns
with_end h l q ns e s z d r b = record {
  linked = subst (λ (x : ℕ). Seg h.next h.last l ns x) (sym e) s;
  ended = ap h.next e ∙ z;
  apart = d;
  real = r;
  in_heap = b;
}

module _ (nx ls : ℕ → ℕ) where
  pub Seg-next :
      (x v p q : ℕ) (ns : List ℕ)
      → away x (before p ns) ≡ true
      → Seg nx ls p ns q
      → Seg (update nx x v) ls p ns q
  unfolding Seg away before
  Seg-next x v p q [] h s = s
  Seg-next x v p q (n ∷ ns) h (a, b, s) =
      (ground (arith, a, h), b, Seg-next x v n q ns (ground (arith, h)) s)

  pub Seg-last :
      (x v p q : ℕ) (ns : List ℕ)
      → away x ns ≡ true
      → Seg nx ls p ns q
      → Seg nx (update ls x v) p ns q
  unfolding Seg away
  Seg-last x v p q [] h s = s
  Seg-last x v p q (n ∷ ns) h (a, b, s) =
      (a, ground (arith, b, h), Seg-last x v n q ns (ground (arith, h)) s)

  pub Seg-append :
      (p m q : ℕ) (a b : List ℕ) → Seg nx ls p a m → Seg nx ls m b q → Seg nx ls p (a ++ b) q
  unfolding Seg
  Seg-append p m q [] b s t = subst (λ (x : ℕ). Seg nx ls x b q) (sym s) t
  Seg-append p m q (n ∷ a) b (e, f, s) t = (e, f, Seg-append n m q a b s t)

  -- The node at which a list is split.
  pub Seg-split :
      (p q : ℕ) (a b : List ℕ)
      → Seg nx ls p (a ++ b) q
      → (m : ℕ) × Seg nx ls p a m × Seg nx ls m b q
  unfolding Seg
  Seg-split p q [] b s = (p, refl, s)
  Seg-split p q (n ∷ a) b (e, f, s) = let (m, t, u) = Seg-split n q a b s in (m, (e, f, t), u)

  -- What follows the node that ends the first part.
  pub Seg-rest :
      (p m q : ℕ) (a b : List ℕ) → Seg nx ls p (a ++ b) q → Seg nx ls p a m → Seg nx ls m b q
  unfolding Seg
  Seg-rest p m q [] b s t = subst (λ (x : ℕ). Seg nx ls x b q) t s
  Seg-rest p m q (n ∷ a) b (e, f, s) (g, k, t) = Seg-rest n m q a b s t

  pub end-apart :
      (x p q : ℕ) (ns : List ℕ) → Seg nx ls p ns q → away x (p ∷ ns) ≡ true → (x == q) ≡ false
  unfolding Seg away
  end-apart x p q [] s h = ground (arith, s, h)
  end-apart x p q (n ∷ ns) (e, f, s) h = end-apart x n q ns s (ground (arith, h))

  -- The last node is away from what follows and from what is before it.
  pub end_away :
      (p m : ℕ) (a b : List ℕ) → Seg nx ls p a m → distinct (p ∷ (a ++ b)) ≡ true → away m b ≡ true
  unfolding Seg distinct away
  end_away p m [] b s h = ground (arith, s, h)
  end_away p m (n ∷ a) b (e, f, s) h = end_away n m a b s (ground (arith, h))

  pub end_before :
      (p m : ℕ) (a b : List ℕ)
      → Seg nx ls p a m
      → distinct (p ∷ (a ++ b)) ≡ true
      → away m (before p a) ≡ true
  unfolding Seg distinct before away
  end_before p m [] b s h = refl
  end_before p m (n ∷ a) b (e, f, s) h = ground (
    arith,
    end_before n m a b s (ground (arith, h)),
    end-apart p n m a s (ground (arith, h, away_append p a b)),
  )
