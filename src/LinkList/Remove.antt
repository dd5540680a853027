-- ===== src/LinkList/Remove.antt =====
-- `uremnode`, `remnode`, `ugetnode` and `getlinknode` of Src/linklist.c on the list that a heap
-- holds.
use winzsh.Prelude.{
  ℕ, ◌≡◌, ◌∙◌, refl, sym, ap, List, [], ◌∷◌, ◌++◌, map, true, false, ◌==◌, ◌&&◌, Option, none, some,
  Bool-cases, subst, inl, inr, if◌then◌else◌, arith,
}
use mathlib.Core.Path.{ap₂}
use winzsh.Prelude.Lists.{update}
use winzsh.LinkList.{
  Heap, is_null, set_next, set_last, zfree, uremnode, remnode, ugetnode, with_zfree, getlinknode,
}
use winzsh.LinkList.Nodes.{
  away, distinct, all_below, away_append, away-before, all_below_append, distinct_remove,
  distinct_middle,
}
use winzsh.LinkList.Seg.{
  Seg, IsList, Seg-next, Seg-last, Seg-append, Seg-rest, Seg-split, with_end, end-apart, end_away,
  end_before,
}

abbrev pub without_top : List ℕ → List ℕ
without_top [] = []
without_top (n ∷ ns) = ns

module _ {A : Type 0} where
  -- The heap without the node `nd`, the one before it being `m`.
  taken : Heap A → (l m nd : ℕ) → Heap A
  taken h l m nd =
      let h₁ = set_next h m (h.next nd) in
      if is_null (h₁.next nd) then set_last h₁ l m else set_last h₁ (h₁.next nd) m

  taken_rest :
      (h : Heap A) (l m nd : ℕ)
      → ((taken h l m nd).dat ≡ h.dat) × ((taken h l m nd).freed ≡ h.freed)
  unfolding taken
  taken_rest h l m nd = elim (Bool-cases (is_null (update h.next m (h.next nd) nd))) [
    | inl e ↦ rw (e, taken) (refl, refl)
    | inr e ↦ rw (e, taken) (refl, refl)
  ]

  uremnode-taken :
      (h : Heap A) (l m nd : ℕ) → h.last nd ≡ m → uremnode l nd h ≡ (h.dat nd, taken h l m nd)
  unfolding uremnode taken
  uremnode-taken h l m nd e =
      ap (λ (x : ℕ). let g = taken h l x nd in (g.dat nd, g)) e
      ∙ ap (λ (f : ℕ → A). (f nd, taken h l m nd)) ((taken_rest h l m nd).0)

  module _ (h : Heap A) (l m nd : ℕ) (a b : List ℕ) (is : IsList h l (a ++ (nd ∷ b)))
      (s : Seg h.next h.last l a m) where
    less_apart : distinct (l ∷ (a ++ b)) ≡ true
    less_apart = distinct_remove nd (l ∷ a) b is.apart

    less_real : away 0 (l ∷ (a ++ b)) ≡ true
    unfolding away
    less_real = ground (arith, is.real, away_append 0 a b, away_append 0 a (nd ∷ b))

    less_below : all_below h.free (l ∷ (a ++ b)) ≡ true
    unfolding all_below
    less_below =
        ground (arith, is.in_heap, all_below_append h.free a b, all_below_append h.free a (nd ∷ b))

    -- What stands before, if the other write is at `x`.
    front : (v x : ℕ) → away x a ≡ true → Seg (update h.next m v) (update h.last x m) l a m
    front v x o =
        Seg-last (update h.next m v) h.last x m l m a o
          (Seg-next h.next h.last m v l m a (end_before h.next h.last l m a (nd ∷ b) s is.apart) s)

  taken_last :
      (h : Heap A) (l m nd : ℕ) (a : List ℕ)
      → IsList h l (a ++ (nd ∷ []))
      → Seg h.next h.last l a m
      → IsList (taken h l m nd) l (a ++ [])
  unfolding Seg away distinct taken
  taken_last h l m nd a is s =
      let (e, f, q) = Seg-rest h.next h.last l m (h.last l) a (nd ∷ []) is.linked s in
      let z : h.next nd ≡ 0 = ap h.next q ∙ is.ended in
      let m_away : away m (nd ∷ []) ≡ true = end_away h.next h.last l m a (nd ∷ []) s is.apart in
      let now : update h.next m (h.next nd) nd ≡ 0 = ground (arith, z) in
      rw (now, taken)
        (with_end (set_last (set_next h m (h.next nd)) l m) l m (a ++ []) (ground arith)
          (Seg-append _ _ l m m a []
            (front h l m nd a [] is s (h.next nd) l
              (ground (arith, is.apart, away_append l a (nd ∷ []))))
            refl)
          (ground (arith, z)) (less_apart h l m nd a [] is s) (less_real h l m nd a [] is s)
          (less_below h l m nd a [] is s))

  taken_inside :
      (h : Heap A) (l m nd n : ℕ) (a b : List ℕ)
      → IsList h l (a ++ (nd ∷ n ∷ b))
      → Seg h.next h.last l a m
      → IsList (taken h l m nd) l (a ++ (n ∷ b))
  unfolding Seg away distinct taken
  taken_inside h l m nd n a b is s =
      let q = h.last l in
      let (e, f, (g, k, r)) = Seg-rest h.next h.last l m q a (nd ∷ n ∷ b) is.linked s in
      let m_away : away m (nd ∷ n ∷ b) ≡ true =
        end_away h.next h.last l m a (nd ∷ n ∷ b) s is.apart in
      let z : (n == 0) ≡ false = ground (arith, is.real, away_append 0 a (nd ∷ n ∷ b)) in
      let now : update h.next m (h.next nd) nd ≡ n = ground (arith, g, m_away) in
      let apart = less_apart h l m nd a (n ∷ b) is s in
      let n_away : (away n (l ∷ a) && away n b) ≡ true = distinct_middle n (l ∷ a) b apart in
      let qm : (m == q) ≡ false = end-apart h.next h.last m n q b r (ground (arith, m_away)) in
      rw (now, z, taken)
        (with_end (set_last (set_next h m (h.next nd)) n m) l q (a ++ (n ∷ b))
          (ground (arith, n_away))
          (Seg-append _ _ l m q a (n ∷ b)
            (front h l m nd a (n ∷ b) is s (h.next nd) n (ground (arith, n_away)))
            (
              ground (arith, g),
              ground arith,
              Seg-last (update h.next m (h.next nd)) h.last n m n q b (ground (arith, n_away)) (
                  Seg-next h.next h.last m (h.next nd) n q b
                    (away-before m n b (ground (arith, m_away))) r),
            ))
          (ground (arith, qm, is.ended)) apart (less_real h l m nd a (n ∷ b) is s)
          (less_below h l m nd a (n ∷ b) is s))

  taken-IsList :
      (h : Heap A) (l m nd : ℕ) (a b : List ℕ)
      → IsList h l (a ++ (nd ∷ b))
      → Seg h.next h.last l a m
      → IsList (taken h l m nd) l (a ++ b)
  taken-IsList h l m nd a [] is s = taken_last h l m nd a is s
  taken-IsList h l m nd a (n ∷ b) is s = taken_inside h l m nd n a b is s

  zfree-IsList : (h : Heap A) (l x : ℕ) (ns : List ℕ) → IsList h l ns → IsList (zfree h x) l ns
  zfree-IsList h l x ns is = record {
    linked = is.linked;
    ended = is.ended;
    apart = is.apart;
    real = is.real;
    in_heap = is.in_heap;
  }

  -- What removing the node `nd` from `a`, `nd` and `b` gives, with `freed` after it.
  abbrev pub Removed : Heap A → (l nd : ℕ) → (a b freed : List ℕ) → A × Heap A → Type 0
  Removed h l nd a b freed (d, h') =
      (d ≡ h.dat nd) × IsList h' l (a ++ b) × (h'.dat ≡ h.dat) × (h'.freed ≡ freed)

  taken-Removed :
      (h : Heap A) (l m nd : ℕ) (a b : List ℕ)
      → IsList h l (a ++ (nd ∷ b))
      → Seg h.next h.last l a m
      → Removed h l nd a b h.freed (h.dat nd, taken h l m nd)
  taken-Removed h l m nd a b is s =
      let (same, f) = taken_rest h l m nd in (refl, taken-IsList h l m nd a b is s, same, f)

  zfree-Removed :
      (h g : Heap A) (l nd : ℕ) (a b : List ℕ) (d : A)
      → Removed h l nd a b h.freed (d, g)
      → Removed h l nd a b (nd ∷ h.freed) (d, zfree g nd)
  zfree-Removed h g l nd a b d (e, is, same, f) =
      (e, zfree-IsList g l nd (a ++ b) is, same, ap (λ (x : List ℕ). nd ∷ x) f)

  uremnode-Removed :
      (h : Heap A) (l nd : ℕ) (a b : List ℕ)
      → IsList h l (a ++ (nd ∷ b))
      → Removed h l nd a b h.freed (uremnode l nd h)
  unfolding Seg
  uremnode-Removed h l nd a b is =
      let (m, s, (e, f, r)) = Seg-split h.next h.last l (h.last l) a (nd ∷ b) is.linked in
      subst (Removed h l nd a b h.freed) (sym (uremnode-taken h l m nd f))
        (taken-Removed h l m nd a b is s)

  -- Where a heap holds a list with the node, `uremnode` and `remnode` return its datum and leave
  -- a list of the other nodes in their order, with the data that they had; `remnode` frees the
  -- node, and `uremnode` frees nothing.
  pub remnode-Removed :
      (h : Heap A) (l nd : ℕ) (a b : List ℕ)
      → IsList h l (a ++ (nd ∷ b))
      → Removed h l nd a b h.freed (uremnode l nd h)
        × Removed h l nd a b (nd ∷ h.freed) (remnode l nd h)
  unfolding remnode
  remnode-Removed h l nd a b is =
      let r = uremnode-Removed h l nd a b is in
      (r, zfree-Removed h (uremnode l nd h).1 l nd a b (uremnode l nd h).0 r)

  -- The top node is the one behind the list itself.
  ugetnode-taken :
      (h : Heap A) (l n : ℕ) (b : List ℕ)
      → IsList h l (n ∷ b)
      → ugetnode l h ≡ (some (h.dat n), taken h l l n)
  unfolding ugetnode taken Seg away
  ugetnode-taken h l n b is =
      let (e, f, r) = is.linked in
      let z : (n == 0) ≡ false = ground (arith, is.real) in
      ap (λ (x : ℕ). if is_null x then (none, h) else (some (h.dat x), taken h l l x)) e ∙ rw z refl

  getlinknode-taken :
      (h : Heap A) (l n : ℕ) (b : List ℕ)
      → IsList h l (n ∷ b)
      → getlinknode l h ≡ (some (h.dat n), zfree (taken h l l n) n)
  unfolding getlinknode Seg
  getlinknode-taken h l n b is = ap₂ with_zfree (ugetnode-taken h l n b is) (is.linked.0)

  getlinknode_empty : (h : Heap A) (l : ℕ) → IsList h l [] → getlinknode l h ≡ (none, h)
  unfolding getlinknode ugetnode Seg taken
  getlinknode_empty h l is =
      let z : h.next l ≡ 0 = ap h.next is.linked ∙ is.ended in
      ap
        (λ (x : ℕ). with_zfree (if is_null x then (none, h) else (some (h.dat x), taken h l l x)) x)
        z

  abbrev pub top : List A → Option A
  top [] = none
  top (d ∷ ds) = some d

  pub getlinknode-top :
      (h : Heap A) (l : ℕ) (ns : List ℕ)
      → IsList h l ns
      → ((getlinknode l h).0 ≡ top (map h.dat ns))
        × IsList (getlinknode l h).1 l (without_top ns)
        × ((getlinknode l h).1.dat ≡ h.dat)
  getlinknode-top h l [] is =
      subst (λ (r : Option A × Heap A). (r.0 ≡ none) × IsList r.1 l [] × (r.1.dat ≡ h.dat))
        (sym (getlinknode_empty h l is)) (refl, is, refl)
  getlinknode-top h l (n ∷ ns) is =
      subst
        (λ (r : Option A × Heap A). (r.0 ≡ some (h.dat n)) × IsList r.1 l ns × (r.1.dat ≡ h.dat))
        (sym (getlinknode-taken h l n ns is))
        (
          refl,
          zfree-IsList (taken h l l n) l n ns (taken-IsList h l l n [] ns is (unfold Seg in refl)),
          (taken_rest h l l n).0,
        )
