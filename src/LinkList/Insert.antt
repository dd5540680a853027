-- ===== src/LinkList/Insert.antt =====
-- `insertlinknode` of Src/linklist.c on the list that a heap holds.
use winzsh.Prelude.{
  ℕ, suc, ◌≡◌, ◌∙◌, refl, sym, ap, List, [], ◌∷◌, ◌++◌, map, Bool, true, false, ◌==◌, ◌&&◌,
  Bool-cases, subst, inl, inr, if◌then◌else◌, arith,
}
use winzsh.Prelude.Lists.{update}
use winzsh.LinkList.{Heap, is_null, set_next, set_last, set_dat, alloc, insertlinknode}
use winzsh.LinkList.Nodes.{
  away, distinct, all_below, away_append, away-before, below_away, all_below-suc, all_below_append,
  distinct_insert, distinct_middle, update_at, map-update, map_append,
}
use winzsh.LinkList.Seg.{
  Seg, IsList, Seg-next, Seg-last, Seg-append, Seg-rest, with_end, end-apart, end_away, end_before,
}

-- The links, of which `nx` and `ls` are those before, and `t` is the new node.
module _ (nx ls : ℕ → ℕ) (l m t : ℕ) (a : List ℕ) where
  abbrev nx' : ℕ → ℕ
  nx' = update (update nx m t) t (nx m)

  -- What stands before the new node, if the other write is at `x`.
  front :
      (x : ℕ) (b : List ℕ)
      → Seg nx ls l a m
      → distinct (l ∷ (a ++ b)) ≡ true
      → away t (l ∷ (a ++ b)) ≡ true
      → away x a ≡ true
      → Seg nx' (update (update ls t m) x t) l a m
  unfolding away
  front x b s d f o =
      let ft : (away t (l ∷ a)) ≡ true = ground (arith, f, away_append t a b) in
      Seg-last nx' (update ls t m) x t l m a o (
        Seg-last nx' ls t m l m a (ground (arith, ft)) (
          Seg-next (update nx m t) ls t (nx m) l m a (away-before t l a ft)
            (Seg-next nx ls m t l m a (end_before nx ls l m a b s d) s)))

  -- What stands behind it, from the node `n` on.
  back :
      (n q : ℕ) (b : List ℕ)
      → Seg nx ls n b q
      → away m (n ∷ b) ≡ true
      → away t (n ∷ b) ≡ true
      → away n b ≡ true
      → Seg nx' (update (update ls t m) n t) n b q
  unfolding away
  back n q b s hm ht hn = Seg-last nx' (update ls t m) n t n q b hn (
      Seg-last nx' ls t m n q b (ground (arith, ht)) (
        Seg-next (update nx m t) ls t (nx m) n q b (away-before t n b ht)
          (Seg-next nx ls m t n q b (away-before m n b hm) s)))

module _ {A : Type 0} where
  -- The heap after `insertlinknode`, the last write being at `x`.
  abbrev inserted : Heap A → (m : ℕ) → A → (x : ℕ) → Heap A
  inserted h m d x =
      set_last
        (set_next (set_dat (set_last (set_next (alloc h) m h.free) h.free m) h.free d) h.free
          (h.next m))
        x h.free

  insertlinknode-inserted :
      (h : Heap A) (l m : ℕ) (d : A) (b : Bool)
      → is_null (h.next m) ≡ b
      → insertlinknode l m d h ≡ (if b then inserted h m d l else inserted h m d (h.next m))
  unfolding insertlinknode
  insertlinknode-inserted h l m d b e =
      ap (λ (x : Bool). if x then inserted h m d l else inserted h m d (h.next m)) e

  module _ (h : Heap A) (l : ℕ) (a b : List ℕ) (is : IsList h l (a ++ b)) where
    t_away : away h.free (l ∷ (a ++ b)) ≡ true
    t_away = below_away h.free (l ∷ (a ++ b)) is.in_heap

    still_apart : distinct (l ∷ (a ++ (h.free ∷ b))) ≡ true
    still_apart = distinct_insert h.free (l ∷ a) b t_away is.apart

    still_real : away 0 (l ∷ (a ++ (h.free ∷ b))) ≡ true
    unfolding away all_below
    still_real =
        ground (arith, is.real, is.in_heap, away_append 0 a b, away_append 0 a (h.free ∷ b))

    still_below : all_below (suc h.free) (l ∷ (a ++ (h.free ∷ b))) ≡ true
    unfolding all_below
    still_below = ground (
      arith,
      all_below-suc h.free (l ∷ (a ++ b)) is.in_heap,
      all_below_append (suc h.free) a b,
      all_below_append (suc h.free) a (h.free ∷ b),
    )

  at_end :
      (h : Heap A) (l m : ℕ) (d : A) (a : List ℕ)
      → IsList h l (a ++ [])
      → Seg h.next h.last l a m
      → IsList (insertlinknode l m d h) l (a ++ (h.free ∷ []))
  unfolding Seg away distinct
  at_end h l m d a is s =
      let t = h.free in
      let t_out = t_away h l a [] is in
      let q : m ≡ h.last l = Seg-rest h.next h.last l m (h.last l) a [] is.linked s in
      let z : h.next m ≡ 0 = ap h.next q ∙ is.ended in
      let tm : (t == m) ≡ false =
        end-apart h.next h.last t l m a s (ground (arith, t_out, away_append t a [])) in
      let links : Seg (nx' h.next h.last l m t a) (update (update h.last t m) l t) l (a ++ (t ∷ []))
          t =
        Seg-append _ _ l m t a (t ∷ [])
          (front h.next h.last l m t a l [] s is.apart t_out
            (ground (arith, is.apart, away_append l a [])))
          (ground (arith, tm), ground (arith, t_out), refl) in
      subst (λ (g : Heap A). IsList g l (a ++ (t ∷ [])))
        (sym (insertlinknode-inserted h l m d true (ground (arith, z))))
        (with_end (inserted h m d l) l t (a ++ (t ∷ [])) (ground arith) links (ground (arith, z))
          (still_apart h l a [] is) (still_real h l a [] is) (still_below h l a [] is))

  inside :
      (h : Heap A) (l m n : ℕ) (d : A) (a b : List ℕ)
      → IsList h l (a ++ (n ∷ b))
      → Seg h.next h.last l a m
      → IsList (insertlinknode l m d h) l (a ++ (h.free ∷ n ∷ b))
  unfolding Seg away distinct
  inside h l m n d a b is s =
      let t = h.free in
      let q = h.last l in
      let t_out = t_away h l a (n ∷ b) is in
      let (e, k, r) = Seg-rest h.next h.last l m q a (n ∷ b) is.linked s in
      let t_away_back : away t (n ∷ b) ≡ true = ground (arith, t_out, away_append t a (n ∷ b)) in
      let m_away : away m (n ∷ b) ≡ true = end_away h.next h.last l m a (n ∷ b) s is.apart in
      let n_away : (away n (l ∷ a) && away n b) ≡ true = distinct_middle n (l ∷ a) b is.apart in
      let tm : (t == m) ≡ false =
        end-apart h.next h.last t l m a s (ground (arith, t_out, away_append t a (n ∷ b))) in
      let z : (n == 0) ≡ false = ground (arith, is.real, away_append 0 a (n ∷ b)) in
      let tn : (t == n) ≡ false = ground (arith, t_away_back) in
      let qt : (t == q) ≡ false = end-apart h.next h.last t n q b r t_away_back in
      let qm : (m == q) ≡ false = end-apart h.next h.last m n q b r m_away in
      let links : Seg (nx' h.next h.last l m t a) (update (update h.last t m) n t) l
          (a ++ (t ∷ n ∷ b)) q =
        Seg-append _ _ l m q a (t ∷ n ∷ b)
          (front h.next h.last l m t a n (n ∷ b) s is.apart t_out (ground (arith, n_away)))
          (
            ground (arith, tm),
            ground (arith, tn),
            (
              ground (arith, e),
              ground arith,
              back h.next h.last l m t a n q b r m_away t_away_back (ground (arith, n_away)),
            ),
          ) in
      subst (λ (g : Heap A). IsList g l (a ++ (t ∷ n ∷ b)))
        (sym (
          insertlinknode-inserted h l m d false (ground (arith, e, z))
          ∙ ap (λ (x : ℕ). inserted h m d x) e))
        (with_end (inserted h m d n) l q (a ++ (t ∷ n ∷ b)) (ground (arith, t_out, n_away)) links
          (ground (arith, qt, qm, is.ended)) (still_apart h l a (n ∷ b) is)
          (still_real h l a (n ∷ b) is) (still_below h l a (n ∷ b) is))

  insertlinknode-IsList :
      (h : Heap A) (l m : ℕ) (d : A) (a b : List ℕ)
      → IsList h l (a ++ b)
      → Seg h.next h.last l a m
      → IsList (insertlinknode l m d h) l (a ++ (h.free ∷ b))
  insertlinknode-IsList h l m d a [] is s = at_end h l m d a is s
  insertlinknode-IsList h l m d a (n ∷ b) is s = inside h l m n d a b is s

  insertlinknode_dat :
      (h : Heap A) (l m : ℕ) (d : A) → (insertlinknode l m d h).dat ≡ update h.dat h.free d
  insertlinknode_dat h l m d = elim (Bool-cases (is_null (h.next m))) [
    | inl e ↦ ap (λ (g : Heap A). g.dat) (insertlinknode-inserted h l m d true e)
    | inr e ↦ ap (λ (g : Heap A). g.dat) (insertlinknode-inserted h l m d false e)
  ]

  new_contents :
      (h : Heap A) (l : ℕ) (d : A) (a b : List ℕ)
      → IsList h l (a ++ b)
      → map (update h.dat h.free d) (a ++ (h.free ∷ b)) ≡ map h.dat a ++ (d ∷ map h.dat b)
  unfolding away
  new_contents h l d a b is =
      let t = h.free in
      let out = t_away h l a b is in
      let both = away_append t a b in
      map_append (update h.dat t d) a (t ∷ b)
      ∙ rw
          (
            map-update h.dat t d a (ground (arith, out, both)),
            map-update h.dat t d b (ground (arith, out, both)),
          )
          (ap (λ (x : A). map h.dat a ++ (x ∷ map h.dat b)) (update_at h.dat t d))

  -- Where a heap holds a list, and a node, the list itself being one, ends its first part,
  -- `insertlinknode` behind that node leaves a list, whose data are those of the first part, the
  -- new one, and those of the rest.
  pub insertlinknode-refines :
      (h : Heap A) (l m : ℕ) (d : A) (a b : List ℕ)
      → IsList h l (a ++ b)
      → Seg h.next h.last l a m
      → (ns : List ℕ) × IsList (insertlinknode l m d h) l ns
        × (map (insertlinknode l m d h).dat ns ≡ map h.dat a ++ (d ∷ map h.dat b))
  insertlinknode-refines h l m d a b is s = (
    a ++ (h.free ∷ b),
    insertlinknode-IsList h l m d a b is s,
    ap (λ (f : ℕ → A). map f (a ++ (h.free ∷ b))) (insertlinknode_dat h l m d)
        ∙ new_contents h l d a b is,
  )
