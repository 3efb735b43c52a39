-- ===== src/IntrusiveList/Erase.antt =====
-- The removals: the nodes on both sides of one are linked, and its pointers are null.
use mcoro.Prelude.{
  ℕ, ◌≡◌, ◌≢◌, refl, List, [], ◌∷◌, ◌++◌, arith, sym, ◌∙◌, All, done, append-nil, subst, update,
  ==_ne, ==_self, ◌==◌, false,
}
use mcoro.IntrusiveList.{
  Nodes, null, get_next, get_prev, set_next, set_prev, unlink, erase, erase_from_parent, pop_front,
  pop_back, empty,
}
use mcoro.IntrusiveList.Ring.{
  Links, Chain, Distinct, IsList, Chain-frame, last, first, Chain-first, All-last, All-first,
  All-append_left, All-append_right, All-erase, All-at, Misses,
}

-- `s'` is `s` without `n`, which stood between `p` and `q`.
pub record Removed (s s' : Nodes) (p n q : ℕ) : Type 0 where
  pub next_p : s'.next p ≡ q
  pub prev_q : s'.prev q ≡ p
  pub next_n : s'.next n ≡ null
  pub prev_n : s'.prev n ≡ null
  pub next_other : (x : ℕ) → p ≢ x → n ≢ x → s'.next x ≡ s.next x
  pub prev_other : (x : ℕ) → q ≢ x → n ≢ x → s'.prev x ≡ s.prev x

module _ (s s' : Nodes) (n : ℕ) where
  Chain-erase_front :
      (a b : ℕ) (ys : List ℕ)
      → Removed s s' a n (first ys b)
      → n ≢ b
      → Misses a ys
      → Misses b ys
      → Distinct (n ∷ ys)
      → Chain s n ys b
      → Chain s' a ys b
  Chain-erase_front a b [] i nb ma mb d c = (i.next_p, i.prev_q)
  Chain-erase_front a b (y ∷ ys) i nb ma mb d (l, c) = (
    (i.next_p, i.prev_q),
    Chain-frame s s' y b ys (i.next_other y ma.0 d.0.0, next_others ys ma.1 d.0.1)
        (i.prev_other b (λ e. mb.0 (sym e)) nb, prev_others ys d.1.0 d.0.1) c,
  )
    where
      next_others : (zs : List ℕ) → Misses a zs → Misses n zs → All (λ x. s'.next x ≡ s.next x) zs
      next_others [] h k = tt
      next_others (z ∷ zs) h k = (i.next_other z h.0 k.0, next_others zs h.1 k.1)

      prev_others : (zs : List ℕ) → Misses y zs → Misses n zs → All (λ x. s'.prev x ≡ s.prev x) zs
      prev_others [] h k = tt
      prev_others (z ∷ zs) h k = (i.prev_other z h.0 k.0, prev_others zs h.1 k.1)

  Chain-erase :
      (a b : ℕ) (us ys : List ℕ)
      → Removed s s' (last a us) n (first ys b)
      → n ≢ b
      → Misses a (us ++ n ∷ ys)
      → Misses b (us ++ n ∷ ys)
      → Distinct (us ++ n ∷ ys)
      → Chain s a (us ++ n ∷ ys) b
      → Chain s' a (us ++ ys) b
  Chain-erase a b [] ys i nb ma mb d (l, c) = Chain-erase_front a b ys i nb ma.1 mb.1 d c
  Chain-erase a b (u ∷ us) ys i nb ma mb d (l, c) =
      let na : n ≢ a = λ e. All-at (λ x. a ≢ x) n us ys ma.1 (sym e) in
      let nu : n ≢ u = λ e. All-at (λ x. u ≢ x) n us ys d.0 (sym e) in
      let kept_next : s'.next a ≡ s.next a =
        i.next_other a
          (λ e.
            All-last (λ x. a ≢ x) u us (ma.0, All-append_left (λ x. a ≢ x) us (n ∷ ys) ma.1)
              (sym e))
          na in
      let kept_prev : s'.prev u ≡ s.prev u =
        i.prev_other u
          (λ e.
            All-first (λ x. u ≢ x) ys b
              ((λ f. mb.0 (sym f)), (All-append_right (λ x. u ≢ x) us (n ∷ ys) d.0).1) (sym e))
          nu in
      ((kept_next ∙ l.0, kept_prev ∙ l.1), Chain-erase u b us ys i nb d.0 mb.1 d.1 c)

Distinct-erase : (n : ℕ) (us ys : List ℕ) → Distinct (us ++ n ∷ ys) → Distinct (us ++ ys)
Distinct-erase n [] ys d = d.1
Distinct-erase n (u ∷ us) ys d = (All-erase (λ x. u ≢ x) n us ys d.0, Distinct-erase n us ys d.1)

-- The memory after each of the removals.
abbrev without : ℕ → ℕ → ℕ → Nodes → Nodes
without p n q s = record {
  next = update (update s.next p q) n null;
  prev = update (update s.prev q p) n null;
}

module _ (p n q : ℕ) (s : Nodes) (back : Links s p n) (ahead : Links s n q) (pn : p ≢ null)
    (nn : n ≢ null) (qn : q ≢ null) (np : n ≢ p) (nq : n ≢ q) where
  without-Removed : Removed s (without p n q s) p n q
  without-Removed = record {
    next_p = ground arith;
    prev_q = ground arith;
    next_n = ground arith;
    prev_n = ground arith;
    next_other = λ x a b. ground arith;
    prev_other = λ x a b. ground arith;
  }

  abbrev test_p : (p == null) ≡ false
  test_p = ==_ne p null pn

  abbrev test_n : (n == null) ≡ false
  test_n = ==_ne n null nn

  abbrev test_q : (q == null) ≡ false
  test_q = ==_ne q null qn

  abbrev p_ne_n : (p == n) ≡ false
  p_ne_n = ==_ne p n (λ e. np (sym e))

  abbrev q_ne_n : (q == n) ≡ false
  q_ne_n = ==_ne q n (λ e. nq (sym e))

  erase-run : erase n s ≡ done (tt, without p n q s)
  unfolding erase get_next get_prev set_next set_prev unlink
  erase-run = rw (test_n, ahead.0, back.1, test_q, q_ne_n, back.1, test_p, ahead.0) refl

  erase_from_parent-run : erase_from_parent n s ≡ done (tt, without p n q s)
  unfolding erase_from_parent get_next get_prev set_next set_prev
  erase_from_parent-run = rw (test_n, ahead.0, test_q, test_n, back.1, test_p, ahead.0, test_q) refl

  pop_front-run : pop_front p s ≡ done (n, without p n q s)
  unfolding pop_front get_next get_prev set_next set_prev unlink
  pop_front-run = rw (test_p, back.0, ==_ne n p np, test_n, ahead.0, test_q, test_p, ahead.0) refl

  pop_back-run : pop_back q s ≡ done (n, without p n q s)
  unfolding pop_back get_next get_prev set_next set_prev unlink
  pop_back-run =
      rw
        (
          test_q,
          ahead.1,
          ==_ne n q nq,
          test_n,
          ahead.0,
          back.1,
          test_q,
          q_ne_n,
          back.1,
          test_p,
          ahead.0,
        )
        refl

Distinct-left : (n : ℕ) (us ys : List ℕ) → Distinct (us ++ n ∷ ys) → Misses n us
Distinct-left n [] ys d = tt
Distinct-left n (u ∷ us) ys d =
    ((λ e. All-at (λ x. u ≢ x) n us ys d.0 (sym e)), Distinct-left n us ys d.1)

Distinct-right : (n : ℕ) (us ys : List ℕ) → Distinct (us ++ n ∷ ys) → Misses n ys
Distinct-right n [] ys d = d.0
Distinct-right n (u ∷ us) ys d = Distinct-right n us ys d.1

Links-at :
    (s : Nodes) (a n b : ℕ) (us ys : List ℕ)
    → Chain s a (us ++ n ∷ ys) b
    → Links s (last a us) n × Links s n (first ys b)
Links-at s a n b [] ys (l, c) = (l, Chain-first s n b ys c)
Links-at s a n b (u ∷ us) ys (l, c) = Links-at s u n b us ys c

module _ {root : ℕ} {s : Nodes} (n : ℕ) (us ys : List ℕ) (is : IsList root s (us ++ n ∷ ys)) where
  abbrev before : ℕ
  before = last root us

  abbrev behind : ℕ
  behind = first ys root

  n_root : n ≢ root
  n_root e = All-at (λ x. root ≢ x) n us ys is.distinct.0 (sym e)

  -- A removal of `n`, given that the pointers are as it needs them.
  remove_between :
      (P : Nodes → Type 0)
      → (Links s before n
          → Links s n behind
          → before ≢ null
          → n ≢ null
          → behind ≢ null
          → n ≢ before
          → n ≢ behind
          → P (without before n behind s))
      → (s' : Nodes) × P s' × IsList root s' (us ++ ys) × Removed s s' before n behind
  remove_between P holds =
      let (back, ahead) = Links-at s root n root us ys is.ring in
      let Full : ℕ → Type 0 = λ x. x ≢ null in
      let pn =
        All-last Full root us (is.not_null.0, All-append_left Full us (n ∷ ys) is.not_null.1) in
      let right = All-append_right Full us (n ∷ ys) is.not_null.1 in
      let qn = All-first Full ys root (is.not_null.0, right.1) in
      let np = All-last (λ x. n ≢ x) root us (n_root, Distinct-left n us ys is.distinct.1) in
      let nq = All-first (λ x. n ≢ x) ys root (n_root, Distinct-right n us ys is.distinct.1) in
      let gone = without-Removed before n behind s back ahead pn right.0 qn np nq in
      (
        without before n behind s,
        holds back ahead pn right.0 qn np nq,
        record {
          ring =
              Chain-erase s _ n root root us ys gone n_root is.distinct.0 is.distinct.0
                is.distinct.1 is.ring;
          distinct = (
            All-erase (λ x. root ≢ x) n us ys is.distinct.0,
            Distinct-erase n us ys is.distinct.1,
          );
          not_null = (is.not_null.0, All-erase Full n us ys is.not_null.1);
        },
        gone,
      )

  destroyed : (s' : Nodes) → n ≢ null → s'.next n ≡ null → erase_from_parent n s' ≡ done (tt, s')
  unfolding erase_from_parent get_next
  destroyed s' ne e = rw (==_ne n null ne, e) refl

  -- In a memory that holds a list, `erase` of a node of it and `erase_from_parent` of that node
  -- both are defined and lead to the same memory, in which a second `erase_from_parent` of the
  -- node changes nothing. The list is the one without the node, the pointers of the node are
  -- null, and no other pointer than those of its neighbours has changed.
  pub erase-IsList :
      (s' : Nodes) × ((erase n s ≡ done (tt, s'))
        × (erase_from_parent n s ≡ done (tt, s'))
        × (erase_from_parent n s' ≡ done (tt, s')))
      × IsList root s' (us ++ ys)
      × Removed s s' before n behind
  erase-IsList =
      remove_between
        (λ s'.
          (erase n s ≡ done (tt, s'))
          × (erase_from_parent n s ≡ done (tt, s'))
          × (erase_from_parent n s' ≡ done (tt, s')))
        λ b a pn nn qn np nq. (
          erase-run before n behind s b a pn nn qn np nq,
          erase_from_parent-run before n behind s b a pn nn qn np nq,
          destroyed _ nn (ground arith),
        )

module _ {root : ℕ} {s : Nodes} where
  -- `pop_front` of a list that is not empty is defined and returns its first node. The memory
  -- holds the list without that node, the pointers of the node are null, and no other pointer
  -- than those of its neighbours has changed.
  pub pop_front-IsList :
      (n : ℕ) (xs : List ℕ)
      → IsList root s (n ∷ xs)
      → (s' : Nodes) × (pop_front root s ≡ done (n, s'))
        × IsList root s' xs
        × Removed s s' root n (first xs root)
  pop_front-IsList n xs is =
      remove_between n [] xs is (λ s'. pop_front root s ≡ done (n, s'))
        λ b a pn nn qn np nq. pop_front-run root n (first xs root) s b a pn nn qn np nq

  pub pop_back-IsList :
      (n : ℕ) (xs : List ℕ)
      → IsList root s (xs ++ n ∷ [])
      → (s' : Nodes) × (pop_back root s ≡ done (n, s')) × IsList root s' xs
  pop_back-IsList n xs is =
      let (s', runs, is', gone) =
        remove_between n xs [] is (λ s'. pop_back root s ≡ done (n, s'))
          λ b a pn nn qn np nq. pop_back-run (last root xs) n root s b a pn nn qn np nq in
      (s', runs, subst (IsList root s') (append-nil xs) is')

  pub pop-nil :
      IsList root s [] → (pop_front root s ≡ done (null, s)) × (pop_back root s ≡ done (null, s))
  unfolding pop_front pop_back get_next get_prev
  pop-nil is = (
    rw (==_ne root null is.not_null.0, is.ring.0, ==_self root) refl,
    rw (==_ne root null is.not_null.0, is.ring.1, ==_self root) refl,
  )

  -- `empty` is false on every list that a memory holds, the empty one included.
  pub empty-false : (xs : List ℕ) → IsList root s xs → empty root s ≡ done (false, s)
  unfolding empty get_next
  empty-false xs is =
      let link = Chain-first s root root xs is.ring in
      let full = All-first (λ x. x ≢ null) xs root is.not_null in
      rw (==_ne root null is.not_null.0, link.0, ==_ne (first xs root) null full) refl
