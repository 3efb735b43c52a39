-- ===== src/IntrusiveList/Insert.antt =====
-- The insertions: a node comes between two that follow one another.
use mcoro.Prelude.{
  ℕ, ◌≡◌, ◌≢◌, refl, List, [], ◌∷◌, ◌++◌, arith, sym, ◌∙◌, All, done, append_assoc, append-nil,
  subst, update, Access, ==_ne, ==_self, ◌==◌, false,
}
use mcoro.IntrusiveList.{
  Nodes, null, get_next, get_prev, set_next, set_prev, push_front, push_back, insert_after,
  insert_before,
}
use mcoro.IntrusiveList.Ring.{
  Links, Chain, Distinct, IsList, All-insert, Chain-frame, last, first, Chain-first, All-last,
  All-first, All-append_left, All-append_right, Misses,
}

-- `s'` is `s` with `n` between `p` and `q`.
pub record Inserted (s s' : Nodes) (p n q : ℕ) : Type 0 where
  pub next_p : s'.next p ≡ n
  pub next_n : s'.next n ≡ q
  pub prev_q : s'.prev q ≡ n
  pub prev_n : s'.prev n ≡ p
  pub next_other : (x : ℕ) → p ≢ x → n ≢ x → s'.next x ≡ s.next x
  pub prev_other : (x : ℕ) → q ≢ x → n ≢ x → s'.prev x ≡ s.prev x

module _ (s s' : Nodes) (n : ℕ) where
  -- In front of the whole chain.
  Chain-insert_front :
      (a b : ℕ) (ys : List ℕ)
      → Inserted s s' a n (first ys b)
      → Misses n (b ∷ ys)
      → Misses a ys
      → Misses b ys
      → Distinct ys
      → Chain s a ys b
      → Chain s' a (n ∷ ys) b
  Chain-insert_front a b [] i m ma mb d c = ((i.next_p, i.prev_n), (i.next_n, i.prev_q))
  Chain-insert_front a b (y ∷ ys) i m ma mb d (l, c) = (
    (i.next_p, i.prev_n),
    (
      (i.next_n, i.prev_q),
      Chain-frame s s' y b ys (i.next_other y ma.0 m.1.0, next_others ys ma.1 m.1.1)
          (i.prev_other b (λ e. mb.0 (sym e)) m.0, prev_others ys d.0 m.1.1) c,
    ),
  )
    where
      next_others : (zs : List ℕ) → Misses a zs → Misses n zs → All (λ x. s'.next x ≡ s.next x) zs
      next_others [] h k = tt
      next_others (z ∷ zs) h k = (i.next_other z h.0 k.0, next_others zs h.1 k.1)

      prev_others : (zs : List ℕ) → Misses y zs → Misses n zs → All (λ x. s'.prev x ≡ s.prev x) zs
      prev_others [] h k = tt
      prev_others (z ∷ zs) h k = (i.prev_other z h.0 k.0, prev_others zs h.1 k.1)

  Chain-insert :
      (a b : ℕ) (us ys : List ℕ)
      → Inserted s s' (last a us) n (first ys b)
      → Misses n (a ∷ us ++ ys)
      → n ≢ b
      → Misses a (us ++ ys)
      → Misses b (us ++ ys)
      → Distinct (us ++ ys)
      → Chain s a (us ++ ys) b
      → Chain s' a (us ++ n ∷ ys) b
  Chain-insert a b [] ys i m nb ma mb d c = Chain-insert_front a b ys i (nb, m.1) ma mb d c
  Chain-insert a b (u ∷ us) ys i m nb ma mb d (l, c) =
      let kept_next : s'.next a ≡ s.next a =
        i.next_other a
          (λ e. All-last (λ x. a ≢ x) u us (ma.0, All-append_left (λ x. a ≢ x) us ys ma.1) (sym e))
          m.0 in
      let kept_prev : s'.prev u ≡ s.prev u =
        i.prev_other u
          (λ e.
            All-first (λ x. u ≢ x) ys b
              ((λ f. mb.0 (sym f)), All-append_right (λ x. u ≢ x) us ys d.0) (sym e))
          m.1.0 in
      ((kept_next ∙ l.0, kept_prev ∙ l.1), Chain-insert u b us ys i m.1 nb d.0 mb.1 d.1 c)

Distinct-insert :
    (n : ℕ) (us ys : List ℕ) → Misses n (us ++ ys) → Distinct (us ++ ys) → Distinct (us ++ n ∷ ys)
Distinct-insert n [] ys m d = (m, d)
Distinct-insert n (u ∷ us) ys m d =
    (All-insert (λ x. u ≢ x) n us ys (λ e. m.0 (sym e)) d.0, Distinct-insert n us ys m.1 d.1)

pub IsList-insert :
    {root : ℕ} {s s' : Nodes} (n : ℕ) (us ys : List ℕ)
    → IsList root s (us ++ ys)
    → n ≢ null
    → Misses n (root ∷ us ++ ys)
    → Inserted s s' (last root us) n (first ys root)
    → IsList root s' (us ++ n ∷ ys)
IsList-insert {root} {s} {s'} n us ys is ne m i = record {
  ring =
      Chain-insert s s' n root root us ys i m m.0 is.distinct.0 is.distinct.0 is.distinct.1 is.ring;
  distinct = (
    All-insert (λ x. root ≢ x) n us ys (λ e. m.0 (sym e)) is.distinct.0,
    Distinct-insert n us ys m.1 is.distinct.1,
  );
  not_null = (is.not_null.0, All-insert (λ x. x ≢ null) n us ys ne is.not_null.1);
}

-- The memory after each of the insertions.
abbrev between : ℕ → ℕ → ℕ → Nodes → Nodes
between p n q s = record {
  next = update (update s.next n q) p n;
  prev = update (update s.prev n p) q n;
}

module _ (p n q : ℕ) (s : Nodes) (link : Links s p q) (pn : p ≢ null) (nn : n ≢ null)
    (qn : q ≢ null) (np : n ≢ p) (nq : n ≢ q) where
  between-Inserted : Inserted s (between p n q s) p n q
  between-Inserted = record {
    next_p = ground arith;
    next_n = ground arith;
    prev_q = ground arith;
    prev_n = ground arith;
    next_other = λ x a b. ground arith;
    prev_other = λ x a b. ground arith;
  }

  abbrev test_p : (p == null) ≡ false
  test_p = ==_ne p null pn

  abbrev test_n : (n == null) ≡ false
  test_n = ==_ne n null nn

  abbrev test_q : (q == null) ≡ false
  test_q = ==_ne q null qn

  abbrev p_ne_n : (p == n) ≡ false
  p_ne_n = ==_ne p n (λ e. np (sym e))

  abbrev q_ne_n : (q == n) ≡ false
  q_ne_n = ==_ne q n (λ e. nq (sym e))

  insert_after-run : insert_after p n s ≡ done (tt, between p n q s)
  unfolding insert_after get_next set_next set_prev
  insert_after-run = rw (test_p, test_n, p_ne_n, ==_self n, link.0, test_q) refl

  push_front-run : push_front p n s ≡ done (tt, between p n q s)
  unfolding push_front get_next set_next set_prev
  push_front-run = rw (test_p, test_n, p_ne_n, ==_self n, link.0, test_q) refl

  insert_before-run : insert_before q n s ≡ done (tt, between p n q s)
  unfolding insert_before get_prev set_next set_prev
  insert_before-run = rw (test_q, test_n, q_ne_n, ==_self n, link.1, test_p) refl

  push_back-run : push_back q n s ≡ done (tt, between p n q s)
  unfolding push_back get_prev set_next set_prev
  push_back-run = rw (test_q, test_n, q_ne_n, ==_self n, link.1, test_p) refl

Links-split :
    (s : Nodes) (a b : ℕ) (us ys : List ℕ)
    → Chain s a (us ++ ys) b
    → Links s (last a us) (first ys b)
Links-split s a b [] ys c = Chain-first s a b ys c
Links-split s a b (u ∷ us) ys (l, c) = Links-split s u b us ys c

module _ {root : ℕ} {s : Nodes} (n : ℕ) (us ys : List ℕ) (is : IsList root s (us ++ ys))
    (ne : n ≢ null) (out : Misses n (root ∷ us ++ ys)) where
  abbrev before : ℕ
  before = last root us

  abbrev behind : ℕ
  behind = first ys root

  link : Links s before behind
  link = Links-split s root root us ys is.ring

  before_in : (P : ℕ → Type 0) → All P (root ∷ us ++ ys) → P before
  before_in P h = All-last P root us (h.0, All-append_left P us ys h.1)

  behind_in : (P : ℕ → Type 0) → All P (root ∷ us ++ ys) → P behind
  behind_in P h = All-first P ys root (h.0, All-append_right P us ys h.1)

  -- An operation that leaves `n` between the two, given that the pointers are as it needs them.
  insert_between :
      (run : Nodes → Access (Unit {0} × Nodes))
      → (Links s before behind
          → before ≢ null
          → n ≢ null
          → behind ≢ null
          → n ≢ before
          → n ≢ behind
          → run s ≡ done (tt, between before n behind s))
      → (s' : Nodes) × (run s ≡ done (tt, s')) × IsList root s' (us ++ n ∷ ys)
  insert_between run runs =
      let pn = before_in (λ x. x ≢ null) is.not_null in
      let qn = behind_in (λ x. x ≢ null) is.not_null in
      let np = before_in (λ x. n ≢ x) out in
      let nq = behind_in (λ x. n ≢ x) out in
      (
        between before n behind s,
        runs link pn ne qn np nq,
        IsList-insert n us ys is ne out (between-Inserted before n behind s link pn ne qn np nq),
      )

last-append : (p m : ℕ) (xs : List ℕ) → last p (xs ++ m ∷ []) ≡ m
last-append p m [] = refl
last-append p m (x ∷ xs) = last-append x m xs

module _ {root : ℕ} {s : Nodes} (n : ℕ) (ne : n ≢ null) where
  -- `push_front` and `push_back` of a node that is not null, and neither in the list nor its
  -- head, are defined and put it at the front and at the back of the list that the memory holds.
  pub push-IsList :
      (xs : List ℕ)
      → IsList root s xs
      → Misses n (root ∷ xs)
      → ((s' : Nodes) × (push_front root n s ≡ done (tt, s')) × IsList root s' (n ∷ xs))
        × ((s' : Nodes) × (push_back root n s ≡ done (tt, s')) × IsList root s' (xs ++ n ∷ []))
  push-IsList xs is out = (
    insert_between n [] xs is ne out (push_front root n)
        λ l pn nn qn np nq. push_front-run root n (first xs root) s l pn nn qn np nq,
    insert_between n xs [] (subst (IsList root s) (sym (append-nil xs)) is) ne
        (subst (λ ys. Misses n (root ∷ ys)) (sym (append-nil xs)) out) (push_back root n)
        λ l pn nn qn np nq. push_back-run (last root xs) n root s l pn nn qn np nq,
  )

  insert_after-IsList :
      (pivot : ℕ) (xs ys : List ℕ)
      → IsList root s (xs ++ pivot ∷ ys)
      → Misses n (root ∷ xs ++ pivot ∷ ys)
      → (s' : Nodes) × (insert_after pivot n s ≡ done (tt, s'))
        × IsList root s' (xs ++ pivot ∷ n ∷ ys)
  insert_after-IsList pivot xs ys is out =
      let split = sym (append_assoc xs (pivot ∷ []) ys) in
      let at : last root (xs ++ pivot ∷ []) ≡ pivot = last-append root pivot xs in
      let (s', runs, is') =
        insert_between n (xs ++ pivot ∷ []) ys (subst (IsList root s) split is) ne
          (subst (λ zs. Misses n (root ∷ zs)) split out) (insert_after pivot n)
          λ l pn nn qn np nq.
            subst
              (λ p.
                insert_after p n s
                ≡ done (tt, between (last root (xs ++ pivot ∷ [])) n (first ys root) s))
              at
              (insert_after-run (last root (xs ++ pivot ∷ [])) n (first ys root) s l pn nn qn np
                nq) in
      (s', runs, subst (IsList root s') (append_assoc xs (pivot ∷ []) (n ∷ ys)) is')

  -- `insert_before` and `insert_after` of a node that is not null, and neither in the list nor
  -- its head, are defined and put it in front of and behind the pivot, which is a node of the
  -- list that the memory holds.
  pub insert-IsList :
      (pivot : ℕ) (xs ys : List ℕ)
      → IsList root s (xs ++ pivot ∷ ys)
      → Misses n (root ∷ xs ++ pivot ∷ ys)
      → ((s' : Nodes) × (insert_before pivot n s ≡ done (tt, s'))
          × IsList root s' (xs ++ n ∷ pivot ∷ ys))
        × ((s' : Nodes) × (insert_after pivot n s ≡ done (tt, s'))
            × IsList root s' (xs ++ pivot ∷ n ∷ ys))
  insert-IsList pivot xs ys is out = (
    insert_between n xs (pivot ∷ ys) is ne out (insert_before pivot n)
        λ l pn nn qn np nq. insert_before-run (last root xs) n pivot s l pn nn qn np nq,
    insert_after-IsList pivot xs ys is out,
  )
