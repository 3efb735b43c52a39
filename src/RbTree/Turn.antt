-- ===== src/RbTree/Turn.antt =====
-- The stores of a rotation, and what they spare.
use mcoro.Prelude.{
  ℕ, ◌+◌, ◌<◌, ◌≡◌, ◌≢◌, refl, Bool, ◌==◌, arith, ◌∙◌, if◌then◌else◌, update, ==_ne, ==_self,
  Bool-cases, inl, inr, done, update-other,
}
use mcoro.RbTree.{
  Nodes, Side, left, right, other, null, update_child, get_child, get_parent, set_child, set_parent,
  set_root, adopt, replace_child, rotate,
}
use mcoro.RbTree.Tree.{
  Tree, Place, top, under, pointer, above, count, count_around, Around, Same, Holds-frame,
  Around-frame, update_child-hit, update_child-other, update_child-miss,
}

-- The pointers to parents after `adopt`.
abbrev pub adopted : ℕ → ℕ → (ℕ → ℕ) → ℕ → ℕ
adopted i n f = if i == null then f else update f i n

pub adopt-run :
    (i n : ℕ) (s : Nodes) → adopt i n s ≡ done (tt, record s { parent = adopted i n s.parent })
unfolding adopt set_parent
adopt-run i n s = elim (Bool-cases (i == null)) [ inl e ↦ rw e refl | inr e ↦ rw (e, e) refl ]

pub adopted-miss : (i n : ℕ) (f : ℕ → ℕ) (x : ℕ) → (i ≢ null → i ≢ x) → adopted i n f x ≡ f x
adopted-miss i n f x h = elim (Bool-cases (i == null)) [
  | inl e ↦ rw e refl
  | inr e ↦ rw e (update-other f i x n (h (ground arith)))
]

pub adopted-hit : (i n : ℕ) (f : ℕ → ℕ) (x : ℕ) → i ≢ null → i ≡ x → adopted i n f x ≡ n
adopted-hit i n f x h e = rw (==_ne i null h) (ground (arith, e))

-- The memory with `m` at the place.
abbrev pub put : Place → ℕ → Nodes → Nodes
put top m s = record s { root = m }
put (under d k p u c) m s = record s { child = update_child s.child d p m }

-- The pointer to the other subtree of the parent is not `n`.
abbrev pub Apart : ℕ → Place → Type 0
Apart n top = Unit {0}
Apart n (under d k p u c) = n ≢ pointer u

pub replace_child-run :
    (d : Side) (c : Place) (n m : ℕ) (s : Nodes)
    → Around s c n
    → Apart n c
    → replace_child d (above c) n m s ≡ done (tt, put c m s)
unfolding replace_child get_child set_child set_root
replace_child-run d top n m s a ne = refl
replace_child-run left (under left k p u c) n m s ((np, b, b'), (e, f), g) ne =
    rw (==_ne p null np, ==_ne p null np, e, ==_self n, ==_ne p null np) refl
replace_child-run left (under right k p u c) n m s ((np, b, b'), (e, f), g) ne =
    rw (==_ne p null np, ==_ne p null np, f, ==_ne n (pointer u) ne, ==_ne p null np) refl
replace_child-run right (under left k p u c) n m s ((np, b, b'), (e, f), g) ne =
    rw (==_ne p null np, ==_ne p null np, f, ==_ne n (pointer u) ne, ==_ne p null np) refl
replace_child-run right (under right k p u c) n m s ((np, b, b'), (e, f), g) ne =
    rw (==_ne p null np, ==_ne p null np, e, ==_self n, ==_ne p null np) refl

module _ (d : Side) (n m i : ℕ) (c : Place) (s : Nodes) where
  -- The memory before the stores at the place, and at the end.
  abbrev pub detached : Nodes
  detached = record s {
    child = update_child s.child (other d) n i;
    parent = update (adopted i n s.parent) m (above c);
  }

  abbrev pub attach : Nodes → Nodes
  attach t = record t { child = update_child t.child d m n; parent = update t.parent n m }

  abbrev pub rotated : Nodes
  rotated = attach (put c m detached)

  pub rotate-run :
      n ≢ null
      → m ≢ null
      → n ≢ m
      → (i ≢ null → i ≢ n)
      → s.child (other d) n ≡ m
      → s.child d m ≡ i
      → s.parent n ≡ above c
      → Around detached c n
      → Apart n c
      → rotate d n s ≡ done (tt, rotated)
  unfolding rotate get_child get_parent set_child set_parent
  rotate-run nn mn nm ine em ei ep around ne =
      rw
        (
          ==_ne n null nn,
          em,
          ==_ne m null mn,
          ei,
          adopt-run i n (record s { child = update_child s.child (other d) n i }),
          adopted-miss i n s.parent n ine,
          ep,
          replace_child-run d c n m detached around ne,
        )
        refl

  -- A node that is none of those at hand.
  abbrev pub Off : ℕ → Place → Type 0
  Off y top = Unit {0}
  Off y (under e k p u c') = p ≢ y

module _ (d : Side) (n m i : ℕ) (s : Nodes) (y : ℕ) (ny : n ≢ y) (my : m ≢ y)
    (iy : i ≢ null → i ≢ y) where
  pub Same-rotated : (c : Place) → Off d n m i c s y c → Same s (rotated d n m i c s) y
  Same-rotated top off = record {
    child = λ e.
        update_child-miss (update_child s.child (other d) n i) m n d e y my
        ∙ update_child-miss s.child n i (other d) e y ny;
    parent =
        update-other (update (adopted i n s.parent) m null) n y m ny
        ∙ update-other (adopted i n s.parent) m y null my
        ∙ adopted-miss i n s.parent y iy;
    red = refl;
  }
  Same-rotated (under f k p u c) off = record {
    child = λ e.
        update_child-miss (update_child (update_child s.child (other d) n i) f p m) m n d e y my
        ∙ update_child-miss (update_child s.child (other d) n i) p m f e y off
        ∙ update_child-miss s.child n i (other d) e y ny;
    parent =
        update-other (update (adopted i n s.parent) m p) n y m ny
        ∙ update-other (adopted i n s.parent) m y p my
        ∙ adopted-miss i n s.parent y iy;
    red = refl;
  }

pub put-child :
    (d : Side) (n m i : ℕ) (s : Nodes) (c : Place) (t : Nodes) (e : Side) (y : ℕ)
    → Off d n m i c s y c
    → (put c m t).child e y ≡ t.child e y
put-child d n m i s top t e y o = refl
put-child d n m i s (under f k p u c) t e y o = update_child-miss t.child p m f e y o

pub put-parent : (c : Place) (m : ℕ) (t : Nodes) (y : ℕ) → (put c m t).parent y ≡ t.parent y
put-parent top m t y = refl
put-parent (under f k p u c) m t y = refl

pub put-red : (c : Place) (m : ℕ) (t : Nodes) (y : ℕ) → (put c m t).red y ≡ t.red y
put-red top m t y = refl
put-red (under f k p u c) m t y = refl

pub put-in_tree : (c : Place) (m : ℕ) (t : Nodes) → (put c m t).in_tree ≡ t.in_tree
put-in_tree top m t = refl
put-in_tree (under f k p u c) m t = refl

-- What is around a place below `p`, when the rotation keeps what is further up.
module _ (d : Side) (n m i : ℕ) (s : Nodes) (f : Side) (k : Bool) (p : ℕ) (u : Tree) (c : Place)
    (np : n ≢ p) (mp : m ≢ p) (ip : i ≢ null → i ≢ p)
    (kept : (y : ℕ)
      → 0 < count y u + count_around y c
      → Same s (rotated d n m i (under f k p u c) s) y) where
  abbrev pub below : Nodes
  below = rotated d n m i (under f k p u c) s

  abbrev pub start : Nodes
  start = detached d n m i (under f k p u c) s

  pub Around-rotated : Around s (under f k p u c) n → Around below (under f k p u c) m
  Around-rotated ((pf, pp, pr), (pn, pu), (hu, hc)) = (
    (
      pf,
      update-other (update (adopted i n s.parent) m p) n p m np
          ∙ update-other (adopted i n s.parent) m p p mp
          ∙ adopted-miss i n s.parent p ip
          ∙ pp,
      pr,
    ),
    (
      update_child-miss (update_child start.child f p m) m n d f p mp
          ∙ update_child-hit start.child p m f,
      update_child-miss (update_child start.child f p m) m n d (other f) p mp
          ∙ update_child-other start.child p m f p
          ∙ update_child-miss s.child n i (other d) (other f) p np
          ∙ pu,
    ),
    (
      Holds-frame s below p u (λ y h. kept y (omega (arith, h))) hu,
      Around-frame s below c p (λ y h. kept y (omega (arith, h))) refl hc,
    ),
  )
