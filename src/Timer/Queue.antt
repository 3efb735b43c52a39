-- ===== src/Timer/Queue.antt =====
-- The timers of a context, in the order in which they expire.
use mcoro.Prelude.{
  All-map, All-both, ℕ, ◌+◌, ◌≤◌, ◌<◌, ◌≡◌, ◌≢◌, inl, inr, refl, Bool, true, false, List, [], ◌∷◌,
  ◌++◌, arith, ap, sym, ◌∙◌, All, length, length-append, ltb, ◌==◌, if◌then◌else◌, done, update,
  update-same, update-other, Bool-cases, ==_ne,
}
use mathlib.Core.Bool.{true≢false}
use mcoro.RbTree.{Nodes, null}
use mcoro.RbTree.Tree.{Tree, leaf, node, top, inorder, one, one-eq, count, At, size}
use mcoro.RbTree.Remove.{Sound}
use mcoro.RbTree.RedBlack.{uncounted}
use mcoro.RbTree.Balance.{insert-Stands}
use mcoro.Timer.{Timers, before, set_expires, enqueue_timer_node, on_tree, await_suspend}

abbrev pub Ordered : (ℕ → ℕ) → List ℕ → Type 0
Ordered f [] = Unit {0}
Ordered f (n ∷ ns) = All (λ m. f n ≤ f m) ns × Ordered f ns

-- The timers `ns` wait, the first to expire in front.
pub record IsQueue (tree : Nodes) (expires : ℕ → ℕ) (ns : List ℕ) : Type 0 where
  pub held : Tree
  pub at : At tree top held
  pub sound : Sound held
  pub order : inorder held ≡ ns
  pub linked : All (λ n. tree.in_tree n ≡ true) ns
  pub ordered : Ordered expires ns

-- A new timer comes behind those that expire before it or with it.
abbrev pub insert_timer : (ℕ → ℕ) → ℕ → List ℕ → List ℕ
insert_timer f n [] = n ∷ []
insert_timer f n (m ∷ ms) = if ltb (f n) (f m) then n ∷ m ∷ ms else m ∷ insert_timer f n ms

pub length-inorder : (t : Tree) → length (inorder t) ≡ size t
unfolding size
length-inorder leaf = refl
length-inorder (node k n t u) =
    omega (arith, length-append (inorder t) (n ∷ inorder u), length-inorder t, length-inorder u)

-- How often a timer is in a list.
unfoldable pub occurs : ℕ → List ℕ → ℕ
occurs y [] = 0
occurs y (x ∷ xs) = one y x + occurs y xs

occurs-append : (y : ℕ) (xs ys : List ℕ) → occurs y (xs ++ ys) ≡ occurs y xs + occurs y ys
unfolding occurs
occurs-append y [] ys = omega arith
occurs-append y (x ∷ xs) ys = omega (arith, occurs-append y xs ys)

pub count-inorder : (y : ℕ) (t : Tree) → count y t ≡ occurs y (inorder t)
unfolding count occurs
count-inorder y leaf = refl
count-inorder y (node k n t u) =
    omega (arith, occurs-append y (inorder t) (n ∷ inorder u), count-inorder y t, count-inorder y u)

pub All-apart : (n : ℕ) (ns : List ℕ) → occurs n ns ≡ 0 → All (λ m. n ≢ m) ns
unfolding occurs
All-apart n [] h = tt
All-apart n (m ∷ ms) h = (λ z. omega (arith, h, one-eq n m z), All-apart n ms (omega (arith, h)))

apart-occurs : (n : ℕ) (ns : List ℕ) → All (λ m. n ≢ m) ns → occurs n ns ≡ 0
unfolding occurs
apart-occurs n [] h = refl
apart-occurs n (m ∷ ms) (h, hs) = omega (arith, apart-occurs n ms hs, one_ne n m h)
  where
    one_ne : (y x : ℕ) → y ≢ x → one y x ≡ 0
    one_ne y x ne = rw (==_ne y x ne) refl

-- The place of a new timer.
record Split (f : ℕ → ℕ) (n : ℕ) (ns : List ℕ) : Type 0 where
  pub xs : List ℕ
  pub ys : List ℕ
  pub parts : ns ≡ xs ++ ys
  pub early : All (λ x. before f n x ≡ false) xs
  pub late : All (λ y. before f n y ≡ true) ys
  pub inserted : insert_timer f n ns ≡ xs ++ n ∷ ys

insert_timer-Split : (f : ℕ → ℕ) (n : ℕ) (ns : List ℕ) → Ordered f ns → Split f n ns
insert_timer-Split f n [] o = record {
  xs = [];
  ys = [];
  parts = refl;
  early = tt;
  late = tt;
  inserted = refl;
}
insert_timer-Split f n (m ∷ ms) (om, oms) = elim (Bool-cases (ltb (f n) (f m))) [
  | inl e ↦ record {
    xs = [];
    ys = m ∷ ms;
    parts = refl;
    early = tt;
    late = (
      e,
      All-map (λ y. f m ≤ f y) (λ y. before f n y ≡ true) ms (λ y h. ground (arith, e, h)) om,
    );
    inserted = rw e refl;
  }
  | inr e ↦
      let rest = insert_timer-Split f n ms oms in
      record {
        xs = m ∷ rest.xs;
        ys = rest.ys;
        parts = ap (λ zs. m ∷ zs) rest.parts;
        early = (e, rest.early);
        late = rest.late;
        inserted = rw e (ap (λ zs. m ∷ zs) rest.inserted);
      }
]

All-insert_timer :
    (P : ℕ → Type 0) (f : ℕ → ℕ) (n : ℕ) (ns : List ℕ)
    → P n
    → All P ns
    → All P (insert_timer f n ns)
All-insert_timer P f n [] h hs = (h, tt)
All-insert_timer P f n (m ∷ ms) h (hm, hs) = elim (Bool-cases (ltb (f n) (f m))) [
  | inl e ↦ rw e (h, (hm, hs))
  | inr e ↦ rw e (hm, All-insert_timer P f n ms h hs)
]

insert_timer-Ordered :
    (f : ℕ → ℕ) (n : ℕ) (ns : List ℕ) → Ordered f ns → Ordered f (insert_timer f n ns)
insert_timer-Ordered f n [] o = (tt, tt)
insert_timer-Ordered f n (m ∷ ms) (om, oms) = elim (Bool-cases (ltb (f n) (f m))) [
  | inl e ↦
      let l : f n ≤ f m = ground (arith, e) in
      rw e (
        (l, All-map (λ y. f m ≤ f y) (λ y. f n ≤ f y) ms (λ y h. omega (arith, l, h)) om),
        (om, oms),
      )
  | inr e ↦
      let l : f m ≤ f n = ground (arith, e) in
      rw e (All-insert_timer (λ y. f m ≤ f y) f n ms l om, insert_timer-Ordered f n ms oms)
]

Ordered-update :
    (f : ℕ → ℕ) (n time : ℕ) (ns : List ℕ)
    → All (λ m. n ≢ m) ns
    → Ordered f ns
    → Ordered (update f n time) ns
Ordered-update f n time [] a o = tt
Ordered-update f n time (m ∷ ms) (am, ams) (om, oms) = (
  All-both (λ y. n ≢ y) (λ y. f m ≤ f y) (λ y. update f n time m ≤ update f n time y) ms
      (λ y ay oy. omega (arith, oy, update-other f n m time am, update-other f n y time ay)) ams om,
  Ordered-update f n time ms ams oms,
)

linked_apart :
    (f : ℕ → Bool) (n : ℕ) (ns : List ℕ)
    → f n ≡ false
    → All (λ m. f m ≡ true) ns
    → All (λ m. n ≢ m) ns
linked_apart f n ns e =
    All-map (λ m. f m ≡ true) (λ m. n ≢ m) ns (λ m h z. true≢false (sym h ∙ ap f (sym z) ∙ e))

update-true : (f : ℕ → Bool) (n m : ℕ) → f m ≡ true → update f n true m ≡ true
update-true f n m h = elim (Bool-cases (n == m)) [ inl e ↦ rw e refl | inr e ↦ rw e h ]

module _ {W : Type 0} where
  -- `await_suspend` of a sleep until `time`, on a timer `n` that is not null and not in the tree,
  -- where the tree holds the timers `ns` in the order in which they expire, with fuel for more
  -- nodes than there are timers: it is defined, `n` expires at `time` and the other timers when
  -- they did, and the tree holds the timers in that order, with `n` behind those that do not
  -- expire later.
  pub await_suspend-IsQueue :
      (s : Timers W) (ns : List ℕ) (n time nodes : ℕ)
      → IsQueue s.tree s.expires ns
      → n ≢ null
      → s.tree.in_tree n ≡ false
      → length ns < nodes
      → (s' : Timers W) × (await_suspend nodes n time s ≡ done (tt, s'))
        × IsQueue s'.tree s'.expires (insert_timer s'.expires n ns)
        × (s'.expires ≡ update s.expires n time)
        × (s'.cancelled ≡ s.cancelled)
  unfolding await_suspend set_expires enqueue_timer_node on_tree
  await_suspend-IsQueue s ns n time nodes q nn free l =
      let f = update s.expires n time in
      let apart = linked_apart s.tree.in_tree n ns free q.linked in
      let ordered = Ordered-update s.expires n time ns apart q.ordered in
      let split = insert_timer-Split f n ns ordered in
      let new : count n q.held ≡ 0 =
        count-inorder n q.held ∙ ap (occurs n) q.order ∙ apart-occurs n ns apart in
      let enough : size q.held < nodes =
        omega (arith, l, length-inorder q.held, ap (λ zs. length zs) q.order) in
      let (tree, held, run, at, sound, order, linked) =
        insert-Stands uncounted (before f) n s.tree q.held split.xs split.ys nodes q.at q.sound.0
          q.sound.1 nn new (q.order ∙ split.parts) split.early split.late enough in
      (
        record s { tree = tree; expires = f },
        rw run refl,
        record {
          held = held;
          at = at;
          sound = sound;
          order = order ∙ sym split.inserted;
          linked =
              All-insert_timer (λ m. tree.in_tree m ≡ true) f n ns
                (ap (λ g. g n) linked ∙ update-same s.tree.in_tree n true)
                (All-map (λ m. s.tree.in_tree m ≡ true) (λ m. tree.in_tree m ≡ true) ns
                  (λ m h. ap (λ g. g m) linked ∙ update-true s.tree.in_tree n m h) q.linked);
          ordered = insert_timer-Ordered f n ns ordered;
        },
        refl,
        refl,
      )
