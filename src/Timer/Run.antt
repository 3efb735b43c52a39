-- ===== src/Timer/Run.antt =====
-- What `runDuration` does.
use mcoro.Prelude.{
  All-both, ℕ, zero, suc, ◌-◌, ◌<◌, ◌≡◌, ◌≢◌, refl, Bool, true, false, Option, none, some, List, [],
  ◌∷◌, ◌++◌, arith, ap, sym, ◌∙◌, subst, All, length, leb, if◌then◌else◌, done, update, update-same,
  update-other, Bool-cases, inl, inr, ==_ne, Cmd,
}
use mathlib.Core.List.{nil≢cons, head-eq_of_cons-eq, tail-eq_of_cons-eq}
use mcoro.Expected.{Expected, value}
use mcoro.RbTree.{Nodes, left, null, get_in_tree, get_root, set_in_tree}
use mcoro.RbTree.Tree.{
  Tree, leaf, node, Place, top, under, plug, inorder, At, Holds-frame, size, one_self,
}
use mcoro.RbTree.Locate
use mcoro.RbTree.Locate.{after, inorder-plug}
use mcoro.RbTree.Visit.{get_front, furthest, empty}
use mcoro.RbTree.Walk.{last_on, furthest-left, inorder-first}
use mcoro.RbTree.Erase.{erase, erase_from_parent}
use mcoro.RbTree.Balance.{cons_in}
use mcoro.RbTree.Remove.{Sound, erase-Erased, depth-plug}
use mcoro.RbTree.Detach.{At-unplug}
use mcoro.RbTree.Paint.{At-full}
use mcoro.RbTree.Loop.{depth}
use mcoro.Timer.{Timers, on_tree, set_cancelled, await_resume, wake, run_duration}
use mcoro.Timer.Queue.{IsQueue, Ordered, length-inorder, occurs, count-inorder, All-apart}

-- The place of the first node.
front_place :
    (k : Bool) (m : ℕ) (a b : Tree) (c : Place)
    → (c' : Place) × (k' : Bool) × (x : Tree) × (plug c (node k m a b)
        ≡ plug c' (node k' (last_on left m a) leaf x))
      × (Locate.before c' ≡ Locate.before c)
front_place k m leaf b c = (c, k, b, refl, refl)
front_place k m (node k' m' a a') b c = front_place k' m' a a' (under left k m b c)

At-in_tree :
    (s : Nodes) (t : Tree) (f : ℕ → Bool) → At s top t → At (record s { in_tree = f }) top t
At-in_tree s t f at = record {
  holds =
      Holds-frame s (record s { in_tree = f }) null t
        (λ y h. record { child = λ e. refl; parent = refl; red = refl }) at.holds;
  around = at.around;
  once = at.once;
}

-- The first timer is taken out of the queue.
record Popped (nodes : ℕ) (tree : Nodes) (expires : ℕ → ℕ) (n : ℕ) (ns : List ℕ) : Type 0 where
  pub tree' : Nodes
  pub some_timer : empty tree ≡ done (false, tree)
  pub front : get_front nodes tree ≡ done (n, tree)
  pub erased : erase_from_parent nodes n tree ≡ done (tt, tree')
  pub queue : IsQueue tree' expires ns

erase_from_parent-run :
    (nodes n : ℕ) (s s' : Nodes)
    → n ≢ null
    → s.in_tree n ≡ true
    → erase nodes n s ≡ done (tt, s')
    → erase_from_parent nodes n s ≡ done (tt, record s' { in_tree = update s'.in_tree n false })
unfolding erase_from_parent get_in_tree set_in_tree
erase_from_parent-run nodes n s s' nn e run = rw (==_ne n null nn, e, run, ==_ne n null nn) refl

Popped-front :
    (nodes : ℕ) (tree : Nodes) (expires : ℕ → ℕ) (n : ℕ) (ns : List ℕ) (t : Tree)
    → At tree top t
    → Sound t
    → inorder t ≡ n ∷ ns
    → All (λ m. tree.in_tree m ≡ true) (n ∷ ns)
    → Ordered expires (n ∷ ns)
    → length (n ∷ ns) < nodes
    → Popped nodes tree expires n ns
unfolding empty get_front get_root occurs size
Popped-front nodes tree expires n ns leaf at sound order linked ordered l = absurd (nil≢cons order)
Popped-front nodes tree expires n ns (node k m a b) at sound order linked ordered l =
    let x0 = last_on left m a in
    let (zs, first) = inorder-first k m a b in
    let hx : x0 ≡ n = head-eq_of_cons-eq (sym first ∙ order) in
    let (c, k', x, e, eb) = front_place k m a b top in
    let sized = length-inorder (node k m a b) ∙ ap size e in
    let enough : depth c < nodes =
      omega (
        arith,
        l,
        sized,
        ap (λ (ys : List ℕ). length ys) order,
        depth-plug c (node k' x0 leaf x),
      ) in
    let (s', t', run, at', sound', order', in_tree') =
      erase-Erased tree c left k' x0 x nodes (subst (At tree top) e at) (subst Sound e sound)
        enough in
    let whole : x0 ∷ (inorder x ++ after c) ≡ n ∷ ns =
      ap (λ (ys : List ℕ). ys ++ x0 ∷ (inorder x ++ after c)) (sym eb)
      ∙ sym (inorder-plug c (node k' x0 leaf x))
      ∙ ap inorder (sym e)
      ∙ order in
    let apart =
      All-apart n ns (
        omega
          (arith, at.once n, count-inorder n (node k m a b), ap (occurs n) order, one_self n)) in
    let m_full = at.holds.0.0 in
    let room : size a < nodes =
      omega (arith, l, length-inorder (node k m a b), ap (λ (ys : List ℕ). length ys) order) in
    let n_full : n ≢ null = λ z.
      At-full tree c left k' x0 leaf x
        (At-unplug tree c (node k' x0 leaf x) (subst (At tree top) e at)) (hx ∙ z) in
    record {
      tree' = record s' { in_tree = update s'.in_tree n false };
      some_timer = rw (at.around, ==_ne m null m_full) refl;
      front =
          ap (λ (q : ℕ). furthest left nodes q tree) at.around
          ∙ furthest-left tree null nodes k m a b at.holds room
          ∙ ap (λ q. done (q, tree)) hx;
      erased =
          erase_from_parent-run nodes n tree s' n_full linked.0
            (subst (λ q. erase nodes q tree ≡ done (tt, s')) hx run);
      queue = record {
        held = t';
        at = At-in_tree s' t' (update s'.in_tree n false) at';
        sound = sound';
        order =
            order'
            ∙ inorder-plug c x
            ∙ ap (λ (ys : List ℕ). ys ++ (inorder x ++ after c)) eb
            ∙ tail-eq_of_cons-eq whole;
        linked =
            All-both (λ y. n ≢ y) (λ y. tree.in_tree y ≡ true)
              (λ y. update s'.in_tree n false y ≡ true) ns
              (λ y ne h.
                update-other s'.in_tree n y false ne
                ∙ ap (λ g. g y) in_tree'
                ∙ update-other tree.in_tree x0 y false (λ z. ne (sym hx ∙ z))
                ∙ h)
              apart linked.1;
        ordered = ordered.1;
      };
    }

-- What `runDuration` does to a list of timers: `wait` is what it returns, and `left` the timers that
-- still wait. `woken` is what the coroutine of a timer does outside.
pub record Served (W : Type 0) : Type 0 where
  pub wait : Option ℕ
  pub left : List ℕ
  pub world : W

abbrev pub serve :
    {W : Type 0} → (W → ℕ × W) → (ℕ → Expected (Unit {0}) → W → W) → (ℕ → ℕ) → List ℕ → W → Served W
serve now woken expires [] w = record { wait = none; left = []; world = w }
serve now woken expires (n ∷ ns) w =
    let rest = serve now woken expires ns (woken n (value tt) (now w).1) in
    if leb (expires n) (now w).0
    then rest
    else record { wait = some (expires n - (now w).0); left = n ∷ ns; world = (now w).1 }

-- The coroutine of a timer changes only what is outside of the context, by the result of its sleep.
abbrev pub Quiet :
    {W : Type 0} → (ℕ → Cmd (Timers W) (Unit {0})) → (ℕ → Expected (Unit {0}) → W → W) → Type 0
Quiet {W} resume woken =
    (n : ℕ) (s : Timers W)
    → resume n s ≡ done (tt, record s { world = woken n (await_resume n s) s.world })

module _ {W : Type 0} (resume : ℕ → Cmd (Timers W) (Unit {0}))
    (woken : ℕ → Expected (Unit {0}) → W → W) (quiet : Quiet resume woken) where
  wake-run :
      (nodes n : ℕ) (s : Timers W) (tree' : Nodes)
      → erase_from_parent nodes n s.tree ≡ done (tt, tree')
      → wake resume nodes n s
        ≡ done (
          tt,
          record s {
            tree = tree';
            cancelled = update s.cancelled n false;
            world = woken n (value tt) s.world;
          },
        )
  unfolding wake set_cancelled on_tree await_resume
  wake-run nodes n s tree' e =
      rw
        (
          e,
          quiet n (record s { tree = tree'; cancelled = update s.cancelled n false }),
          update-same s.cancelled n false,
        )
        refl

empty-nil : (s : Nodes) (t : Tree) → At s top t → inorder t ≡ [] → empty s ≡ done (true, s)
unfolding empty get_root
empty-nil s leaf at e = rw at.around refl
empty-nil s (node k n t u) at e = absurd (cons_in (inorder t) n (inorder u) (sym e))

module _ {W : Type 0} (now : W → ℕ × W) (resume : ℕ → Cmd (Timers W) (Unit {0}))
    (woken : ℕ → Expected (Unit {0}) → W → W) (quiet : Quiet resume woken) where
  -- `runDuration` of a context whose tree holds the timers `ns`, with fuel for more nodes and
  -- more rounds than there are timers, where a coroutine that is resumed changes only what is
  -- outside of the context, does what `serve` does to the list: it takes the timers from the
  -- front as long as the clock, read anew for each, is not before their time, and resumes their
  -- coroutines in this order with a sleep that was not cancelled; it returns how long it is to
  -- the time of the next timer, or nothing when none is left. The tree holds the timers that are
  -- left, in order.
  pub run_duration-serve :
      (nodes fuel : ℕ) (ns : List ℕ) (s : Timers W)
      → IsQueue s.tree s.expires ns
      → length ns < nodes
      → length ns < fuel
      → let served = serve now woken s.expires ns s.world in
        (s' : Timers W) × (run_duration now resume nodes fuel s ≡ done (served.wait, s'))
        × IsQueue s'.tree s'.expires served.left
        × (s'.expires ≡ s.expires)
        × (s'.world ≡ served.world)
  unfolding run_duration on_tree
  run_duration-serve nodes zero ns s q l lf = absurd (omega (arith, lf))
  run_duration-serve nodes (suc fuel) [] s q l lf =
      (s, rw (empty-nil s.tree q.held q.at q.order) refl, q, refl, refl)
  run_duration-serve nodes (suc fuel) (n ∷ ns) s q l lf =
      let p =
        Popped-front nodes s.tree s.expires n ns q.held q.at q.sound q.order q.linked q.ordered l in
      let (time, w) = now s.world in
      elim (Bool-cases (leb (s.expires n) time)) [
        | inl e ↦
            let s2 = record s {
              tree = p.tree';
              cancelled = update s.cancelled n false;
              world = woken n (value tt) w;
            } in
            let (s', run, queue, same, world) =
              run_duration-serve nodes fuel ns s2 p.queue (omega (arith, l)) (omega (arith, lf)) in
            rw e (
              s',
              rw
                  (
                    p.some_timer,
                    p.front,
                    e,
                    wake-run resume woken quiet nodes n (record s { world = w }) p.tree' p.erased,
                  )
                  run,
              queue,
              same,
              world,
            )
        | inr e ↦ rw e (record s { world = w }, rw (p.some_timer, p.front, e) refl, q, refl, refl)
      ]
