-- ===== src/IntrusiveList.antt =====
-- co_async/utils/intrusive_list.hpp: `ListHead`, which the methods of `IntrusiveList` call, on a memory of
-- nodes. A pointer is a number, `nullptr` is 0, and the address of the member `root` is a parameter.
-- A member of `*nullptr` is `undefined`.
pub mod Ring
pub mod Insert
pub mod Erase
pub mod Clear
use mcoro.Prelude.{
  ℕ, zero, suc, Bool, true, false, Option, none, some, ◌==◌, if◌then◌else◌, not, Access, done,
  undefined, Cmd, ◌>>=◌, ◌>>◌, return, update,
}

abbrev pub null : ℕ
null = 0

-- `listNext` and `listPrev` of the node at each address.
pub record Nodes : Type 0 where
  pub next : ℕ → ℕ
  pub prev : ℕ → ℕ

-- `p->listNext` and `p->listPrev`.
unfoldable pub get_next : ℕ → Cmd Nodes ℕ
get_next p s = if p == null then undefined else done (s.next p, s)

unfoldable pub get_prev : ℕ → Cmd Nodes ℕ
get_prev p s = if p == null then undefined else done (s.prev p, s)

unfoldable pub set_next : ℕ → ℕ → Cmd Nodes (Unit {0})
set_next p q s = if p == null then undefined else done (tt, record s { next = update s.next p q })

unfoldable pub set_prev : ℕ → ℕ → Cmd Nodes (Unit {0})
set_prev p q s = if p == null then undefined else done (tt, record s { prev = update s.prev p q })

-- `p->listNext = nullptr; p->listPrev = nullptr`
unfoldable pub unlink : ℕ → Cmd Nodes (Unit {0})
unfolding set_next set_prev
unlink p = set_next p null >> set_prev p null

unfoldable pub insert_after : ℕ → ℕ → Cmd Nodes (Unit {0})
unfolding get_next set_next set_prev
insert_after pivot node = do
  following ← get_next pivot
  set_next node following
  set_prev node pivot
  set_next pivot node
  after ← get_next node
  set_prev after node

unfoldable pub insert_before : ℕ → ℕ → Cmd Nodes (Unit {0})
unfolding get_prev set_next set_prev
insert_before pivot node = do
  set_next node pivot
  preceding ← get_prev pivot
  set_prev node preceding
  set_prev pivot node
  before ← get_prev node
  set_next before node

unfoldable pub erase : ℕ → Cmd Nodes (Unit {0})
unfolding get_next get_prev set_next set_prev unlink
erase node = do
  after ← get_next node
  before ← get_prev node
  set_prev after before
  before' ← get_prev node
  after' ← get_next node
  set_next before' after'
  unlink node

-- `erase_from_parent`, which the destructor of a node calls.
unfoldable pub erase_from_parent : ℕ → Cmd Nodes (Unit {0})
unfolding get_next get_prev set_next set_prev
erase_from_parent node = do
  linked ← get_next node
  if linked == null then return tt else do
    before ← get_prev node
    after ← get_next node
    set_next before after
    set_prev after before
    set_prev node null
    set_next node null

module _ (root : ℕ) where
  -- The constructor.
  unfoldable pub list_head : Cmd Nodes (Unit {0})
  unfolding set_next set_prev
  list_head = set_prev root root >> set_next root root

  unfoldable pub push_front : ℕ → Cmd Nodes (Unit {0})
  unfolding get_next set_next set_prev
  push_front node = do
    first ← get_next root
    set_next node first
    set_prev node root
    set_next root node
    after ← get_next node
    set_prev after node

  unfoldable pub push_back : ℕ → Cmd Nodes (Unit {0})
  unfolding get_prev set_next set_prev
  push_back node = do
    set_next node root
    last ← get_prev root
    set_prev node last
    set_prev root node
    before ← get_prev node
    set_next before node

  unfoldable pub front : Cmd Nodes ℕ
  unfolding get_next
  front = get_next root

  unfoldable pub back : Cmd Nodes ℕ
  unfolding get_prev
  back = get_prev root

  unfoldable pub empty : Cmd Nodes Bool
  unfolding get_next
  empty = do first ← get_next root; return (first == null)

  unfoldable pub pop_front : Cmd Nodes ℕ
  unfolding get_next set_next set_prev unlink
  pop_front = do
    node ← get_next root
    if node == root then return null else do
      after ← get_next node
      set_prev after root
      after' ← get_next node
      set_next root after'
      unlink node
      return node

  unfoldable pub pop_back : Cmd Nodes ℕ
  unfolding get_next get_prev set_next set_prev unlink
  pop_back = do
    node ← get_prev root
    if node == root then return null else do
      after ← get_next node
      before ← get_prev node
      set_prev after before
      before' ← get_prev node
      after' ← get_next node
      set_next before' after'
      unlink node
      return node

  -- The loop of `doClear`, over the nodes that it may visit; `undefined` when they run out.
  unfoldable pub clear_loop : ℕ → ℕ → Cmd Nodes (Unit {0})
  unfolding get_next unlink
  clear_loop zero current = λ s. undefined
  clear_loop (suc fuel) current =
      let more = do next ← get_next current; unlink current; clear_loop fuel next
      in if current == root then return tt else more

  unfoldable pub clear : ℕ → Cmd Nodes (Unit {0})
  unfolding get_next set_next set_prev
  clear fuel = do
    first ← get_next root
    clear_loop fuel first
    set_prev root root
    set_next root root
