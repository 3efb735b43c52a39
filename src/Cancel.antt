-- ===== src/Cancel.antt =====
-- co_async/generic/cancel.hpp: a source of cancellation and its list of cancellers. `root` is the address of
-- the list's head, and `fuel` bounds the nodes that a loop visits. The virtual method `doCancel` of a
-- canceller is a parameter that may change the source and what is outside of it. `when_all` of the
-- tasks, which run to their end, runs them in order. A token is the address of the source or null.
pub mod Once
use mcoro.Prelude.{
  ℕ, zero, suc, Bool, true, false, List, [], ◌∷◌, ◌==◌, if◌then◌else◌, not, Access, done, undefined,
  and_then, Cmd, ◌>>=◌, ◌>>◌, return,
}
use mcoro.IntrusiveList.{Nodes, null, get_next, front, empty, push_front}
use mcoro.IntrusiveList
use mcoro.Expected.{Expected, value, error, ErrorCode, errc}

-- `CancelSourceImpl`, and what is outside of it.
pub record Source (W : Type 0) : Type 0 where
  pub nodes : Nodes
  pub canceled : Bool
  pub world : W

-- The range-based loop over the list: the nodes that it visits.
unfoldable pub collect : ℕ → ℕ → ℕ → Cmd Nodes (List ℕ)
collect root zero current = λ s. undefined
collect root (suc fuel) current =
    let more = do next ← get_next current; rest ← collect root fuel next; return (current ∷ rest)
    in if current == root then return [] else more

module _ {W : Type 0} where
  -- An operation of the list.
  unfoldable pub on_list : {A : Type 0} → Cmd Nodes A → Cmd (Source W) A
  on_list c s = and_then (c s.nodes) λ r. done (r.0, record s { nodes = r.1 })

  unfoldable pub is_canceled : Cmd (Source W) Bool
  is_canceled s = done (s.canceled, s)

  unfoldable pub set_canceled : Cmd (Source W) (Unit {0})
  set_canceled s = done (tt, record s { canceled = true })

module _ {W : Type 0} (root : ℕ) where
  unfoldable pub register : ℕ → Cmd (Source W) (Unit {0})
  register canceller = on_list (push_front root canceller)

  module _ (cancel_one : ℕ → Cmd (Source W) (Unit {0})) where
    unfoldable pub run_all : List ℕ → Cmd (Source W) (Unit {0})
    run_all [] = return tt
    run_all (task ∷ tasks) = cancel_one task >> run_all tasks

    -- The cancellers of a list that is not empty.
    unfoldable pub cancel_list : ℕ → Cmd (Source W) (Unit {0})
    cancel_list fuel = do
      first ← on_list (front root)
      tasks ← on_list (collect root fuel first)
      run_all tasks
      on_list (IntrusiveList.clear root fuel)

    unfoldable pub cancel : ℕ → Cmd (Source W) (Unit {0})
    cancel fuel =
        let start = do
          set_canceled
          none ← on_list (empty root)
          if none then return tt else cancel_list fuel
        in is_canceled >>= λ already. if already then return tt else start

-- The methods of `CancelToken`.
abbrev pub is_cancel_possible : ℕ → Bool
is_cancel_possible token = not (token == null)

module _ {W : Type 0} (token : ℕ) where
  unfoldable pub token_cancel : Cmd (Source W) (Unit {0}) → Cmd (Source W) (Unit {0})
  token_cancel do_cancel = if token == null then return tt else do_cancel

  unfoldable pub token_is_canceled : Cmd (Source W) Bool
  token_is_canceled = if token == null then return false else is_canceled

  unfoldable pub as_expect : Cmd (Source W) (Expected (Unit {0}))
  as_expect =
      if token == null
      then (λ s. undefined)
      else is_canceled >>= λ canceled. return (if canceled then error (errc 125) else value tt)

  -- The constructors of `CancelCallback` and `CancelSource` from a token.
  unfoldable pub register_at : ℕ → ℕ → Cmd (Source W) (Unit {0})
  register_at root canceller = if token == null then return tt else register root canceller
