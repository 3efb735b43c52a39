-- ===== src/IoContext/Workers.antt =====
-- The constructor and destructor of `IOContext` (co_async/generic/io_context.cpp), and the array of contexts that
-- `IOContextMT::run` makes (co_async/generic/io_context_mt.cpp). A context is its address. `instance` is
-- the thread-local pointer of `IOContext`, and the other two are those of its parts.
use mcoro.Prelude.{
  ℕ, zero, suc, ◌+◌, ◌≤◌, ◌≡◌, ◌≢◌, refl, Option, none, some, arith, ◌==◌, ==_ne, if◌then◌else◌,
}
use mcoro.Expected.{ErrorCode}

-- What a constructor throws: the `std::logic_error` for a second context, or the error of the set-up.
pub data Thrown : Type 0 where
  logic_error : Thrown
  system_error : ErrorCode → Thrown

pub record Thread : Type 0 where
  pub io_context : ℕ
  pub generic : ℕ
  pub platform : ℕ

abbrev pub bare : Thread
bare = record { io_context = 0; generic = 0; platform = 0 }

abbrev pub thrown_by : Option ErrorCode → Option Thrown
thrown_by none = none
thrown_by (some e) = some (system_error e)

-- `schedSetThreadAffinity` and `setup` of a context are a parameter, which gives an error or none.
module _ (set_up : ℕ → Option ErrorCode) where
  unfoldable pub construct : ℕ → Thread → Option Thrown × Thread
  construct ctx th =
      if th.io_context == 0
      then (thrown_by (set_up ctx), record { io_context = ctx; generic = ctx; platform = ctx })
      else (some logic_error, th)

  -- The destructor.
  abbrev pub destruct : Thread → Thread
  destruct th = bare

  -- The contexts of an array, one after another; when one throws, those in front of it are destroyed.
  abbrev pub unwound : Option Thrown × Thread → Option Thrown × Thread
  unwound (none, th) = (none, th)
  unwound (some e, th) = (some e, destruct th)

  abbrev pub behind :
      Option Thrown × Thread → (Thread → Option Thrown × Thread) → Option Thrown × Thread
  behind (some e, th) rest = (some e, th)
  behind (none, th) rest = unwound (rest th)

  unfoldable pub make_workers : ℕ → ℕ → Thread → Option Thrown × Thread
  make_workers ctx zero th = (none, th)
  make_workers ctx (suc n) th =
      let rest = make_workers (ctx + 1) n in behind (construct ctx th) rest

  -- `IOContextMT::run` of two or more workers, on a thread without a context, where the set-up of
  -- the first succeeds, throws the `logic_error` for a second context of one thread, and the
  -- pointers of the thread are null again.
  pub make_workers-throws :
      (ctx n : ℕ) (th : Thread)
      → ctx ≢ 0
      → th.io_context ≡ 0
      → set_up ctx ≡ none
      → 2 ≤ n
      → make_workers ctx n th ≡ (some logic_error, bare)
  unfolding make_workers construct
  make_workers-throws ctx zero th full free ok l = absurd (omega (arith, l))
  make_workers-throws ctx (suc zero) th full free ok l = absurd (omega (arith, l))
  make_workers-throws ctx (suc (suc n)) th full free ok l = rw (free, ok, ==_ne ctx 0 full) refl
