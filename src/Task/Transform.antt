-- ===== src/Task/Transform.antt =====
-- co_async/awaiter/task.hpp: `TaskPromiseExpectedTransforms`, for `co_await` of results in a task that
-- returns one; and `ValueOrReturnAwaiter` and `GeneratorResult`.
use mcoro.Prelude.{ℕ, Option, none, some, List, [], ◌∷◌}
use mcoro.Expected.{Expected, value, error, ErrorCode}
use mcoro.Task.{Awaiter}

-- The coroutine goes on with a value, or its caller is resumed.
pub data ValueOrReturn (A : Type 0) : Type 0 where
  in_place : A → ValueOrReturn A
  previous : ℕ → ValueOrReturn A

-- What a generator gave: a value that it yields, or the result at its end.
pub data GeneratorResult (A B : Type 0) : Type 0 where
  yielded : A → GeneratorResult A B
  ended : B → GeneratorResult A B

abbrev pub Await : Type 0 → Type 0 → Type 0 → Type 0
Await R X A = ValueOrReturn A × Awaiter (Expected R) X

-- The loop over many results without values: an error, if there is one.
unfoldable pub first_error : List (Expected (Unit {0})) → Option ErrorCode
first_error [] = none
first_error (value v ∷ es) = first_error es
first_error (error e ∷ es) = some e

module _ {R X A : Type 0} where
  -- The error is the result of the task.
  abbrev pub return_error : Awaiter (Expected R) X → ErrorCode → Await R X A
  return_error a e = (previous a.caller_coroutine, record a { result = some (error e) })

  unfoldable pub await_expected : Awaiter (Expected R) X → Expected A → Await R X A
  await_expected a (value v) = (in_place v, a)
  await_expected a (error e) = return_error a e

module _ {R X A B : Type 0} where
  unfoldable pub await_generator :
      Awaiter (Expected R) X → GeneratorResult A (Expected B) → Await R X (GeneratorResult A B)
  await_generator a (yielded v) = (in_place (yielded v), a)
  await_generator a (ended (value v)) = (in_place (ended v), a)
  await_generator a (ended (error e)) = return_error a e

module _ {R X : Type 0} where
  abbrev pub checked : Awaiter (Expected R) X → Option ErrorCode → Await R X (Unit {0})
  checked a none = (in_place tt, a)
  checked a (some e) = return_error a e

  -- The overload for results with values has a template parameter that cannot be deduced, so no
  -- `co_await` can choose it, and it is left out.
  unfoldable pub await_vector :
      Awaiter (Expected R) X → List (Expected (Unit {0})) → Await R X (Unit {0})
  await_vector a es = checked a (first_error es)

  -- The `co_await` of one result after another, as far as the task goes on.
  abbrev go_on :
      Await R X (Unit {0}) → (Awaiter (Expected R) X → Await R X (Unit {0})) → Await R X (Unit {0})
  go_on (in_place u, a) rest = rest a
  go_on (previous h, a) rest = (previous h, a)

  abbrev pub await_each : Awaiter (Expected R) X → List (Expected (Unit {0})) → Await R X (Unit {0})
  await_each a [] = (in_place tt, a)
  await_each a (e ∷ es) = go_on (await_expected a e) λ a'. await_each a' es
