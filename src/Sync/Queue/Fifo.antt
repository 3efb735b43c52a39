-- ===== src/Sync/Queue/Fifo.antt =====
-- `try_push` and `try_pop` against a list.
use mcoro.Prelude.{
  ℕ, suc, ◌+◌, ◌≤◌, ◌≡◌, refl, Bool, true, Option, none, some, List, [], ◌∷◌, ◌++◌, arith, ap, ◌∙◌,
  Access, done, and_then,
}
use mcoro.RingQueue.{RingQueue, push, pop}
use mcoro.RingQueue.Valid.{IsValid, contents, push-room, pop-empty, pop-cons}
use mcoro.RingQueue.Size.{Op, put, get, pop-counts}
use mcoro.Sync.Queue.{Queue, try_pop, try_push}

-- What a call gives.
pub data Answer {ℓ} (A : Type ℓ) : Type ℓ where
  accepted : Bool → Answer A
  got : Option A → Answer A

module _ {ℓ} {A : Type ℓ} where
  -- The calls in order.
  unfoldable pub serve : List (Op A) → Queue A → Access (List (Answer A))
  serve [] q = done []
  serve (put value ∷ ops) q =
      and_then (try_push value q)
        λ (ok, q'). and_then (serve ops q') λ out. done (accepted ok ∷ out)
  serve (get ∷ ops) q =
      and_then (try_pop q) λ (value, q'). and_then (serve ops q') λ out. done (got value ∷ out)

  -- A list that is pushed to at its end, without a bound.
  abbrev pub serve_list : List (Op A) → List A → List (Answer A)
  serve_list [] xs = []
  serve_list (put value ∷ ops) xs = accepted true ∷ serve_list ops (xs ++ value ∷ [])
  serve_list (get ∷ ops) [] = got none ∷ serve_list ops []
  serve_list (get ∷ ops) (x ∷ xs) = got (some x) ∷ serve_list ops xs

  abbrev pub puts : List (Op A) → ℕ
  puts [] = 0
  puts (put value ∷ ops) = suc (puts ops)
  puts (get ∷ ops) = puts ops

  try_push-ring :
      (value : A) (q : Queue A) (ok : Bool) (ring' : RingQueue A)
      → push q.ring value ≡ done (ok, ring')
      → (ready : ℕ) × (try_push value q ≡ done (ok, record { ring = ring'; ready = ready }))
  unfolding try_push
  try_push-ring value q ok ring' e = rw e (_, refl)

  try_pop-ring :
      (q : Queue A) (out : Option A) (ring' : RingQueue A)
      → pop q.ring ≡ done (out, ring')
      → (ready : ℕ) × (try_pop q ≡ done (out, record { ring = ring'; ready = ready }))
  unfolding try_pop
  try_pop-ring q out ring' e = rw e (_, refl)

  -- A `Queue` does what a list does to which `try_push` appends and from whose front `try_pop`
  -- takes: for every sequence of these calls, from a queue whose pointers have not gone round,
  -- with as many slots behind the write pointer as there are pushes, all calls are defined and
  -- have the results of the list.
  pub serve-serve_list :
      (ops : List (Op A)) (q : Queue A) (xs : List A)
      → IsValid q.ring
      → contents q.ring ≡ xs
      → q.ring.write + puts ops ≤ q.ring.tail
      → serve ops q ≡ done (serve_list ops xs)
  unfolding serve
  serve-serve_list [] q xs v e h = refl
  serve-serve_list (put value ∷ ops) q xs v e h =
      let (ring', runs, v', e', w', r', t') = push-room v value (omega arith) in
      let (ready, runs') = try_push-ring value q true ring' runs in
      let rest =
        serve-serve_list ops (record { ring = ring'; ready = ready }) (xs ++ value ∷ []) v'
          (e' ∙ ap (λ (ys : List A). ys ++ value ∷ []) e) (omega (arith, w', t')) in
      rw (runs', rest)
  serve-serve_list (get ∷ ops) q [] v e h =
      let (ready, runs') = try_pop-ring q none q.ring (pop-empty v e) in
      let rest = serve-serve_list ops (record { ring = q.ring; ready = ready }) [] v e h in
      rw (runs', rest)
  serve-serve_list (get ∷ ops) q (x ∷ xs) v e h =
      let (ring', runs, v', e') = pop-cons v e in
      let (ready, runs') = try_pop-ring q (some x) ring' runs in
      let (v₁, t₁, w₁) = pop-counts v runs in
      let rest =
        serve-serve_list ops (record { ring = ring'; ready = ready }) xs v' e'
          (omega (arith, w₁, t₁)) in
      rw (runs', rest)
