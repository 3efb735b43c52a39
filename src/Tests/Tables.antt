-- ===== src/Tests/Tables.antt =====
-- Tables of registered entries.
use mcoro.Prelude.{
  ℕ, ◌+◌, ◌≡◌, refl, none, [], ◌∷◌, arith, inr, some, length, ◌==◌, ==_ne, if◌then◌else◌, done,
  undefined,
}
use mcoro.Registered.{Ring, Table, add}
use mcoro.Registered.Room.{Succeeds, Has, add-Has, add-undefined}

-- A ring that counts its calls.
abbrev counting : Ring ℕ ℕ
counting = record {
  unregister = λ k. (none, k + 1);
  register_sparse = λ n k. (none, k + 1);
  update_tag = λ i xs k. (if length xs == 0 then some 22 else none, k + 1);
}

counting-Succeeds : Succeeds counting
counting-Succeeds = record {
  unregister = λ k. refl;
  register_sparse = λ n k. refl;
  update_tag = λ i xs k l. rw (==_ne (length xs) 0 (λ z. omega (arith, l, z))) refl;
  update_none = λ i k. refl;
}

abbrev one_file : Table ℕ ℕ
one_file = record { kernel = 3; items = 7 ∷ []; num = 1; cap = 1 }

one_file-Has : Has one_file (7 ∷ [])
one_file-Has = record {
  front = refl;
  count = refl;
  room = refl;
  bound = omega arith;
  small = omega arith;
}

add-Has_example :
    (s' : Table ℕ ℕ) × (add counting 0 (8 ∷ 9 ∷ []) one_file ≡ done (inr 1, s'))
    × Has s' (7 ∷ 8 ∷ 9 ∷ [])
    × (s'.cap ≡ 3)
add-Has_example =
    add-Has counting 0 counting-Succeeds one_file (7 ∷ []) (8 ∷ 9 ∷ []) one_file-Has
      (inr (omega arith)) (omega arith) (omega arith) (omega arith)

add-undefined_example : add counting 0 (8 ∷ 9 ∷ 10 ∷ []) one_file ≡ undefined
add-undefined_example =
    add-undefined counting 0 counting-Succeeds one_file (7 ∷ []) (8 ∷ 9 ∷ 10 ∷ []) one_file-Has
      (inr (omega arith)) (omega arith) (omega arith)
