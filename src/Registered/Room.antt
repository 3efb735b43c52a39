-- ===== src/Registered/Room.antt =====
-- What `addBuffers` and `addFiles` do with the room that there is.
use native.Mathlib.Nat.{mod-eq_of_lt}
use mcoro.Prelude.{
  ℕ, ◌+◌, ◌*◌, ◌^◌, ◌≤◌, ◌<◌, ◌≡◌, refl, true, false, none, some, List, [], ◌∷◌, ◌⊎◌, ◌++◌, ◌==◌,
  if◌then◌else◌, leb, done, undefined, arith, ap, ◌∙◌, inl, inr, length, take, drop, replicate,
  Bool-cases, length-append, length-drop, take-append, length-replicate, length-take,
}
use mcoro.Registered.{
  return, Ring, Table, uint, reserve, resize, append, add, throwing_error, copy_items, store_items,
}

-- The calls of the ring do not fail, but that the kernel refuses an update of no entries with `EINVAL`,
-- which is 22.
pub record Succeeds {K A : Type 0} (ring : Ring K A) : Type 0 where
  pub unregister : (k : K) → (ring.unregister k).0 ≡ none
  pub register_sparse : (n : ℕ) (k : K) → (ring.register_sparse n k).0 ≡ none
  pub update_tag : (i : ℕ) (xs : List A) (k : K) → 0 < length xs → (ring.update_tag i xs k).0 ≡ none
  pub update_none : (i : ℕ) (k : K) → (ring.update_tag i [] k).0 ≡ some 22

-- The table has these entries, in an array of its capacity.
pub record Has {K A : Type 0} (s : Table K A) (xs : List A) : Type 0 where
  pub front : take s.num s.items ≡ xs
  pub count : s.num ≡ length xs
  pub room : length s.items ≡ s.cap
  pub bound : s.num ≤ s.cap
  pub small : s.cap < 2 ^ 32

abbrev pub new_table : {K A : Type 0} → K → Table K A
new_table k = record { kernel = k; items = []; num = 0; cap = 0 }

-- The capacity when entries are added.
abbrev pub grown : ℕ → ℕ → ℕ
grown cap num = if leb cap num then cap * 2 + 1 else cap

-- The table has a free place, or it has entries, which the kernel then gets back when the table grows.
abbrev pub Kept : {K A : Type 0} → Table K A → Type 0
Kept s = (s.num < s.cap) ⊎ (0 < s.num)

Kept-filled : {K A : Type 0} (s : Table K A) → Kept s → leb s.cap s.num ≡ true → 0 < s.num
Kept-filled s (inl l) e = absurd (omega (arith, l, leb_true s.cap s.num e))
  where
    leb_true : (a b : ℕ) → leb a b ≡ true → a ≤ b
    leb_true a b h = ground (arith, h)
Kept-filled s (inr p) e = p

leb_yes : (a b : ℕ) → a ≤ b → leb a b ≡ true
leb_yes a b h = ground arith

leb_no : (a b : ℕ) → b < a → leb a b ≡ false
leb_no a b h = ground arith

module _ {K A : Type 0} (ring : Ring K A) (empty_item : A) (ok : Succeeds ring) where
  throwing-update :
      (i : ℕ) (xs : List A) (s : Table K A)
      → 0 < length xs
      → throwing_error (ring.update_tag i xs) s
        ≡ done (inr tt, record s { kernel = (ring.update_tag i xs s.kernel).1 })
  unfolding throwing_error
  throwing-update i xs s l = rw (ok.update_tag i xs s.kernel l) refl

  throwing-none :
      (i : ℕ) (s : Table K A)
      → throwing_error (ring.update_tag i []) s
        ≡ done (inl 22, record s { kernel = (ring.update_tag i [] s.kernel).1 })
  unfolding throwing_error
  throwing-none i s = rw (ok.update_none i s.kernel) refl

  throwing-register :
      (n : ℕ) (s : Table K A)
      → throwing_error (ring.register_sparse n) s
        ≡ done (inr tt, record s { kernel = (ring.register_sparse n s.kernel).1 })
  unfolding throwing_error
  throwing-register n s = rw (ok.register_sparse n s.kernel) refl

  throwing-unregister :
      (s : Table K A)
      → throwing_error ring.unregister s
        ≡ done (inr tt, record s { kernel = (ring.unregister s.kernel).1 })
  unfolding throwing_error
  throwing-unregister s = rw (ok.unregister s.kernel) refl

  -- The kernel's state does not matter here.
  resize-run :
      (n : ℕ) (old : List A) (t : Table K A)
      → t.num ≤ length t.items
      → t.num ≤ length old
      → 0 < t.num
      → n < 2 ^ 32
      → (k : K) × (resize ring empty_item n old t
          ≡ done (
            inr tt,
            record t { kernel = k; items = take t.num old ++ drop t.num t.items; cap = n },
          ))
  unfolding resize copy_items
  resize-run n old t l l' p small =
      let t1 : Table K A = record t { items = take t.num old ++ drop t.num t.items; cap = n } in
      let t2 : Table K A = record t1 { kernel = (ring.register_sparse n t.kernel).1 } in
      (
        (ring.update_tag 0 (take t.num t1.items) t2.kernel).1,
        rw
            (
              mod-eq_of_lt small,
              leb_yes t.num (length t.items) l,
              leb_yes t.num (length old) l',
              throwing-register n t1,
              throwing-update 0 (take t.num t1.items) t2 (
                  omega (
                    arith,
                    p,
                    l',
                    length-take t.num t1.items,
                    length-append (take t.num old) (drop t.num t.items),
                    length-take t.num old,
                  )),
            )
            refl,
      )

  reserve-run :
      (n : ℕ) (s : Table K A)
      → s.num ≤ n
      → s.num ≤ length s.items
      → 0 < s.num
      → n < 2 ^ 32
      → (k : K) × (reserve ring empty_item n s
          ≡ done (
            inr tt,
            record s {
              kernel = k;
              items = take s.num s.items ++ drop s.num (replicate n empty_item);
              cap = n;
            },
          ))
  unfolding reserve
  reserve-run n s l l' p small =
      let s1 : Table K A = record s { items = replicate n empty_item } in
      let s2 : Table K A = record s1 { kernel = (ring.unregister s.kernel).1 } in
      let enough : s.num ≤ length (replicate n empty_item) =
        omega (arith, l, length-replicate n empty_item) in
      elim (Bool-cases (s.cap == 0)) [
        | inl e ↦ let (k, run) = resize-run n s.items s1 enough l' p small in (k, rw e run)
        | inr e ↦
            let (k, run) = resize-run n s.items s2 enough l' p small in
            (k, rw (e, throwing-unregister s1) run)
      ]

  append-run :
      (new : List A) (t : Table K A)
      → t.num + length new ≤ length t.items
      → 0 < length new
      → t.num + length new < 2 ^ 32
      → (k : K) × (append ring empty_item new t
          ≡ done (
            inr t.num,
            record t {
              kernel = k;
              items = take t.num t.items ++ new ++ drop (t.num + length new) t.items;
              num = t.num + length new;
            },
          ))
  unfolding append store_items
  append-run new t l p small =
      let fits : length new < 2 ^ 32 = omega (arith, small) in
      let t1 : Table K A = record t {
        items = take t.num t.items ++ new ++ drop (t.num + length new) t.items;
      } in
      (
        (ring.update_tag t.num (take (length new) new) t.kernel).1,
        rw
            (
              leb_yes (t.num + length new) (length t.items) l,
              mod-eq_of_lt fits,
              throwing-update t.num (take (length new) new) t1
                  (omega (arith, p, length-take (length new) new)),
              mod-eq_of_lt small,
            )
            refl,
      )

  append-undefined :
      (new : List A) (t : Table K A)
      → length t.items < t.num + length new
      → append ring empty_item new t ≡ undefined
  unfolding append store_items
  append-undefined new t l = rw (leb_no (t.num + length new) (length t.items) l) refl

  -- The array after the test for room.
  room-Has :
      (s : Table K A) (xs : List A)
      → Has s xs
      → Kept s
      → s.cap * 2 + 1 < 2 ^ 32
      → (t : Table K A) × ((if leb s.cap s.num
              then reserve ring empty_item (uint (s.cap * 2 + 1))
              else return tt)
            s
          ≡ done (inr tt, t))
        × Has t xs
        × (t.cap ≡ grown s.cap s.num)
  room-Has s xs has kept small = elim (Bool-cases (leb s.cap s.num)) [
    | inl e ↦
        let n = s.cap * 2 + 1 in
        let bound = has.bound in
        let (k, run) =
          reserve-run n s (omega arith) (omega (arith, has.room)) (Kept-filled s kept e) small in
        let items = take s.num s.items ++ drop s.num (replicate n empty_item) in
        (
          record s { kernel = k; items = items; cap = n },
          rw (e, mod-eq_of_lt small) run,
          record {
            front = rw has.front (
                ap (λ (j : ℕ). take j (xs ++ drop s.num (replicate n empty_item))) has.count
                ∙ take-append xs (drop s.num (replicate n empty_item)));
            count = has.count;
            room = omega (
              arith,
              length-append (take s.num s.items) (drop s.num (replicate n empty_item)),
              ap length has.front,
              length-drop s.num (replicate n empty_item),
              length-replicate n empty_item,
              has.count,
              bound,
            );
            bound = omega (arith, bound);
            small = small;
          },
          rw e refl,
        )
    | inr e ↦ (s, rw e refl, has, rw e refl)
  ]

  append-Has :
      (t : Table K A) (xs ys : List A)
      → Has t xs
      → 0 < length ys
      → length xs + length ys ≤ t.cap
      → (s' : Table K A) × (append ring empty_item ys t ≡ done (inr (length xs), s'))
        × Has s' (xs ++ ys)
        × (s'.cap ≡ t.cap)
  append-Has t xs ys has p l =
      let small = has.small in
      let (k, run) =
        append-run ys t (omega (arith, has.room, has.count)) p (omega (arith, has.count)) in
      let rest = drop (t.num + length ys) t.items in
      let s' : Table K A = record t {
        kernel = k;
        items = take t.num t.items ++ ys ++ rest;
        num = t.num + length ys;
      } in
      (
        s',
        run ∙ ap (λ (j : ℕ). done (inr j, s')) has.count,
        record {
          front = rw has.front (
              ap (λ (j : ℕ). take j (xs ++ ys ++ rest))
                (omega (arith, has.count, length-append xs ys))
              ∙ take-append (xs ++ ys) rest);
          count = omega (arith, has.count, length-append xs ys);
          room = omega (
            arith,
            length-append (take t.num t.items ++ ys) rest,
            length-append (take t.num t.items) ys,
            ap length has.front,
            length-drop (t.num + length ys) t.items,
            has.room,
            has.count,
          );
          bound = omega (arith, has.count);
          small = small;
        },
        refl,
      )

  -- `addBuffers` or `addFiles` on a table that has the entries `xs`, with a ring that refuses an
  -- update of no entries with `EINVAL` and whose other calls do not fail, when the table has a
  -- free place or an entry, twice the capacity and one fits in 32 bits, there are new entries,
  -- and all entries fit in the capacity, which is first doubled and stepped by one when it is
  -- used up: the result is the number of `xs`, and the table has `xs` and then the new entries.
  pub add-Has :
      (s : Table K A) (xs ys : List A)
      → Has s xs
      → Kept s
      → 0 < length ys
      → s.cap * 2 + 1 < 2 ^ 32
      → length xs + length ys ≤ grown s.cap (length xs)
      → (s' : Table K A) × (add ring empty_item ys s ≡ done (inr (length xs), s'))
        × Has s' (xs ++ ys)
        × (s'.cap ≡ grown s.cap (length xs))
  unfolding add
  add-Has s xs ys has kept p small l =
      let (t, run, has_t, cap_t) = room-Has s xs has kept small in
      let cap_xs = cap_t ∙ ap (grown s.cap) has.count in
      let (s', run', has', cap') = append-Has t xs ys has_t p (omega (arith, l, cap_xs)) in
      (s', rw run run', has', cap' ∙ cap_xs)

  -- Under the same conditions on the table and the ring, `addBuffers` or `addFiles` of more
  -- entries than fit in that capacity writes behind the array.
  pub add-undefined :
      (s : Table K A) (xs ys : List A)
      → Has s xs
      → Kept s
      → s.cap * 2 + 1 < 2 ^ 32
      → grown s.cap (length xs) < length xs + length ys
      → add ring empty_item ys s ≡ undefined
  unfolding add
  add-undefined s xs ys has kept small l =
      let (t, run, has_t, cap_t) = room-Has s xs has kept small in
      let cap_xs = cap_t ∙ ap (grown s.cap) has.count in
      rw run (append-undefined ys t (omega (arith, has_t.room, has_t.count, l, cap_xs)))

  -- `addBuffers` or `addFiles` on the table of a new context throws `EINVAL` and stores nothing, and
  -- the table has one place then.
  pub add-new_table :
      (ys : List A) (k : K)
      → (s' : Table K A) × (add ring empty_item ys (new_table k) ≡ done (inl 22, s'))
        × Has s' []
        × (s'.cap ≡ 1)
  unfolding add reserve resize copy_items
  add-new_table ys k =
      let t : Table K A = record { kernel = k; items = empty_item ∷ []; num = 0; cap = 1 } in
      let t1 : Table K A = record t { kernel = (ring.register_sparse 1 k).1 } in
      (
        record t { kernel = (ring.update_tag 0 [] t1.kernel).1 },
        rw (throwing-register 1 t, throwing-none 0 t1) refl,
        record {
          front = refl;
          count = refl;
          room = refl;
          bound = omega arith;
          small = omega arith;
        },
        refl,
      )
