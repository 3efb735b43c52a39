-- ===== src/Strings.antt =====
-- co_async/utils/string_utils.hpp: case mapping, trimming and splitting. A byte is a number below
-- 256, a string is the list of its bytes, and a `std::string_view` is the text that it shows.
pub mod Case
pub mod Trim
pub mod Find
pub mod Split
pub mod Rest
use mcoro.Prelude.{
  ℕ, zero, suc, ◌+◌, ◌-◌, Bool, true, false, not, ◌&&◌, ◌||◌, Option, none, some, List, [], ◌∷◌,
  ◌++◌, map, ltb, leb, ◌==◌, if◌then◌else◌, length, take, drop, replicate,
}
use mathlib.Core.Option

abbrev pub Bytes : Type 0
Bytes = List ℕ

-- The λ of `lower_string`.
pub lower_char : ℕ → ℕ
lower_char c = if leb b'A' c && leb c b'Z' then c + (b'a' - b'A') else c

-- The λ of `upper_string`.
pub upper_char : ℕ → ℕ
upper_char c = if leb b'a' c && leb c b'z' then c - (b'a' - b'A') else c

pub lower_string : Bytes → Bytes
lower_string s = map lower_char s

pub upper_string : Bytes → Bytes
upper_string s = map upper_char s

abbrev pub one_of : Bytes → ℕ → Bool
one_of [] c = false
one_of (t ∷ ts) c = (t == c) || one_of ts c

-- `s.find_first_not_of(trims)`; `none` is `npos`.
pub find_first_not_of : Bytes → Bytes → Option ℕ
find_first_not_of trims [] = none
find_first_not_of trims (c ∷ s) =
    if one_of trims c then Option.map suc (find_first_not_of trims s) else some 0

-- `s.find_last_not_of(trims)`
pub find_last_not_of : Bytes → Bytes → Option ℕ
find_last_not_of trims [] = none
find_last_not_of trims (c ∷ s) = elim (find_last_not_of trims s) [
  | some i ↦ some (suc i)
  | none ↦ if one_of trims c then none else some 0
]

-- `s.substr(pos, n)` for a `pos` inside of `s`.
abbrev pub substr : Bytes → ℕ → ℕ → Bytes
substr s pos n = take n (drop pos s)

pub trim_string : Bytes → Bytes → Bytes
trim_string trims s = elim (find_first_not_of trims s) [
  | none ↦ []
  | some pos ↦ elim (find_last_not_of trims s) [
    | none ↦ []
    | some end ↦ substr s pos (end + 1 - pos)
  ]
]

-- The delimiter of `SplitString`: a `std::string_view` or a `char`.
pub data Delim : Type 0 where
  view : Bytes → Delim
  char : ℕ → Delim

abbrev pub spell : Delim → Bytes
spell (view d) = d
spell (char c) = c ∷ []

unfoldable pub starts_with : Bytes → Bytes → Bool
starts_with [] s = true
starts_with (d ∷ ds) [] = false
starts_with (d ∷ ds) (c ∷ s) = (d == c) && starts_with ds s

-- `s.find(delimiter)`, for a view.
unfoldable pub find_view : Bytes → Bytes → Option ℕ
find_view d [] = if starts_with d [] then some 0 else none
find_view d (c ∷ s) = if starts_with d (c ∷ s) then some 0 else Option.map suc (find_view d s)

-- `s.find(delimiter)`, for a char.
unfoldable pub find_char : ℕ → Bytes → Option ℕ
find_char d [] = none
find_char d (c ∷ s) = if d == c then some 0 else Option.map suc (find_char d s)

unfoldable pub find : Delim → Bytes → Option ℕ
unfolding find_view find_char
find (view d) s = find_view d s
find (char c) s = find_char c s

-- `SplitString::iterator`. `data` is the text that lies from `current.data()` on, which ends where
-- the split text ends, so that `rest` can be computed.
pub record Iterator : Type 0 where
  pub s : Bytes
  pub delimiter : Delim
  pub current : Bytes
  pub from : Bytes
  pub ended : Bool
  pub to_be_ended : Bool

abbrev pub found_at : Iterator → Option ℕ → Iterator
found_at it none = record it {
  current = it.s;
  from = it.s;
  s = [];
  ended = it.to_be_ended;
  to_be_ended = true;
}
found_at it (some pos) = record it {
  current = substr it.s 0 pos;
  from = it.s;
  s = drop (pos + length (spell it.delimiter)) it.s;
}

unfoldable pub find_next : Iterator → Iterator
find_next it = found_at it (find it.delimiter it.s)

-- `SplitString::begin`
unfoldable pub begin : Bytes → Delim → Iterator
unfolding find_next
begin s delim = find_next (record {
  s = s;
  delimiter = delim;
  current = [];
  from = [];
  ended = false;
  to_be_ended = false;
})

-- `rest()`: `current.size() + s.size()` bytes from `current.data()` on.
unfoldable pub rest : Iterator → Bytes
rest it = take (length it.current + length it.s) it.from

-- The loop of `collect()`, over the rounds that it may make; `none` when they run out.
pub collect_loop : ℕ → Iterator → List Bytes → Option (List Bytes)
collect_loop zero it result = none
collect_loop (suc fuel) it result =
    let more = collect_loop fuel (find_next it) (result ++ it.current ∷ []) in
    if it.ended then some result else more

pub collect : ℕ → Bytes → Delim → Option (List Bytes)
unfolding collect_loop begin
collect fuel s delim = collect_loop fuel (begin s delim) []

-- The loop of `collect<N>()` with `n` elements of the array still to fill: the others stay empty.
pub collect_array_loop : ℕ → Iterator → List Bytes
collect_array_loop zero it = []
collect_array_loop (suc zero) it = if it.ended then [] ∷ [] else rest it ∷ []
collect_array_loop (suc (suc n)) it =
    let more = it.current ∷ collect_array_loop (suc n) (find_next it) in
    if it.ended then replicate (suc (suc n)) [] else more

pub collect_array : ℕ → Bytes → Delim → List Bytes
unfolding collect_array_loop begin
collect_array n s delim = collect_array_loop n (begin s delim)
