-- ===== src/Tests/Texts.antt =====
-- Strings and results.
use mcoro.Prelude.{◌≡◌, refl, ◌↔◌, true, some, List, [], ◌∷◌, arith}
use mcoro.Strings.{find_view, starts_with, Bytes, Delim, view, char, find, collect}
use mcoro.Strings.Split.{join, join-collect, collect-join}
use mcoro.Expected.{eof_error, errc, same_error}
use mcoro.Expected.Laws.{same_error_iff}

-- " a b ", without spaces at its ends.

-- "a", "b" and "" behind "\r\n".
abbrev lines : Bytes
lines = 97 ∷ 13 ∷ 10 ∷ 98 ∷ 13 ∷ 10 ∷ []

abbrev crlf : Delim
crlf = view (13 ∷ 10 ∷ [])

join-collect_example :
    (parts : List Bytes) × (collect 10 lines crlf ≡ some parts)
    × (join (13 ∷ 10 ∷ []) parts ≡ lines)
join-collect_example = join-collect crlf (λ e. cc e) lines 10 (omega arith)

collect-join_example :
    collect 5 (join (44 ∷ []) ((97 ∷ []) ∷ (98 ∷ []) ∷ [])) (char 44)
    ≡ some ((97 ∷ []) ∷ (98 ∷ []) ∷ [])
collect-join_example =
    collect-join 44 (97 ∷ []) ((98 ∷ []) ∷ []) 5 (omega arith, tt) ((omega arith, tt), tt)
      (omega arith)

find-lines : find crlf lines ≡ some 1
unfolding find find_view starts_with
find-lines = refl

same_error_iff_example : (same_error eof_error (errc 1) ≡ true) ↔ (eof_error ≡ errc 1)
same_error_iff_example = same_error_iff eof_error (errc 1)
