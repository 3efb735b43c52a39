-- ===== src/Tests/Streams.antt =====
-- Streams over small devices.
use mcoro.Prelude.{
  ℕ, zero, suc, ◌≤◌, ◌<◌, ◌≡◌, refl, inl, inr, min, some, [], ◌∷◌, ◌++◌, arith, length, take, drop,
  sym, length-take, take-append-drop,
}
use mcoro.Strings.{Bytes}
use mcoro.Expected.{Expected, value}
use mcoro.Stream.{Stream, base_stream, BorrowedStream, borrowed_stream}
use mcoro.Stream.Input.{peekbuf, refill, fillbuf, filled, getline, getn, getall}
use mcoro.Stream.Input.Fill.{unread, Delivers, IsReady, Refilled, refill-Refilled}
use mcoro.Stream.Input.Line.{GotLine, getline-GotLine}
use mcoro.Stream.Input.Count.{GotN, getn-GotN}
use mcoro.Stream.Input.All.{GotAll, getall-GotAll}
use mcoro.Stream.Output.{flush}
use mcoro.Stream.Delimited.{getline_string, dropline_string}
use mcoro.Stream.Delimited.Scan.{Scan}
use mcoro.Stream.Delimited.Same.{dropline_string-getline_string}
use mcoro.Stream.Output.Flush.{IsOpen, Accepts, Flushed, flush-Flushed}

-- A device over a text, which reads at most three bytes at once.
abbrev source : Stream Bytes
source = record base_stream { raw_read = λ n s. (value (take (min n 3) s), drop (min n 3) s) }

abbrev ahead : Bytes → Bytes
ahead s = s

take_nil : (k : ℕ) (s : Bytes) → 0 < k → take k s ≡ [] → s ≡ []
take_nil zero s h e = absurd (omega arith)
take_nil (suc k) [] h e = refl
take_nil (suc k) (c ∷ s) h e = cc e

source-Delivers : Delivers ahead source
source-Delivers n s = (
  sym (take-append-drop (min n 3) s),
  omega (arith, length-take (min n 3) s),
  λ h e. take_nil (min n 3) s (omega arith) e,
)

-- "ab\ncd"
abbrev text : Bytes
text = 97 ∷ 98 ∷ 10 ∷ 99 ∷ 100 ∷ []

abbrev fresh : BorrowedStream Bytes
fresh = borrowed_stream text

fresh-IsReady : IsReady fresh
fresh-IsReady = record { index_le = omega arith; end_le = omega arith; has_room = inl refl }

refill-Refilled_example : Refilled ahead fresh (refill source fresh)
refill-Refilled_example = refill-Refilled ahead source source-Delivers fresh fresh-IsReady

getline-GotLine_example :
    (r : Expected (Unit {0}) × Bytes × BorrowedStream Bytes) × (getline source 6 10 [] fresh
      ≡ some r)
    × GotLine ahead 10 [] fresh r
getline-GotLine_example =
    getline-GotLine ahead 10 source source-Delivers 6 [] fresh fresh-IsReady (omega arith)

getn-GotN_example :
    (r : Expected (Unit {0}) × Bytes × BorrowedStream Bytes) × (getn source 6 4 [] fresh ≡ some r)
    × GotN ahead 4 [] fresh r
getn-GotN_example =
    getn-GotN ahead source source-Delivers 6 4 [] fresh fresh-IsReady (omega arith) (omega arith)

getall-GotAll_example :
    (r : Expected (Unit {0}) × Bytes × BorrowedStream Bytes) × (getall source 6 [] fresh ≡ some r)
    × GotAll ahead [] fresh r
getall-GotAll_example =
    getall-GotAll ahead source source-Delivers 6 [] fresh fresh-IsReady (omega arith)

-- "b\n"
dropline_string-getline_string_example :
    (r : Expected (Unit {0})) × (line : Bytes) × (b' : BorrowedStream Bytes) × (getline_string
        source 6 6 98
        (10 ∷ [])
        []
        fresh
      ≡ some (r, line, b'))
    × (dropline_string source 6 6 98 (10 ∷ []) fresh ≡ some (r, b'))
    × Scan 98 (10 ∷ []) (unread ahead fresh) r line (unread ahead b')
    × IsReady b'
unfolding peekbuf
dropline_string-getline_string_example =
    dropline_string-getline_string ahead source source-Delivers 6 6 98 (10 ∷ []) [] fresh
      fresh-IsReady (omega arith) (omega arith)

-- A buffer of four bytes of which one is left, over a text.
abbrev one_left : BorrowedStream Bytes
one_left = record fresh { in_buffer = some (1 ∷ 2 ∷ 3 ∷ 4 ∷ []); in_index = 2; in_end = 3 }

one_left-IsReady : IsReady one_left
one_left-IsReady = record {
  index_le = omega arith;
  end_le = omega arith;
  has_room = inr (omega arith);
}

abbrev one_left_refilled : BorrowedStream Bytes
one_left_refilled = record fresh {
  in_buffer = some (97 ∷ 98 ∷ 10 ∷ 4 ∷ []);
  in_index = 0;
  in_end = 3;
  raw = 99 ∷ 100 ∷ [];
}

one_left_refills : refill source one_left ≡ (value tt, one_left_refilled)
unfolding fillbuf filled
one_left_refills = refl

one_left_refilled-IsReady : IsReady one_left_refilled
one_left_refilled-IsReady = record {
  index_le = omega arith;
  end_le = omega arith;
  has_room = inr (omega arith);
}

shows_one : length (peekbuf one_left) < 2
unfolding peekbuf
shows_one = omega arith

shows_three : 2 ≤ length (peekbuf one_left_refilled)
unfolding peekbuf
shows_three = omega arith

-- A device that keeps what is written, at most three bytes at once.
abbrev sink : Stream Bytes
sink = record base_stream {
  raw_flush = λ s. (value tt, s);
  raw_write = λ buf s. (value (min (length buf) 3), s ++ take (min (length buf) 3) buf);
}

sink-Accepts : Accepts ahead sink
sink-Accepts = record { writes = λ buf s. (omega arith, refl); flushes = λ s. refl }

abbrev waiting : BorrowedStream Bytes
waiting = record (borrowed_stream []) { out_buffer = some text; out_index = 5 }

waiting-IsOpen : IsOpen waiting
waiting-IsOpen = record { index_le = omega arith; has_room = inr (omega arith) }

flush-Flushed_example :
    (r : Expected (Unit {0}) × BorrowedStream Bytes) × (flush sink 6 waiting ≡ some r)
    × Flushed ahead waiting r
flush-Flushed_example = flush-Flushed ahead sink sink-Accepts 6 waiting waiting-IsOpen (omega arith)
