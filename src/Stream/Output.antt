-- ===== src/Stream/Output.antt =====
-- The writing half of `BorrowedStream`. `writes` bounds the calls of `raw_write` in one `flush`.
pub mod Flush
use mcoro.Prelude.{
  ℕ, zero, suc, ◌+◌, ◌-◌, min, Bool, true, false, Option, none, some, List, [], ◌∷◌, ◌++◌, leb, ltb,
  ◌==◌, ◌||◌, if◌then◌else◌, length, take, drop,
}
use mathlib.Core.Option
use mcoro.Strings.{Bytes}
use mcoro.Expected.{Expected, value, error, eof_error}
use mcoro.Stream.{
  Stream, BytesBuffer, bytes, size, allocate, stream_buffer_size, overwrite, BorrowedStream,
}

module _ {S : Type 0} where
  abbrev pub allocoutbuf : ℕ → BorrowedStream S → BorrowedStream S
  allocoutbuf n b = elim b.out_buffer [
    | some bs ↦ b
    | none ↦ record b { out_buffer = allocate n; out_index = 0 }
  ]

  unfoldable pub buffull : BorrowedStream S → Bool
  buffull b = b.out_index == size b.out_buffer

  -- The loops that copy `p` to the write index. (They copy nothing where nothing is allocated.)
  abbrev pub append_out : Bytes → BorrowedStream S → BorrowedStream S
  append_out p b = record b {
    out_buffer = Option.map (overwrite b.out_index p) b.out_buffer;
    out_index = b.out_index + length p;
  }

  -- `trywrite`: how many bytes were taken.
  unfoldable pub trywrite : Bytes → BorrowedStream S → ℕ × BorrowedStream S
  trywrite s b =
      let b' = allocoutbuf stream_buffer_size b in
      let n_max = size b'.out_buffer - b'.out_index in
      if leb (length s) n_max
      then (length s, append_out s b')
      else (n_max, append_out (take n_max s) b')

  module _ (device : Stream S) where
    -- The calls of `raw_write` in `flush`: the last result, and the device.
    unfoldable pub write_loop : ℕ → Bytes → S → Option (Expected ℕ × S)
    write_loop zero buf s = none
    write_loop (suc writes) buf s = elim (device.raw_write buf s).0 [
      | error e ↦ some (error e, (device.raw_write buf s).1)
      | value n ↦
          let more = write_loop writes (drop n buf) (device.raw_write buf s).1 in
          if (n == 0) || (n == length buf) then some (value n, (device.raw_write buf s).1) else more
    ]

    -- What `flush` does after the calls of `raw_write`.
    abbrev pub flush_end :
        BorrowedStream S → Expected ℕ × S → Expected (Unit {0}) × BorrowedStream S
    flush_end b (error e, s) = (error e, record b { raw = s })
    flush_end b (value n, s) =
        if n == 0
        then (error eof_error, record b { raw = s })
        else ((device.raw_flush s).0, record b { out_index = 0; raw = (device.raw_flush s).1 })

    abbrev pub flush_result :
        BorrowedStream S → Option (Expected ℕ × S) → Option (Expected (Unit {0}) × BorrowedStream S)
    flush_result b none = none
    flush_result b (some r) = some (flush_end b r)

    unfoldable pub flush : ℕ → BorrowedStream S → Option (Expected (Unit {0}) × BorrowedStream S)
    flush writes b = elim b.out_buffer [
      | none ↦ some (value tt, allocoutbuf stream_buffer_size b)
      | some bs ↦
          if b.out_index == 0
          then some (value tt, b)
          else flush_result b (write_loop writes (take b.out_index bs) b.raw)
    ]

    -- The rest of a task behind `co_await co_await e`.
    abbrev pub after :
        Option (Expected (Unit {0}) × BorrowedStream S)
        → (BorrowedStream S → Option (Expected (Unit {0}) × BorrowedStream S))
        → Option (Expected (Unit {0}) × BorrowedStream S)
    after none next = none
    after (some (error e, b)) next = some (error e, b)
    after (some (value u, b)) next = next b

    unfoldable pub putchar :
        ℕ → ℕ → BorrowedStream S → Option (Expected (Unit {0}) × BorrowedStream S)
    putchar writes c b =
        after (if buffull b then flush writes b else some (value tt, b))
          λ b'. some (value tt, append_out (c ∷ []) b')

    -- `putspan(s)`; `fuel` bounds the jumps to `again`.
    unfoldable pub putspan :
        ℕ → ℕ → Bytes → BorrowedStream S → Option (Expected (Unit {0}) × BorrowedStream S)
    putspan zero writes p b = none
    putspan (suc fuel) writes p b =
        let room = size b.out_buffer - b.out_index in
        let again =
          after (flush writes (append_out (take room p) b))
            λ b'. putspan fuel writes (drop room p) (record b' { out_index = 0 }) in
        if leb (length p) room then some (value tt, append_out p b) else again

    -- `putchunk(s)`
    unfoldable pub putchunk :
        ℕ → ℕ → Bytes → BorrowedStream S → Option (Expected (Unit {0}) × BorrowedStream S)
    putchunk fuel writes s b = after (putspan fuel writes s b) λ b'. flush writes b'

    -- `putline(s)`
    unfoldable pub putline :
        ℕ → ℕ → Bytes → BorrowedStream S → Option (Expected (Unit {0}) × BorrowedStream S)
    putline fuel writes s b =
        after (putspan fuel writes s b)
          λ b'. after (putchar writes b'\n' b') λ b''. flush writes b''

    -- `write(buffer)`: the number of bytes taken.
    unfoldable pub write : ℕ → ℕ → Bytes → BorrowedStream S → Option (Expected ℕ × BorrowedStream S)
    write fuel writes buffer b =
        let n = min (size b.out_buffer - b.out_index) (length buffer) in
        if buffull b
        then some (
          (device.raw_write buffer b.raw).0,
          record b { raw = (device.raw_write buffer b.raw).1 },
        )
        else elim (putspan fuel writes (take n buffer) b) [
          | none ↦ none
          | some (error e, b') ↦ some (error e, b')
          | some (value u, b') ↦ some (value n, b')
        ]

    -- `seek(pos)`: the indices go to 0, and bytes that wait are dropped.
    unfoldable pub seek : ℕ → BorrowedStream S → Expected (Unit {0}) × BorrowedStream S
    seek pos b = elim (device.raw_seek pos b.raw).0 [
      | error e ↦ (error e, record b { raw = (device.raw_seek pos b.raw).1 })
      | value u ↦ (
        value tt,
        record b { raw = (device.raw_seek pos b.raw).1; in_index = 0; in_end = 0; out_index = 0 },
      )
    ]

    unfoldable pub close : BorrowedStream S → BorrowedStream S
    close b = record b { raw = device.raw_close b.raw }

    unfoldable pub timeout : ℕ → BorrowedStream S → BorrowedStream S
    timeout duration b = record b { raw = device.raw_timeout duration b.raw }
