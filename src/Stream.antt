-- ===== src/Stream.antt =====
-- co_async/iostream/stream_base.hpp and bytes_buffer.hpp: a `BorrowedStream` over a `Stream`. The
-- coroutines run to their end: a `co_await` of a task is a call, and one of an `Expected` returns its
-- error. The virtual methods of `Stream` are the fields of a record over the state `S` of the device.
pub mod Input
pub mod Output
pub mod Delimited
use mcoro.Prelude.{
  ℕ, ◌+◌, ◌-◌, ◌≤◌, ◌<◌, ◌≡◌, Option, none, some, List, [], ◌∷◌, ◌++◌, length, take, drop,
  replicate,
}
use mcoro.Strings.{Bytes}
use mcoro.Expected.{Expected, value, error, errc}

-- The outcome of `raw_read` is the bytes that it put into the span; their number is its result.
pub record Stream (S : Type 0) : Type 0 where
  pub raw_timeout : ℕ → S → S
  pub raw_seek : ℕ → S → Expected (Unit {0}) × S
  pub raw_flush : S → Expected (Unit {0}) × S
  pub raw_close : S → S
  pub raw_read : ℕ → S → Expected Bytes × S
  pub raw_write : Bytes → S → Expected ℕ × S

-- The methods of the base class: `invalid_seek` is 29, `not_supported` is 95.
abbrev pub base_stream : {S : Type 0} → Stream S
base_stream = record {
  raw_timeout = λ timeout s. s;
  raw_seek = λ pos s. (error (errc 29), s);
  raw_flush = λ s. (value tt, s);
  raw_close = λ s. s;
  raw_read = λ n s. (error (errc 95), s);
  raw_write = λ buffer s. (error (errc 95), s);
}

-- A `BytesBuffer`: no memory, or the bytes of what `allocate` returned.
abbrev pub BytesBuffer : Type 0
BytesBuffer = Option Bytes

abbrev pub bytes : BytesBuffer → Bytes
bytes none = []
bytes (some bs) = bs

-- `size()`
abbrev pub size : BytesBuffer → ℕ
size buffer = length (bytes buffer)

-- `allocate(size)`; what the memory holds is not specified, and it is never read.
abbrev pub allocate : ℕ → BytesBuffer
allocate n = some (replicate n 0)

-- `kStreamBufferSize`
abbrev pub stream_buffer_size : ℕ
stream_buffer_size = 8192

-- Copies `chunk` into a memory, from index `i` on.
abbrev pub overwrite : ℕ → Bytes → Bytes → Bytes
overwrite i chunk bs = take i bs ++ (chunk ++ drop (i + length chunk) bs)

pub record BorrowedStream (S : Type 0) : Type 0 where
  pub in_buffer : BytesBuffer
  pub in_index : ℕ
  pub in_end : ℕ
  pub out_buffer : BytesBuffer
  pub out_index : ℕ
  pub raw : S

-- The constructor over a stream.
abbrev pub borrowed_stream : {S : Type 0} → S → BorrowedStream S
borrowed_stream s = record {
  in_buffer = none;
  in_index = 0;
  in_end = 0;
  out_buffer = none;
  out_index = 0;
  raw = s;
}
