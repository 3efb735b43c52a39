-- ===== src/Stream/Output/Flush.antt =====
-- `flush`, over a device that takes bytes.
use mcoro.Prelude.{
  ℕ, zero, suc, ◌≤◌, ◌<◌, ◌≡◌, refl, ◌⊎◌, inl, inr, Option, none, some, [], ◌++◌, ◌==◌, ◌||◌, arith,
  ap, sym, ◌∙◌, Bool-cases, length, take, drop, append_assoc, append-nil, take-append-drop,
  length-take, length-drop, take-length_le, take-zero_eq, length-replicate, ==_ne, ==_iff,
  if◌then◌else◌,
}
use mcoro.Strings.{Bytes}
use mcoro.Expected.{Expected, value, error}
use mcoro.Stream.{Stream, BytesBuffer, allocate, stream_buffer_size, bytes, size, BorrowedStream}
use mcoro.Stream.Output.{write_loop, flush_end, flush}

-- The write index lies in the buffer, which has room once it is allocated.
pub record IsOpen {S : Type 0} (b : BorrowedStream S) : Type 0 where
  pub index_le : b.out_index ≤ size b.out_buffer
  pub has_room : (b.out_buffer ≡ none) ⊎ (0 < size b.out_buffer)

module _ {S : Type 0} (written : S → Bytes) where
  -- What the outcome of `raw_write` says of the bytes that the device has taken: on success that many
  -- bytes of the span were added, on an error none.
  abbrev pub Accepted : Bytes → S → Expected ℕ × S → Type 0
  Accepted buf s (error e, s') = written s' ≡ written s
  Accepted buf s (value n, s') = (n ≤ length buf) × (written s' ≡ written s ++ take n buf)

  -- The device takes bytes in order, and its `raw_flush` takes none.
  pub record Accepts (device : Stream S) : Type 0 where
    pub writes : (buf : Bytes) (s : S) → Accepted buf s (device.raw_write buf s)
    pub flushes : (s : S) → written (device.raw_flush s).1 ≡ written s

  -- The bytes that wait in the buffer.
  abbrev pub queued : BorrowedStream S → Bytes
  queued b = take b.out_index (bytes b.out_buffer)

  -- What the calls of `raw_write` do with a span. After a number that is not 0 all of it was taken;
  -- otherwise some front part of it was.
  abbrev pub Wrote : Bytes → S → Expected ℕ × S → Type 0
  Wrote buf s (error e, s') =
      (part rest : Bytes) × (buf ≡ part ++ rest) × (written s' ≡ written s ++ part)
  Wrote buf s (value zero, s') =
      (part rest : Bytes) × (buf ≡ part ++ rest) × (written s' ≡ written s ++ part)
  Wrote buf s (value (suc n), s') = written s' ≡ written s ++ buf

  module _ (device : Stream S) (law : Accepts device) where
    split_later :
        (n : ℕ) (buf part rest : Bytes)
        → drop n buf ≡ part ++ rest
        → buf ≡ (take n buf ++ part) ++ rest
    split_later n buf part rest e =
        sym (take-append-drop n buf)
        ∙ ap (λ (t : Bytes). take n buf ++ t) e
        ∙ sym (append_assoc (take n buf) part rest)

    write_later :
        (n : ℕ) (buf part : Bytes) (s s' s'' : S)
        → written s' ≡ written s ++ take n buf
        → written s'' ≡ written s' ++ part
        → written s'' ≡ written s ++ (take n buf ++ part)
    write_later n buf part s s' s'' e f =
        f ∙ ap (λ (t : Bytes). t ++ part) e ∙ append_assoc (written s) (take n buf) part

    later :
        (n : ℕ) (buf : Bytes) (s s' : S) (r : Expected ℕ × S)
        → written s' ≡ written s ++ take n buf
        → Wrote (drop n buf) s' r
        → Wrote buf s r
    later n buf s s' (error e, s'') w (part, rest, split, more) = (
      take n buf ++ part,
      rest,
      split_later n buf part rest split,
      write_later n buf part s s' s'' w more,
    )
    later n buf s s' (value zero, s'') w (part, rest, split, more) = (
      take n buf ++ part,
      rest,
      split_later n buf part rest split,
      write_later n buf part s s' s'' w more,
    )
    later n buf s s' (value (suc k), s'') w more =
        write_later n buf (drop n buf) s s' s'' w more
        ∙ ap (λ (t : Bytes). written s ++ t) (take-append-drop n buf)

    -- What one call of `raw_write` leads to.
    write_round :
        (writes : ℕ) (buf : Bytes) (s : S) (r : Expected ℕ × S)
        → ((buf' : Bytes) (s' : S)
            → length buf' < writes
            → (r : Expected ℕ × S) × (write_loop device writes buf' s' ≡ some r) × Wrote buf' s' r)
        → length buf < suc writes
        → Accepted buf s r
        → (out : Expected ℕ × S) × ◌≡◌ {A = Option (Expected ℕ × S)}
            (elim r.0 [
              | error e ↦ some (error e, r.1)
              | value n ↦
                  let more = write_loop device writes (drop n buf) r.1 in
                  if (n == 0) || (n == length buf) then some (value n, r.1) else more
            ])
            (some out)
          × Wrote buf s out
    write_round writes buf s (error e, s') rec h same =
        ((error e, s'), refl, ([], buf, refl, same ∙ sym (append-nil (written s))))
    write_round writes buf s (value zero, s') rec h (le, w) =
        ((value 0, s'), refl, ([], buf, refl, w))
    write_round writes buf s (value (suc n), s') rec h (le, w) =
        elim (Bool-cases ((suc n == 0) || (suc n == length buf))) [
          | inl all ↦
              let whole : length buf ≤ suc n = ground (arith, all) in
              rw all (
                (value (suc n), s'),
                refl,
                w ∙ ap (λ (t : Bytes). written s ++ t) (take-length_le (suc n) buf whole),
              )
          | inr part ↦
              let (out, runs, wrote) =
                rec (drop (suc n) buf) s' (omega (arith, length-drop (suc n) buf)) in
              rw part (out, runs, later (suc n) buf s s' out w wrote)
        ]

    write_loop-Wrote :
        (writes : ℕ) (buf : Bytes) (s : S)
        → length buf < writes
        → (r : Expected ℕ × S) × (write_loop device writes buf s ≡ some r) × Wrote buf s r
    unfolding write_loop
    write_loop-Wrote zero buf s h = absurd (omega arith)
    write_loop-Wrote (suc writes) buf s h =
        write_round writes buf s (device.raw_write buf s) (write_loop-Wrote writes) h
          (law.writes buf s)

  -- What a call of `flush` does. On success the device has all the bytes that waited, behind those
  -- that it had, and none wait. On an error the device has a front part of them; all of them still
  -- wait, so that a second flush sends that part again, or, if `raw_flush` failed, none do and the
  -- part is all of them.
  abbrev pub Flushed : BorrowedStream S → Expected (Unit {0}) × BorrowedStream S → Type 0
  Flushed b (value u, b') =
      (written b'.raw ≡ written b.raw ++ queued b)
      × (b'.out_index ≡ 0)
      × (0 < size b'.out_buffer)
      × ((size b'.out_buffer ≡ size b.out_buffer) ⊎ (size b'.out_buffer ≡ stream_buffer_size))
  Flushed b (error e, b') =
      (part rest : Bytes) × (queued b ≡ part ++ rest)
      × (written b'.raw ≡ written b.raw ++ part)
      × ((queued b' ≡ queued b) ⊎ ((b'.out_index ≡ 0) × (rest ≡ [])))

  -- After all was written: what `raw_flush` returns.
  device-Flushed :
      (b : BorrowedStream S) (s : S) (r : Expected (Unit {0}) × S)
      → 0 < size b.out_buffer
      → written r.1 ≡ written s
      → written s ≡ written b.raw ++ queued b
      → Flushed b (r.0, record b { out_index = 0; raw = r.1 })
  device-Flushed b s (value u, s') room same w = (same ∙ w, refl, room, inl refl)
  device-Flushed b s (error e, s') room same w =
      (queued b, [], sym (append-nil (queued b)), same ∙ w, inr (refl, refl))

  flush_end-Flushed :
      (device : Stream S)
      → Accepts device
      → (b : BorrowedStream S) (r : Expected ℕ × S) → 0 < size b.out_buffer
      → Wrote (queued b) b.raw r
      → Flushed b (flush_end device b r)
  flush_end-Flushed device law b (error e, s) room (part, rest, split, w) =
      (part, rest, split, w, inl refl)
  flush_end-Flushed device law b (value zero, s) room (part, rest, split, w) =
      (part, rest, split, w, inl refl)
  flush_end-Flushed device law b (value (suc n), s) room w =
      rw (==_ne (suc n) 0 (omega arith))
        (device-Flushed b s (device.raw_flush s) room (law.flushes s) w)

  flush_buffer :
      (device : Stream S)
      → Accepts device
      → (writes : ℕ) (buffer : BytesBuffer) (b : BorrowedStream S)
      → IsOpen (record b { out_buffer = buffer })
      → b.out_index < writes
      → (r : Expected (Unit {0}) × BorrowedStream S) × (flush device writes
            (record b { out_buffer = buffer })
          ≡ some r)
        × Flushed (record b { out_buffer = buffer }) r
  unfolding flush
  flush_buffer device law writes none b open_b h =
      let waits : take b.out_index (bytes none) ≡ [] =
        take-length_le b.out_index [] (omega arith) in
      (
        (value tt, record b { out_buffer = allocate stream_buffer_size; out_index = 0 }),
        refl,
        rw waits (
          sym (append-nil (written b.raw)),
          refl,
          omega (arith, length-replicate {A = ℕ} stream_buffer_size 0),
          inr (length-replicate {A = ℕ} stream_buffer_size 0),
        ),
      )
  flush_buffer device law writes (some bs) b open_b h = elim (Bool-cases (b.out_index == 0)) [
    | inl idle ↦
        let zero_index : b.out_index ≡ 0 = (==_iff b.out_index 0).0 idle in
        (
          (value tt, record b { out_buffer = some bs }),
          rw idle,
          (
            rw (take-zero_eq b.out_index bs zero_index) (sym (append-nil (written b.raw))),
            zero_index,
            ground (arith, open_b.has_room),
            inl refl,
          ),
        )
    | inr waits ↦
        let b' : BorrowedStream S = record b { out_buffer = some bs } in
        let (r, runs, wrote) =
          write_loop-Wrote device law writes (take b.out_index bs) b.raw
            (omega (arith, length-take b.out_index bs)) in
        (
          flush_end device b' r,
          rw (waits, runs),
          flush_end-Flushed device law b' r (ground (arith, open_b.has_room)) wrote,
        )
  ]

  -- `flush()` of a stream whose write index lies in its buffer, over a device that takes bytes in
  -- order, ends with a result when `writes` is more than the write index. On success the device
  -- has all bytes that waited, none waits, and the buffer has its size or, where there was none,
  -- `kStreamBufferSize`. On an error either the device has a front part of the bytes that waited
  -- and all of them still wait, or `raw_flush` failed: the device has all of them, and none
  -- waits.
  pub flush-Flushed :
      (device : Stream S)
      → Accepts device
      → (writes : ℕ) (b : BorrowedStream S) → IsOpen b
      → b.out_index < writes
      → (r : Expected (Unit {0}) × BorrowedStream S) × (flush device writes b ≡ some r)
        × Flushed b r
  flush-Flushed device law writes b open_b h =
      flush_buffer device law writes b.out_buffer b open_b h
