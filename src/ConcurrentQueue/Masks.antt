-- ===== src/ConcurrentQueue/Masks.antt =====
-- The arithmetic forms of `ConcurrentQueue` agree with the masks, shifts and `|` of the source: for
-- the capacities 8 to 15, whose stamps are bytes, at every stamp.
use Prim.Native.Nat.{bit_and, bit_or}
use mcoro.Prelude.{ℕ, zero, suc, ◌+◌, ◌*◌, ◌/◌, ◌%◌, ◌<◌, ◌≡◌, refl, Bool, true, ◌&&◌, arith, ◌==◌}
use mcoro.ConcurrentQueue.{bit_width, stamp_bits, shift, size, modulus, advect_read, advect_write}

-- `(Stamp)((((Stamp)(s >> 4) + 1) & 15) << 4) | (s & 15)`
masked_read : ℕ → ℕ
masked_read s = bit_or (bit_and (s / 16 + 1) 15 * 16 % 256) (bit_and s 15)

-- `(((s & 15) + 1) & 15) | (Stamp)(s & (15 << 4))`
masked_write : ℕ → ℕ
masked_write s = bit_or (bit_and (bit_and s 15 + 1) 15) (bit_and s 240)

-- Two functions agree below a number.
agree : (f g : ℕ → ℕ) → ℕ → Bool
agree f g zero = true
agree f g (suc bound) = (f bound == g bound) && agree f g bound

agree-eq : (f g : ℕ → ℕ) (bound s : ℕ) → s < bound → agree f g bound ≡ true → f s ≡ g s
unfolding agree
agree-eq f g zero s lt table = absurd (omega arith)
agree-eq f g (suc bound) s lt table = ground (arith, agree-eq f g bound s)

reads_agree : agree (advect_read 8) masked_read 256 ≡ true
unfolding agree advect_read masked_read size shift modulus bit_width stamp_bits
reads_agree = refl

writes_agree : agree (advect_write 8) masked_write 256 ≡ true
unfolding agree advect_write masked_write size shift modulus bit_width stamp_bits
writes_agree = refl

advect-masked :
    (s : ℕ) → s < 256 → (advect_read 8 s ≡ masked_read s) × (advect_write 8 s ≡ masked_write s)
advect-masked s h = (
  agree-eq (advect_read 8) masked_read 256 s h reads_agree,
  agree-eq (advect_write 8) masked_write 256 s h writes_agree,
)
