-- ===== src/Fp16.antt =====
-- crates/mach-model/src/fp16.rs on bit patterns: a float is its bits, a shift is a power of two, a mask
-- a remainder, and `|` of fields that share no bit is a sum.
pub mod Value
pub mod Exact
pub mod Round
pub mod Back
use Prim.Native.Nat.{ℕ, zero, suc, ◌+◌, ◌-◌, ◌*◌, ◌/◌, ◌%◌, ◌^◌}
use machserve.Common.{Bool, true, false, ◌&&◌, ◌||◌, ltb, leb, ◌==◌, if◌then◌else◌}

-- Whether the part shifted out rounds up: above half, or half with an odd result.
abbrev pub rounds_up : ℕ → ℕ → ℕ → Bool
rounds_up rem half kept = ltb half rem || ((rem == half) && (kept % 2 == 1))

unfoldable pub f32_to_bf16 : ℕ → ℕ
f32_to_bf16 b = let h = b / 65536 in if rounds_up (b % 65536) 32768 h then (h + 1) % 65536 else h

unfoldable pub bf16_to_f32 : ℕ → ℕ
bf16_to_f32 h = h * 65536

abbrev pub one_if : Bool → ℕ
one_if b = if b then 1 else 0

-- The part of `f32_to_f16` for a small exponent: zero or subnormal. The code's `e` is `exp - 112`.
unfoldable pub subnormal_f16 : ℕ → ℕ → ℕ → ℕ
subnormal_f16 sign exp mant =
    if ltb exp 102
    then sign
    else (let m = mant + 8388608 in
        let shift = 126 - exp in
        let m16 = m / 2 ^ shift in
        sign + (m16 + one_if (rounds_up (m % 2 ^ shift) (2 ^ (shift - 1)) m16)))

-- The part for a normal result; a mantissa that overflows carries into the exponent.
unfoldable pub normal_f16 : ℕ → ℕ → ℕ → ℕ
normal_f16 sign e mant =
    let kept = mant / 8192 in
    let m16 = kept + one_if (rounds_up (mant % 8192) 4096 kept) in
    if m16 == 1024
    then (if leb 31 (e + 1) then sign + 31744 else sign + (e + 1) * 1024)
    else sign + e * 1024 + m16

unfoldable pub f32_to_f16 : ℕ → ℕ
f32_to_f16 b =
    let sign = b / 2147483648 % 2 * 32768 in
    let exp = b / 8388608 % 256 in
    let mant = b % 8388608 in
    if exp == 255
    then sign + 31744 + (if mant == 0 then 0 else 512)
    else (if leb 143 exp
        then sign + 31744
        else (if leb exp 112
            then subnormal_f16 sign exp mant
            else normal_f16 sign (exp - 112) mant))

-- The loop that shifts the mantissa until its bit 10 is set, at most `fuel` times.
unfoldable pub normalize : ℕ → ℕ → ℕ → ℕ × ℕ
normalize zero m e = (m, e)
normalize (suc fuel) m e =
    let rest = normalize fuel (m * 2) (e - 1) in if m / 1024 % 2 == 0 then rest else (m, e)

unfoldable pub f16_to_f32 : ℕ → ℕ
f16_to_f32 h =
    let sign = h / 32768 % 2 * 2147483648 in
    let e = h / 1024 % 32 in
    let m = h % 1024 in
    if e == 0
    then (if m == 0
        then sign
        else (let (m2, e2) = normalize 10 m 113 in sign + e2 * 8388608 + m2 % 1024 * 8192))
    else (if e == 31 then sign + 2139095040 + m * 8192 else sign + (e + 112) * 8388608 + m * 8192)
