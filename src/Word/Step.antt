-- ===== src/Word/Step.antt =====
-- The lowest binary digit of a bit operation. The native operations run `digits` on fuel; a word
-- is fuel enough for itself, so each operation splits into its lowest digit and the rest.
use Prim.Native.Nat.{digits, bitwise, differ, bit_and-bitwise, bit_or-bitwise, bit_xor-bitwise}
use pmalloc.Prelude.{
  ℕ, zero, suc, ◌+◌, ◌-◌, ◌*◌, ◌/◌, ◌%◌, ◌≤◌, ◌<◌, min, max, bit_and, bit_or, bit_xor, ◌≡◌, refl,
  ◌∙◌, arith,
}

-- `rest` is what the operation gives on a first word of 0, `op` what it does to two digits.
module _ (rest : ℕ → ℕ) (op : ℕ → ℕ → ℕ) where
  one_more : (fuel w v : ℕ) → w ≤ fuel → digits rest op (suc fuel) w v ≡ digits rest op fuel w v
  one_more zero zero v enough = refl
  one_more zero (suc w) v enough = absurd (omega arith)
  one_more (suc fuel) zero v enough = refl
  one_more (suc fuel) (suc w) v enough = rw (one_more fuel (suc w / 2) (v / 2) (omega arith))

  spare :
      (extra fuel total w v : ℕ)
      → total ≡ extra + fuel
      → w ≤ fuel
      → digits rest op total w v ≡ digits rest op fuel w v
  spare zero fuel total w v e enough = let same : total ≡ fuel = omega arith in rw same refl
  spare (suc extra) fuel zero w v e enough = absurd (omega arith)
  spare (suc extra) fuel (suc total) w v e enough =
      one_more total w v (omega arith) ∙ spare extra fuel total w v (omega arith) enough

  lowest_digit :
      (w v : ℕ)
      → ((u : ℕ) → rest u ≡ op 0 (u % 2) + 2 * rest (u / 2))
      → bitwise rest op w v ≡ op (w % 2) (v % 2) + 2 * bitwise rest op (w / 2) (v / 2)
  lowest_digit zero v on_zero = on_zero v
  lowest_digit (suc w) v on_zero =
      omega
        (arith, spare (w - suc w / 2) (suc w / 2) w (suc w / 2) (v / 2) (omega arith) (omega arith))

pub or_digit : (w v : ℕ) → bit_or w v ≡ max (w % 2) (v % 2) + 2 * bit_or (w / 2) (v / 2)
or_digit w v = simp bit_or-bitwise (lowest_digit (λ u. u) max w v (λ u. omega arith))

pub and_digit : (w v : ℕ) → bit_and w v ≡ min (w % 2) (v % 2) + 2 * bit_and (w / 2) (v / 2)
and_digit w v = simp bit_and-bitwise (lowest_digit (λ u. 0) min w v (λ u. omega arith))

-- `differ` on two digits is their sum without the carry.
differ-digits : (x y : ℕ) → x < 2 → y < 2 → differ x y ≡ (x + y) % 2
differ-digits zero y h k = omega arith
differ-digits (suc zero) zero h k = refl
differ-digits (suc zero) (suc zero) h k = refl
differ-digits (suc zero) (suc (suc y)) h k = absurd (omega arith)
differ-digits (suc (suc x)) y h k = absurd (omega arith)

pub xor_digit : (w v : ℕ) → bit_xor w v ≡ (w % 2 + v % 2) % 2 + 2 * bit_xor (w / 2) (v / 2)
xor_digit w v =
    let raw : bit_xor w v ≡ differ (w % 2) (v % 2) + 2 * bit_xor (w / 2) (v / 2) =
      simp bit_xor-bitwise
        (lowest_digit (λ u. u) differ w v (λ u. omega (arith, differ-digits 0 (u % 2)))) in
    omega (arith, raw, differ-digits (w % 2) (v % 2) (omega arith) (omega arith))
