-- ===== src/Delivery/Delays.antt =====
-- Proofs about `backoff` of src/delivery/retry.rs.
use lariska.Prelude.{
  ℕ, ◌*◌, ◌^◌, ◌≤◌, ◌≡◌, none, zero, suc, min, max, arith, leb, Bool-cases, inl, inr, true,
}
use lariska.Delivery.Retry.{max_backoff_exponent, max_delay, backoff}

power-positive : (n : ℕ) → 1 ≤ 2 ^ n
power-positive zero = omega arith
power-positive (suc n) = omega (arith, power-positive n)

power_large : (n : ℕ) → leb 16 n ≡ true → 65536 ≤ 2 ^ n
power_large zero h = absurd (ground (arith, h))
power_large (suc n) h = elim (Bool-cases (leb 16 n)) [
  | inl more ↦ omega (arith, power_large n more)
  | inr last ↦ let first : n ≡ 15 = ground (arith, h, last) in rw first (omega arith)
]

-- The cap of the exponent never shows: at 16 doublings the delay is over five minutes.
max_delay_lem : (attempt : ℕ) → max (max_delay attempt) 1 ≡ min (2000 * 2 ^ attempt) 300000
max_delay_lem attempt = elim (Bool-cases (leb attempt 16)) [
  | inl few ↦
      let same : min attempt max_backoff_exponent ≡ attempt = ground (arith, few) in
      rw same (omega (arith, power-positive attempt))
  | inr many ↦
      let same : min attempt max_backoff_exponent ≡ 16 = ground (arith, many) in
      let large = power_large attempt (ground (arith, many)) in rw same (omega (arith, large))
]

-- If the random generator keeps to its range, a delay that the server does not set is at most two
-- seconds doubled for each attempt, and at most five minutes, whatever the attempt; and where the
-- generator returns the end of its range, it is the smaller of these two.
pub backoff-max_delay :
    (jitter : ℕ → ℕ) (attempt : ℕ)
    → ((n : ℕ) → jitter n ≤ n)
    → (backoff jitter attempt none ≤ min (2000 * 2 ^ attempt) 300000)
      × (backoff (λ n. n) attempt none ≡ min (2000 * 2 ^ attempt) 300000)
unfolding backoff
backoff-max_delay jitter attempt range =
    let top = max_delay_lem attempt in (omega (arith, top, range (max (max_delay attempt) 1)), top)
