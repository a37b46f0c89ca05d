-- ===== src/Scheduler/Timing/Intervals.antt =====
-- The times of a schedule that repeats, crates/duragent/src/scheduler/service.rs, and the delays of
-- crates/duragent/src/scheduler/schedule_eval.rs.
use agnx.Common.{
  ap, ◌∙◌, sym, subst, ◌%◌, ok, some, none, refl, arith, ◌≤◌, ◌<◌, ◌/◌, ◌*◌, max, ◌+◌, ◌≡◌, ℕ,
  Option, ◌-◌,
}
use Prim.Native.Nat.{◌^◌, min}
use native.Mathlib.Nat.{
  mod-eq_of_lt, pow-le-pow_right, mul-le-mul_left, div-mul-le_self, lt-div-mul-add,
}
use agnx.Scheduler.{RetryConfig, every}
use agnx.Scheduler.Timing.{
  TimeLibrary, as_i64, seconds_to_next, pos, validate_timing, calculate_next_run, capped_delay,
  next_aligned,
}

-- With `x` the time of the whole intervals that have passed.
after_whole :
    (x interval base after : ℕ)
    → x ≤ (after - base) / 1000
    → (after - base) / 1000 < x + interval
    → (after < base + (x + interval) * 1000)
      × (base + (x + interval) * 1000 ≤ max after base + interval * 1000)
after_whole x interval base after h k = (omega arith, omega arith)

-- The time that a caller asks about, and the one that the intervals are counted from.
abbrev pub or_time : ℕ → Option ℕ → ℕ
or_time t none = t
or_time t (some u) = u

as_i64-small : (n : ℕ) → n < 2 ^ 63 → as_i64 n ≡ pos n
unfolding as_i64
as_i64-small n h = let m : n % 2 ^ 64 ≡ n = mod-eq_of_lt (omega (arith, h)) in ground (arith, m, h)

-- What the documentation of the library says: a sum of a time and a number of seconds is exact up to the
-- last time, and the milliseconds of a time are an `i64`.
pub record IsExact (time : TimeLibrary) (max_time : ℕ) : Type 0 where
  pub max_time-lt : max_time < 2 ^ 63
  pub adds :
      (base s : ℕ) → base + s * 1000 ≤ max_time → time.plus_seconds base (pos s) ≡ base + s * 1000

module _ (time : TimeLibrary) (max_time : ℕ) (exact : IsExact time max_time) where
  next_aligned-bounds :
      (interval base after : ℕ)
      → 0 < interval
      → max after base + interval * 1000 ≤ max_time
      → (n : ℕ) × (next_aligned time interval base after ≡ base + (n + 1) * interval * 1000)
        × (after < next_aligned time interval base after)
        × (next_aligned time interval base after ≤ max after base + interval * 1000)
  unfolding next_aligned seconds_to_next
  next_aligned-bounds interval base after h fits =
      let q = (after - base) / 1000 / interval in
      let (l, u) =
        after_whole (q * interval) interval base after (div-mul-le_self _ interval)
          (lt-div-mul-add h) in
      let e : (q + 1) * interval ≡ q * interval + interval = ground arith in
      let small : interval < 2 ^ 63 = omega (arith, fits, exact.max_time-lt) in
      let l' : after < base + (q + 1) * interval * 1000 = rw e l in
      let u' : base + (q + 1) * interval * 1000 ≤ max after base + interval * 1000 = rw e u in
      let total : (q + 1) * interval < 2 ^ 63 = omega (arith, u', fits, exact.max_time-lt) in
      let elapsed = (after - base) / 1000 in
      let sec : seconds_to_next elapsed (as_i64 interval) ≡ pos ((q + 1) * interval) =
        ap (seconds_to_next elapsed) (as_i64-small interval small)
        ∙ as_i64-small ((q + 1) * interval) total in
      let same : next_aligned time interval base after ≡ base + (q + 1) * interval * 1000 =
        ap (time.plus_seconds base) sec
        ∙ exact.adds base ((q + 1) * interval) (omega (arith, u', fits)) in
      (
        q,
        same,
        subst (λ t. after < t) (sym same) l',
        subst (λ t. t ≤ max after base + interval * 1000) (sym same) u',
      )

  interval-pos :
      (now every_seconds : ℕ) (anchor : Option ℕ)
      → validate_timing time now (every every_seconds anchor) ≡ ok tt
      → 0 < every_seconds
  unfolding validate_timing
  interval-pos now every_seconds anchor h = ground (arith, h)

  -- If the library's sums are exact up to a last time that fits into 63 bits, then a valid schedule with
  -- an interval has a next run, unless the later of the time asked about and the anchor, with one interval
  -- added, is past the last time. The next run is a whole number of intervals, at least one, after the
  -- anchor, or after the time asked about if there is no anchor, it is later than the time asked about,
  -- and it is at most one interval later than the later of the two.
  pub calculate_next_run-later :
      (now every_seconds : ℕ) (anchor after : Option ℕ)
      → validate_timing time now (every every_seconds anchor) ≡ ok tt
      → max (or_time now after) (or_time (or_time now after) anchor) + every_seconds * 1000
        ≤ max_time
      → (t : ℕ) × (n : ℕ) × (calculate_next_run time now (every every_seconds anchor) after
          ≡ some t)
        × (t ≡ or_time (or_time now after) anchor + (n + 1) * every_seconds * 1000)
        × (or_time now after < t)
        × (t ≤ max (or_time now after) (or_time (or_time now after) anchor) + every_seconds * 1000)
  unfolding calculate_next_run
  calculate_next_run-later now s anchor after v fits =
      let from = or_time now after in
      let (n, e, l, u) =
        next_aligned-bounds s (or_time from anchor) from (interval-pos now s anchor v) fits in
      (_, n, refl, e, l, u)

-- With more attempts made the delay before the next one does not get shorter, and it is at most the
-- highest delay of the configuration.
pub capped_delay-bounds :
    (retry : RetryConfig) (a b : ℕ)
    → a ≤ b
    → (capped_delay retry a ≤ capped_delay retry b) × (capped_delay retry b ≤ retry.max_delay_ms)
unfolding capped_delay
capped_delay-bounds retry a b h =
    let p : 2 ^ min a 10 ≤ 2 ^ min b 10 = pow-le-pow_right (omega arith) (omega arith) in
    let m : retry.initial_delay_ms * 2 ^ min a 10 ≤ retry.initial_delay_ms * 2 ^ min b 10 =
      mul-le-mul_left retry.initial_delay_ms p in
    (omega arith, omega arith)
