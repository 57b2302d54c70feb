-- ===== src/Npl/Time/Laws.antt =====
-- How much time a callout has left, by the truncated clock.
use nimble_rs.Base.{ℕ, ◌+◌, ◌-◌, ◌/◌, ◌^◌, ◌<◌, ◌≡◌, arith}
use nimble_rs.Npl.Store.{Ptr, Store}
use nimble_rs.Npl.Timers.{callout_remaining_ticks}
use nimble_rs.Npl.Time.{time_get}

-- While the clock and the deadline stand between the same two wraps of a 32-bit millisecond
-- counter, the ticks left are the milliseconds up to the deadline, and none once it has passed.
pub callout_remaining_ticks_exact :
    (co : Ptr) (now : ℕ) (s : Store)
    → now / 2 ^ 32 ≡ (s.callout co).deadline / 2 ^ 32
    → callout_remaining_ticks co (time_get now) s ≡ (s.callout co).deadline - now
unfolding callout_remaining_ticks time_get
callout_remaining_ticks_exact co now s h = omega arith

-- A callout armed for less than one turn of the counter, whose deadline lies behind the next wrap,
-- is reported as having no time left until the wrap, although it has.
pub callout_remaining_ticks_wrapped :
    (co : Ptr) (now : ℕ) (s : Store)
    → (s.callout co).deadline / 2 ^ 32 ≡ now / 2 ^ 32 + 1
    → (s.callout co).deadline < now + 2 ^ 32
    → (callout_remaining_ticks co (time_get now) s ≡ 0) × (now < (s.callout co).deadline)
unfolding callout_remaining_ticks time_get
callout_remaining_ticks_wrapped co now s h k = omega arith
