-- ===== src/Npl/Parker.antt =====
-- The parkers of nimble-rs/src/npl/parker.rs and the slot of the active one. What the operating system
-- does to sleep and to wake is a parameter, over a state.
use nimble_rs.Base.{ℕ, ◌-◌, Option, none, some, if◌then◌else◌, ltb}
use nimble_rs.Npl.Store.{Waker}
use nimble_rs.Npl.Wait.{Env}

-- `Parker`, as the calling context sees it.
pub record Parker (S : Type 0) : Type 0 where
  pub ctx_id : ℕ
  pub waker : Waker
  pub park : Option ℕ → S → S

-- `SpinParker`, with the waker that does nothing.
unfoldable pub spin_parker : {S : Type 0} → Waker → Parker S
spin_parker noop_waker = record { ctx_id = 1; waker = noop_waker; park = λ deadline s. s }

-- `WfeParker`, with the waker that executes `SEV`, and what `WFE` does.
unfoldable pub wfe_parker : {S : Type 0} → Waker → (S → S) → Parker S
wfe_parker sev wfe = record { ctx_id = 1; waker = sev; park = λ deadline s. wfe s }

-- What the standard library does for a thread: `thread::park` and `thread::park_timeout`.
pub record Threads (S : Type 0) : Type 0 where
  pub now : S → ℕ
  pub park : S → S
  pub park_timeout : ℕ → S → S

-- `park` of `StdParker`
unfoldable pub std_park : {S : Type 0} → Threads S → Option ℕ → S → S
std_park os none s = os.park s
std_park os (some deadline) s =
    if ltb (os.now s) deadline then os.park_timeout (deadline - os.now s) s else s

-- `StdParker`, for a thread by its address and its waker.
unfoldable pub std_parker : {S : Type 0} → Threads S → ℕ → Waker → Parker S
std_parker os ctx waker = record { ctx_id = ctx; waker = waker; park = std_park os }

-- `ACTIVE`
unfoldable pub set_active : {S : Type 0} → Option (Parker S) → Option (Parker S) → Option (Parker S)
set_active parker slot = parker

-- `active`
unfoldable pub active : {S : Type 0} → Parker S → Option (Parker S) → Parker S
active default_parker none = default_parker
active default_parker (some parker) = parker

-- What a wait is given: `current_waker` and `park` of the active parker.
unfoldable pub env : {S : Type 0} → (S → ℕ) → (Waker → S → S) → Parker S → Env S
env now pump_manual parker = record {
  now = now;
  current_waker = parker.waker;
  pump_manual = pump_manual;
  park = parker.park;
}
