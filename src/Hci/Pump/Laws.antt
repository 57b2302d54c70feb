-- ===== src/Hci/Pump/Laws.antt =====
-- The pump is polled by one caller at a time, also where its own poll calls `pump_manual`.
use nimble_rs.Base.{
  ℕ, zero, suc, ◌-◌, ◌≤◌, ◌≡◌, refl, ap, sym, subst, ◌∙◌, Bool, true, false, some, List, [], ◌∷◌,
  arith, if◌then◌else◌, leb, Option-cases, inl, inr,
}
use nimble_rs.Npl.Store.{Waker}
use nimble_rs.Hci.Pump.{PumpSlot, claim, pump_manual}

-- The pump that is registered and at rest is polled with the slot taken, which is freed after.
pub pump_manual-registered :
    {W : Type 0} (poll : ℕ → Waker → PumpSlot × W → PumpSlot × W) (fut : ℕ) (waker : Waker) (w : W)
    → pump_manual poll waker (record { fut = some fut; busy = false }, w) ≡ (
      true,
      (
        record {
          fut = (poll fut waker (record { fut = some fut; busy = true }, w)).0.fut;
          busy = false;
        },
        (poll fut waker (record { fut = some fut; busy = true }, w)).1,
      ),
    )
unfolding pump_manual claim
pump_manual-registered poll fut waker w = refl

-- A poll that notes how many polls are running, and the most that ever were.
pub record Polls : Type 0 where
  pub running : ℕ
  pub most : ℕ

abbrev State : Type 0
State = PumpSlot × Polls

abbrev enter : State → State
enter (slot, p) = (
  slot,
  record {
    running = suc p.running;
    most = if leb p.most (suc p.running) then suc p.running else p.most;
  },
)

abbrev leave : State → State
leave (slot, p) = (slot, record { running = p.running - 1; most = p.most })

-- Calls of `pump_manual` in a row.
pub call_all : (Waker → State → Bool × State) → List Waker → State → State
call_all pump [] s = s
call_all pump (w ∷ ws) s = call_all pump ws (pump w s).1

-- A poll whose body calls `pump_manual` with each of the wakers, to a depth of nesting.
pub nested_poll : ℕ → List Waker → ℕ → Waker → State → State
nested_poll zero ws fut waker s = leave (enter s)
nested_poll (suc depth) ws fut waker s =
    let inside = call_all (pump_manual (nested_poll depth ws)) ws (enter s) in leave inside

busy_refused :
    (poll : ℕ → Waker → State → State) (w : Waker) (s : State)
    → s.0.busy ≡ true
    → pump_manual poll w s ≡ (false, s)
unfolding pump_manual claim
busy_refused poll w s h = rw h refl

all_refused :
    (poll : ℕ → Waker → State → State) (ws : List Waker) (s : State)
    → s.0.busy ≡ true
    → call_all (pump_manual poll) ws s ≡ s
unfolding call_all
all_refused poll [] s h = refl
all_refused poll (w ∷ ws) s h =
    ap (λ r. call_all (pump_manual poll) ws r.1) (busy_refused poll w s h) ∙ all_refused poll ws s h

poll_busy :
    (depth : ℕ) (ws : List Waker) (fut : ℕ) (w : Waker) (s : State)
    → s.0.busy ≡ true
    → nested_poll depth ws fut w s ≡ leave (enter s)
unfolding nested_poll
poll_busy zero ws fut w s h = refl
poll_busy (suc depth) ws fut w s h = ap leave (all_refused (nested_poll depth ws) ws (enter s) h)

-- No poll is running, the slot is free, and never did two run at once.
abbrev pub IsIdle : State → Type 0
IsIdle s = (s.0.busy ≡ false) × (s.1.running ≡ 0) × (s.1.most ≤ 1)

abbrev freed : State → State
freed (slot, p) = (record { fut = slot.fut; busy = false }, p)

taken :
    (poll : ℕ → Waker → State → State) (w : Waker) (s : State) (fut : ℕ)
    → s.0.busy ≡ false
    → s.0.fut ≡ some fut
    → pump_manual poll w s
      ≡ (true, freed (poll fut w (record { fut = some fut; busy = true }, s.1)))
unfolding pump_manual claim
taken poll w s fut free e =
    let slot : s.0 ≡ record { fut = some fut; busy = false } =
      λ i. record { fut = e i; busy = free i } in
    ap (λ t. pump_manual poll w (t, s.1)) slot

one_call :
    (depth : ℕ) (ws : List Waker) (w : Waker) (s : State)
    → IsIdle s
    → IsIdle (pump_manual (nested_poll depth ws) w s).1
unfolding pump_manual claim
one_call depth ws w s (free, still, most) = elim (Option-cases s.0.fut) [
  | inl e ↦ rw (free, e) (free, still, most)
  | inr (fut, e) ↦
      let once : (pump_manual (nested_poll depth ws) w s).1
          ≡ freed (leave (enter (record { fut = some fut; busy = true }, s.1))) =
        ap (λ r. r.1) (taken (nested_poll depth ws) w s fut free e)
        ∙ ap freed (poll_busy depth ws fut w (record { fut = some fut; busy = true }, s.1) refl) in
      subst IsIdle (sym once) (refl, ground arith, ground arith)
]

-- From an idle slot, calls of `pump_manual` from any contexts, with a pump whose body itself calls
-- `pump_manual` any number of times and to any depth, never poll the pump inside its own poll, and
-- leave the slot idle again.
pub pump_manual-exclusive :
    (depth : ℕ) (ws calls : List Waker) (s : State)
    → IsIdle s
    → IsIdle (call_all (pump_manual (nested_poll depth ws)) calls s)
unfolding call_all
pump_manual-exclusive depth ws [] s h = h
pump_manual-exclusive depth ws (w ∷ calls) s h =
    pump_manual-exclusive depth ws calls _ (one_call depth ws w s h)
