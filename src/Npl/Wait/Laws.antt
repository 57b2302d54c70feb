-- ===== src/Npl/Wait/Laws.antt =====
-- How a wait ends, and that a wait with a deadline ends.
use nimble_rs.Base.{
  ℕ, zero, suc, ◌+◌, ◌*◌, ◌≤◌, ◌<◌, ◌≡◌, ◌⊎◌, refl, subst, ◌∙◌, Bool, true, false, Option, some,
  arith, Bool-cases, inl, inr,
}
use nimble_rs.Npl.Store.{Waker}
use nimble_rs.Npl.Wait.{Env, wait_until, expired}

module _ {S : Type 0} (env : Env S) (deadline : Option ℕ) (ready : S → Bool × S)
    (register : Waker → S → S) where
  -- The states of a wait from its start on in which it may ask `ready`: it goes on only after a refusal.
  pub data Reached (start : S) : S → Type 0 where
    at_start : Reached start start
    registered :
        {s : S}
        → Reached start s
        → (ready s).0 ≡ false
        → Reached start (register env.current_waker (ready s).1)
    pumped :
        {s : S}
        → Reached start s
        → (ready s).0 ≡ false
        → Reached start (env.pump_manual env.current_waker (ready s).1)
    parked :
        {s : S}
        → Reached start s
        → (ready s).0 ≡ false
        → Reached start (env.park deadline (ready s).1)

  -- A wait that ends has just asked `ready`, in a state that it reached. It reports success exactly when
  -- `ready` did, and reports failure only at a deadline that has passed.
  abbrev pub Ended : S → Bool → S → Type 0
  Ended start b s =
      (before : S) × Reached start before
      × (ready before ≡ (b, s))
      × ((b ≡ true) ⊎ (expired deadline (env.now s) ≡ true))

  -- A wait that returns has just asked `ready`, in a state that it reached from its start: it reports
  -- success exactly with the state in which `ready` did, and failure only where `ready` refused at a
  -- deadline that has passed.
  pub wait_until-Ended :
      (start : S) (fuel : ℕ) (s : S) {b : Bool} {t : S}
      → Reached start s
      → wait_until env fuel deadline ready register s ≡ some (b, t)
      → Ended start b t
  unfolding wait_until expired
  wait_until-Ended start zero s r h = cc
  wait_until-Ended start (suc fuel) s r h =
      let s1 = (ready s).1 in
      let s2 = register env.current_waker s1 in
      let s3 = (ready s2).1 in
      let s4 = env.pump_manual env.current_waker s3 in
      let s5 = (ready s4).1 in
      elim (Bool-cases (ready s).0) [
        | inl e ↦ (s, r, ground arith, ground arith)
        | inr e ↦ elim (Bool-cases (expired deadline (env.now s1))) [
          | inl x ↦ (s, r, ground arith, ground arith)
          | inr x ↦
              let r2 : Reached start s2 = registered r e in
              elim (Bool-cases (ready s2).0) [
                | inl e2 ↦ (s2, r2, ground arith, ground arith)
                | inr e2 ↦
                    let r4 : Reached start s4 = pumped r2 e2 in
                    elim (Bool-cases (ready s4).0) [
                      | inl e3 ↦ (s4, r4, ground arith, ground arith)
                      | inr e3 ↦
                          wait_until-Ended start fuel (env.park deadline s5) (parked r4 e3)
                            (ground arith)
                    ]
              ]
        ]
      ]

  -- What a round that does not end leaves.
  abbrev pub round : S → S
  round s =
      let s2 = register env.current_waker (ready s).1 in
      let pumped = env.pump_manual env.current_waker (ready s2).1 in
      env.park deadline (ready pumped).1

  abbrev pub rounds : ℕ → S → S
  rounds zero s = s
  rounds (suc n) s = rounds n (round s)

  -- The wait has ended.
  abbrev pub Returns : ℕ → S → Type 0
  Returns fuel s =
      (b : Bool) × (t : S) × (wait_until env fuel deadline ready register s ≡ some (b, t))

  one_round :
      (fuel : ℕ) (s : S)
      → Returns (suc fuel) s
        ⊎ (wait_until env (suc fuel) deadline ready register s
            ≡ wait_until env fuel deadline ready register (round s))
  unfolding wait_until
  one_round fuel s =
      let s1 = (ready s).1 in
      let s2 = register env.current_waker s1 in
      let s3 = (ready s2).1 in
      let pumped = env.pump_manual env.current_waker s3 in
      elim (Bool-cases (ready s).0) [
        | inl e ↦ inl (true, s1, rw e refl)
        | inr e ↦ elim (Bool-cases (expired deadline (env.now s1))) [
          | inl x ↦ inl (false, s1, rw (e, x) refl)
          | inr x ↦ elim (Bool-cases (ready s2).0) [
            | inl e2 ↦ inl (true, s3, rw (e, x, e2) refl)
            | inr e2 ↦ elim (Bool-cases (ready pumped).0) [
              | inl e3 ↦ inl (true, (ready pumped).1, rw (e, x, e2, e3) refl)
              | inr e3 ↦ inr (rw (e, x, e2, e3) refl)
            ]
          ]
        ]
      ]

  with_fuel : (m n : ℕ) (s : S) → m ≡ n → Returns m s → Returns n s
  with_fuel m n s e r = subst (λ k. Returns k s) e r

  many_rounds : (n fuel : ℕ) (s : S) → Returns fuel (rounds n s) → Returns (n + fuel) s
  many_rounds zero fuel s r = with_fuel fuel (0 + fuel) s (omega arith) r
  many_rounds (suc n) fuel s r =
      with_fuel (suc (n + fuel)) (suc n + fuel) s (omega arith) (elim (one_round (n + fuel) s) [
        | inl ended ↦ ended
        | inr on ↦ let (b, t, e) = many_rounds n fuel (round s) r in (b, t, on ∙ e)
      ])

  at_deadline :
      (d fuel : ℕ) (s : S) → deadline ≡ some d → d ≤ env.now (ready s).1 → Returns (suc fuel) s
  unfolding wait_until expired
  at_deadline d fuel s is late =
      let over : expired deadline (env.now (ready s).1) ≡ true = ground arith in
      elim (Bool-cases (ready s).0) [
        | inl e ↦ (true, (ready s).1, rw e refl)
        | inr e ↦ (false, (ready s).1, rw (e, over) refl)
      ]

  -- A wait with a deadline returns, whatever the parker does, if it only takes part in time that
  -- passes: asking `ready` does not turn the clock back, and any `slack` rounds take a millisecond or more.
  -- A parker may then return early, even at once. As many times `slack` rounds as there are milliseconds
  -- left, and one more, are enough.
  pub wait_until_ends :
      (d slack : ℕ)
      → deadline ≡ some d
      → ((s : S) → env.now s ≤ env.now (ready s).1)
      → ((s : S) → env.now s < env.now (rounds slack s))
      → (left fuel : ℕ) (s : S) → d ≤ env.now s + left
      → Returns (left * slack + suc fuel) s
  wait_until_ends d slack is asks passes zero fuel s h =
      with_fuel (suc fuel) (0 * slack + suc fuel) s (omega arith)
        (at_deadline d fuel s is (omega (arith, asks s)))
  wait_until_ends d slack is asks passes (suc left) fuel s h =
      with_fuel (slack + (left * slack + suc fuel)) (suc left * slack + suc fuel) s (omega arith) (
        many_rounds slack (left * slack + suc fuel) s (
          wait_until_ends d slack is asks passes left fuel (rounds slack s)
            (omega (arith, passes s))))
