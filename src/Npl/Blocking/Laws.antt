-- ===== src/Npl/Blocking/Laws.antt =====
-- How long a delay lasts, and what a get hands out.
use nimble_rs.Base.{
  ℕ, suc, ◌+◌, ◌*◌, ◌≤◌, ◌<◌, ◌≡◌, ◌≢◌, ap, sym, subst, Bool, false, Option, some, List, ◌∷◌, arith,
  ◌==◌, Option-cases, inl, inr,
}
use nimble_rs.Npl.Store.{Ptr, null, Store}
use nimble_rs.Npl.Eventq.{eventq_try_pop}
use nimble_rs.Npl.Eventq.Defs.{IsQueue}
use nimble_rs.Npl.Eventq.Fifo.{eventq_try_pop-cons}
use nimble_rs.Npl.Wait.{Env, wait_until, deadline, expired, forever}
use nimble_rs.Npl.Wait.Laws.{wait_until-Ended, wait_until_ends, Ended, at_start, rounds}
use nimble_rs.Npl.Blocking.{pop_in, waited, eventq_get, time_delay}

module _ {S : Type 0} (env : Env S) where
  abbrev idle_wait : ℕ → ℕ → S → Option (Bool × S)
  idle_wait fuel ticks s =
      wait_until env fuel (deadline ticks (env.now s)) (λ t. (false, t)) (λ _ t. t) s

  ended :
      (ticks : ℕ) (s t : S) (b : Bool)
      → Ended env (deadline ticks (env.now s)) (λ u. (false, u)) (λ _ u. u) s b t
      → (ticks ≢ forever) × (env.now s + ticks ≤ env.now t)
  unfolding deadline expired
  ended ticks s t b (before, reached, asked, why) =
      let refused : b ≡ false = sym (ap (λ r. r.0) asked) in (ground arith, ground arith)

  -- A delay that returns has lasted at least its ticks, and was not without a limit.
  pub time_delay_lasts :
      (fuel ticks : ℕ) (s t : S)
      → time_delay env fuel ticks s ≡ some t
      → (ticks ≢ forever) × (env.now s + ticks ≤ env.now t)
  unfolding time_delay
  time_delay_lasts fuel ticks s t h = elim (Option-cases (idle_wait fuel ticks s)) [
    | inl out ↦ absurd (ground arith)
    | inr ((b, u), got) ↦
        let at : u ≡ t = ground arith in
        subst (λ v. (ticks ≢ forever) × (env.now s + ticks ≤ env.now v)) at
          (ended ticks s u b (
            wait_until-Ended env (deadline ticks (env.now s)) (λ v. (false, v)) (λ _ v. v) s fuel s
              at_start got))
  ]

  -- If any `slack` rounds of a delay with a limit take a millisecond or more, it returns: as many times
  -- `slack` rounds as it has ticks, and one more, are enough.
  pub time_delay_ends :
      (fuel ticks slack : ℕ) (s : S)
      → ticks ≢ forever
      → ((u : S)
          → env.now u
            < env.now
                (rounds env (deadline ticks (env.now s)) (λ v. (false, v)) (λ _ v. v) slack u))
      → (t : S) × (time_delay env (ticks * slack + suc fuel) ticks s ≡ some t)
  unfolding time_delay deadline
  time_delay_ends fuel ticks slack s limited passes =
      let is : deadline ticks (env.now s) ≡ some (env.now s + ticks) = ground arith in
      let (b, t, e) =
        wait_until_ends env (deadline ticks (env.now s)) (λ u. (false, u)) (λ _ u. u)
          (env.now s + ticks) slack is (λ u. omega arith) passes ticks fuel s (omega arith) in
      (t, ap waited e)

module _ {W : Type 0} (env : Env (Ptr × (Store × W))) where
  -- A get from a queue that holds `x` and then `xs` hands out `x` at once, whatever its limit, and
  -- leaves `xs`.
  pub eventq_get-cons :
      (fuel evq tmo x : ℕ) (xs : List Ptr) (s : Store) (w : W)
      → x ≢ null
      → IsQueue s evq (x ∷ xs)
      → (t : Store) × (eventq_get env fuel evq tmo (s, w) ≡ some (x, (t, w))) × IsQueue t evq xs
  unfolding eventq_get pop_in
  eventq_get-cons fuel evq tmo x xs s w live q =
      let (got, rest, flag) = eventq_try_pop-cons {s = s} {evq = evq} x xs q in
      let on : ((eventq_try_pop evq s).0 == null) ≡ false = ground arith in
      (
        (eventq_try_pop evq s).1,
        rw (on, eventq_get) (ap (λ p. some (p, ((eventq_try_pop evq s).1, w))) got),
        rest,
      )
