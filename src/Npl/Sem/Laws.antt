-- ===== src/Npl/Sem/Laws.antt =====
-- What a pend on a semaphore gives and takes.
use nimble_rs.Base.{
  ℕ, ltb, suc, ◌%◌, ◌+◌, ◌-◌, ◌^◌, ◌<◌, ◌≡◌, ◌≢◌, refl, ap, ◌∙◌, subst, sym, Bool, true, false,
  Option, none, some, arith, ◌==◌, Bool-cases, Option-cases, inl, inr,
}
use nimble_rs.Npl.Store.{Waker}
use nimble_rs.Npl.Wait.{Env, wait_until, deadline, expired, forever}
use nimble_rs.Npl.Wait.Laws.{Ended, wait_until-Ended, Reached, at_start, registered, pumped, parked}
use nimble_rs.Npl.Sem.{
  NplError, ok, timeout, Sem, sem_release, try_take, take_in, register_in, code_of, sem_pend,
}

-- A release of a semaphore without tokens.
pub sem_release-zero :
    (v : Option Waker)
    → (sem_release (record { count = 0; waker = v })).0 ≡ record { count = 1; waker = none }
unfolding sem_release
sem_release-zero v = refl

module _ {W : Type 0} (env : Env (Sem × W)) where
  -- The states of a pend in which it looks for a token, from its start on: it goes on only without one,
  -- by the registration of its waker, a poll of the bridge or a park.
  pub data Looks (d : Option ℕ) (start : Sem × W) : Sem × W → Type 0 where
    at_once : Looks d start start
    registers :
        {sem : Sem} {w : W}
        → Looks d start (sem, w)
        → sem.count ≡ 0
        → Looks d start (record { count = 0; waker = some env.current_waker }, w)
    polls :
        {t : Sem × W}
        → Looks d start t
        → t.0.count ≡ 0
        → Looks d start (env.pump_manual env.current_waker t)
    parks : {t : Sem × W} → Looks d start t → t.0.count ≡ 0 → Looks d start (env.park d t)

  -- How a pend ends: it looked, and took one token and nothing else, or it found none at its deadline.
  pub data Outcome (d : Option ℕ) (start : Sem × W) : NplError → Sem × W → Type 0 where
    took :
        {t : Sem × W} (s : Sem × W)
        → Looks d start s
        → s.0.count ≡ t.0.count + 1
        → s.0.waker ≡ t.0.waker
        → s.1 ≡ t.1
        → Outcome d start ok t
    gave_up :
        {t : Sem × W}
        → Looks d start t
        → t.0.count ≡ 0
        → expired d (env.now t) ≡ true
        → Outcome d start timeout t

  refused : (s : Sem × W) → (take_in s).0 ≡ false → (s.0.count ≡ 0) × ((take_in s).1 ≡ s)
  unfolding take_in try_take
  refused s h = elim (Bool-cases (ltb 0 s.0.count)) [
    | inl e ↦ absurd (ground arith)
    | inr e ↦ (ground arith, rw e refl)
  ]

  granted :
      (s t : Sem × W)
      → take_in s ≡ (true, t)
      → (s.0.count ≡ t.0.count + 1) × (s.0.waker ≡ t.0.waker) × (s.1 ≡ t.1)
  unfolding take_in try_take
  granted s t h = (ground arith, ground arith, ground arith)

  reached-Looks :
      (d : Option ℕ) (start : Sem × W) {s : Sem × W}
      → Reached env d take_in register_in start s
      → Looks d start s
  unfolding register_in
  reached-Looks d start at_start = at_once
  reached-Looks d start (registered {s} r h) =
      let (empty, same) = refused s h in
      subst (λ u. Looks d start (register_in env.current_waker u)) (sym same)
        (subst (λ n. Looks d start (record { count = n; waker = some env.current_waker }, s.1))
          (sym empty) (registers (reached-Looks d start r) empty))
  reached-Looks d start (pumped {s} r h) =
      let (empty, same) = refused s h in
      subst (λ u. Looks d start (env.pump_manual env.current_waker u)) (sym same)
        (polls (reached-Looks d start r) empty)
  reached-Looks d start (parked {s} r h) =
      let (empty, same) = refused s h in
      subst (λ u. Looks d start (env.park d u)) (sym same) (parks (reached-Looks d start r) empty)

  took_it :
      (d : Option ℕ) (start s t : Sem × W)
      → Looks d start s
      → take_in s ≡ (true, t)
      → Outcome d start ok t
  took_it d start s t l h =
      let (one_less, waker, world) = granted s t h in took s l one_less waker world

  found_none :
      (d : Option ℕ) (start s t : Sem × W)
      → Looks d start s
      → take_in s ≡ (false, t)
      → expired d (env.now t) ≡ true
      → Outcome d start timeout t
  found_none d start s t l h late =
      let (empty, same) = refused s (ap (λ r. r.0) h) in
      let at : s ≡ t = sym same ∙ ap (λ r. r.1) h in
      gave_up (subst (λ u. Looks d start u) at l) (subst (λ u. u.0.count ≡ 0) at empty) late

  of_wait :
      (d : Option ℕ) (start : Sem × W) (e : NplError) (t : Sem × W) (b : Bool) (u : Sem × W)
      → code_of (some (b, u)) ≡ some (e, t)
      → Ended env d take_in register_in start b u
      → Outcome d start e t
  unfolding code_of
  of_wait d start e t true u h (before, r, got, why) =
      let is_ok : e ≡ ok = cc in
      let at : u ≡ t = cc in
      subst (λ k. Outcome d start k t) (sym is_ok)
        (took_it d start before t (reached-Looks d start r) (cc))
  of_wait d start e t false u h (before, r, got, why) =
      let is_timeout : e ≡ timeout = cc in
      let at : u ≡ t = cc in
      let late : expired d (env.now t) ≡ true = ground arith in
      subst (λ k. Outcome d start k t) (sym is_timeout)
        (found_none d start before t (reached-Looks d start r) (cc) late)

  code-Outcome :
      (d : Option ℕ) (fuel : ℕ) (start : Sem × W) (e : NplError) (t : Sem × W)
      → code_of (wait_until env fuel d take_in register_in start) ≡ some (e, t)
      → Outcome d start e t
  unfolding code_of
  code-Outcome d fuel start e t h =
      elim (Option-cases (wait_until env fuel d take_in register_in start)) [
        | inl out ↦ cc
        | inr ((b, u), got) ↦
            of_wait d start e t b u (rw got at h)
              (wait_until-Ended env d take_in register_in start fuel start at_start got)
      ]

  at_zero : (n : ℕ) → expired (deadline 0 n) n ≡ true
  unfolding expired deadline
  at_zero n = ground arith

  no_limit :
      (tmo n : ℕ) (s : Sem × W) (e : NplError) (t : Sem × W)
      → Outcome (deadline tmo n) s e t
      → tmo ≡ forever
      → e ≡ ok
  unfolding expired deadline
  no_limit tmo n s _ t (took u l c w r) f = refl
  no_limit tmo n s _ t (gave_up l c late) f = absurd (ground arith)

  ended :
      (fuel tmo : ℕ) (s : Sem × W) (e : NplError) (t : Sem × W)
      → sem_pend env fuel tmo s ≡ some (e, t)
      → Outcome (deadline tmo (env.now s)) s e t
  unfolding sem_pend
  ended fuel tmo s e t h = elim (Bool-cases (take_in s).0) [
    | inl got ↦
        let is_ok : e ≡ ok = ground arith in
        let at : (take_in s).1 ≡ t = ground arith in
        subst (λ k. Outcome (deadline tmo (env.now s)) s k t) (sym is_ok)
          (took_it (deadline tmo (env.now s)) s s t at_once (λ i. (got i, at i)))
    | inr none_left ↦
        let (empty, same) = refused s none_left in
        elim (Bool-cases (tmo == 0)) [
          | inl z ↦
              let is_timeout : e ≡ timeout = ground arith in
              let at : (take_in s).1 ≡ t = ground arith in
              let zero_tmo : 0 ≡ tmo = ground arith in
              let late : expired (deadline tmo (env.now s)) (env.now t) ≡ true =
                subst (λ k. expired (deadline k (env.now s)) (env.now t) ≡ true) zero_tmo
                  (subst (λ u. expired (deadline 0 (env.now s)) (env.now u) ≡ true) (sym same ∙ at)
                    (at_zero (env.now s))) in
              subst (λ k. Outcome (deadline tmo (env.now s)) s k t) (sym is_timeout)
                (found_none (deadline tmo (env.now s)) s s t at_once (λ i. (none_left i, at i))
                  late)
          | inr nz ↦ code-Outcome (deadline tmo (env.now s)) fuel s e t (
              subst
                (λ u.
                  code_of (wait_until env fuel (deadline tmo (env.now u)) take_in register_in u)
                  ≡ some (e, t))
                same (ground arith))
        ]
  ]

  -- How a pend that returns has ended. With `OK` it has taken exactly one token, of a semaphore in a state
  -- that it came to from its start by registering its waker, polling the bridge and parking, each only
  -- while there was no token; and it changed nothing else. With `TIMEOUT` there was no token in such a
  -- state, and the deadline, if it has one, had passed: the answer to a wait without a limit is never
  -- `TIMEOUT`.
  pub sem_pend-Outcome :
      (fuel tmo : ℕ) (s : Sem × W) (e : NplError) (t : Sem × W)
      → sem_pend env fuel tmo s ≡ some (e, t)
      → Outcome (deadline tmo (env.now s)) s e t × (tmo ≡ forever → e ≡ ok)
  sem_pend-Outcome fuel tmo s e t h =
      let out = ended fuel tmo s e t h in (out, no_limit tmo (env.now s) s e t out)

module _ {W : Type 0} (env : Env (Sem × W)) where
  -- A token that was released, short of the 16-bit limit, is taken at once, with any limit on the
  -- wait and none of it spent; the semaphore is then as it was, but that its waker was taken.
  pub sem_pend-release :
      (fuel tmo : ℕ) (s : Sem) (w : W)
      → s.count + 1 < 2 ^ 16
      → sem_pend env fuel tmo ((sem_release s).0, w)
        ≡ some (ok, (record { count = s.count; waker = none }, w))
  unfolding sem_pend sem_release take_in try_take
  sem_pend-release fuel tmo s w h =
      let e : (s.count + 1) % 2 ^ 16 ≡ s.count + 1 = omega arith in
      let back : s.count + 1 - 1 ≡ s.count = omega arith in
      let full : ltb 0 (s.count + 1) ≡ true = ground arith in rw (e, full, back) refl

  not_expired : (tmo now : ℕ) → tmo ≢ 0 → expired (deadline tmo now) now ≡ false
  unfolding expired deadline
  not_expired tmo now h = ground arith

  -- The state that the poll of the HCI bridge leaves in the first round of a wait that began with
  -- no token: it finds the waker of the caller registered.
  abbrev pub polled : W → Sem × W
  polled w =
      env.pump_manual env.current_waker (record { count = 0; waker = some env.current_waker }, w)

  -- The wait for an acknowledgement: if there is no token, and the poll of the HCI bridge in the
  -- first round brings one, then a pend with a limit other than 0 takes it, returns `OK` and does
  -- not park.
  pub sem_pend_pumped :
      (fuel tmo : ℕ) (v : Option Waker) (w : W)
      → tmo ≢ 0
      → 0 < (polled w).0.count
      → sem_pend env (suc fuel) tmo (record { count = 0; waker = v }, w)
        ≡ some (
          ok,
          (record { count = (polled w).0.count - 1; waker = (polled w).0.waker }, (polled w).1),
        )
  unfolding sem_pend wait_until take_in register_in try_take code_of
  sem_pend_pumped fuel tmo v w some_tmo brought =
      let waits : (tmo == 0) ≡ false = ground arith in
      let time_left = not_expired tmo (env.now (record { count = 0; waker = v }, w)) some_tmo in
      let full : ltb 0 (polled w).0.count ≡ true = ground arith in rw (waits, time_left, full) refl
