-- ===== src/Npl/Critical/Laws.antt =====
-- Nested critical sections take and give back the global one exactly once.
use mathlib.Core.List.{append_assoc}
use nimble_rs.Base.{
  ℕ, zero, suc, ◌+◌, ◌-◌, ◌%◌, ◌^◌, ◌<◌, ◌≡◌, ◌≢◌, refl, ap, ◌∙◌, true, false, none, some, List, [],
  ◌∷◌, ◌++◌, arith, ◌==◌,
}
use nimble_rs.Npl.Critical.{
  CsCall, acquired, released, CsState, enter_critical, exit_critical, is_in_critical, give_back,
}

pub enters : ℕ → ℕ → ℕ → CsState → CsState
enters zero me token c = c
enters (suc n) me token c = enters n me token (enter_critical me token c)

pub exits : ℕ → CsState → CsState
exits zero c = c
exits (suc n) c = exits n (exit_critical c)

-- Outside all critical sections.
abbrev pub idle : List CsCall → CsState
idle log = record { owner = 0; depth = 0; restore = none; log = log }

abbrev pub inside : ℕ → ℕ → ℕ → List CsCall → CsState
inside me depth token log = record { owner = me; depth = depth; restore = some token; log = log }

enters-inside :
    (n me d t token : ℕ) (log : List CsCall)
    → d + n < 2 ^ 32
    → enters n me token (inside me d t log) ≡ inside me (d + n) t log
unfolding enters enter_critical
enters-inside zero me d t token log h = ap (λ k. inside me k t log) (omega arith)
enters-inside (suc n) me d t token log h =
    let self : (me == me) ≡ true = ground arith in
    let e : (d + 1) % 2 ^ 32 ≡ d + 1 = omega arith in
    rw (self, e)
      (enters-inside n me (d + 1) t token log (omega arith)
        ∙ ap (λ k. inside me k t log) (omega arith))

exit_critical-inside :
    (n me t : ℕ) (log : List CsCall)
    → suc (suc n) < 2 ^ 32
    → exit_critical (inside me (suc (suc n)) t log) ≡ inside me (suc n) t log
unfolding exit_critical
exit_critical-inside n me t log h =
    let e : (suc (suc n) + 2 ^ 32 - 1) % 2 ^ 32 ≡ suc n = omega arith in
    let more : (suc n == 0) ≡ false = ground arith in rw (e, more) refl

exits-inside :
    (n me t : ℕ) (log : List CsCall)
    → suc n < 2 ^ 32
    → exits (suc n) (inside me (suc n) t log) ≡ idle (log ++ released t ∷ [])
unfolding exits exit_critical give_back
exits-inside zero me t log h = refl
exits-inside (suc n) me t log h =
    ap (exits (suc n)) (exit_critical-inside n me t log h) ∙ exits-inside n me t log (omega arith)

module _ (n me token other : ℕ) (log : List CsCall) (some_me : me ≢ 0) (h : suc n < 2 ^ 32) where
  entered :
      enters n me other (enter_critical me token (idle log))
      ≡ inside me (suc n) token (log ++ acquired token ∷ [])
  unfolding enter_critical
  entered =
      let others : (0 == me) ≡ false = ground arith in
      rw others (
        enters-inside n me 1 token other (log ++ acquired token ∷ []) (omega arith)
        ∙ ap (λ k. inside me k token (log ++ acquired token ∷ [])) (omega arith))

  -- A context that enters a critical section and then enters again `n` times is inside; as many exits
  -- lead outside, and in between the global section was acquired once and released once, with the
  -- restore state of the first entry.
  pub enters-exits :
      (is_in_critical me (enters n me other (enter_critical me token (idle log))) ≡ true)
      × (exits (suc n) (enters n me other (enter_critical me token (idle log)))
          ≡ idle (log ++ acquired token ∷ released token ∷ []))
  unfolding is_in_critical
  enters-exits = (
    rw entered (ground arith),
    ap (exits (suc n)) entered
        ∙ exits-inside n me token (log ++ acquired token ∷ []) h
        ∙ ap idle (append_assoc log (acquired token ∷ []) (released token ∷ [])),
  )
