-- ===== src/Npl/Eventq/Held.antt =====
-- A queue that holds every event that is queued at all, as the default queue of the C host does.
use nimble_rs.Base.{
  ◌≡◌, ◌≢◌, subst, sym, true, false, List, [], ◌∷◌, ◌++◌, has, if◌then◌else◌, ◌==◌, arith,
  Bool-cases, inl, inr,
}
use nimble_rs.Npl.Store.{Ptr, null, Store}
use nimble_rs.Npl.Chain.{has-append}
use nimble_rs.Npl.Eventq.{eventq_put, eventq_try_pop}
use nimble_rs.Npl.Eventq.Defs.{IsQueue}
use nimble_rs.Npl.Eventq.Fifo.{
  eventq_put-append, eventq_put_rest, eventq_put_ignored, eventq_try_pop-cons, eventq_try_pop-flags,
}

-- The queue holds exactly `xs`, and no event is queued elsewhere.
pub record Holds (s : Store) (evq : Ptr) (xs : List Ptr) : Type 0 where
  pub queue : IsQueue s evq xs
  pub only : (p : Ptr) → (s.event p).queued ≡ true → has p xs ≡ true

-- Puts in a row: an event that is on the queue stays where it is, another goes to the end.
abbrev pub put_one : Ptr → List Ptr → List Ptr
put_one p xs = if has p xs then xs else xs ++ p ∷ []

abbrev pub put_all : List Ptr → List Ptr → List Ptr
put_all [] xs = xs
put_all (p ∷ ps) xs = put_all ps (put_one p xs)

pub eventq_put-Holds :
    (s : Store) (evq ev : Ptr) (xs : List Ptr)
    → ev ≢ null
    → Holds s evq xs
    → Holds (eventq_put evq ev s) evq (put_one ev xs)
eventq_put-Holds s evq ev xs live h = elim (Bool-cases (has ev xs)) [
  | inl there ↦ rw there (
      subst (λ t. Holds t evq xs)
        (sym (eventq_put_ignored evq ev s (inl (h.queue.queued ev there)))) h)
  | inr absent ↦
      let free : (s.event ev).queued ≡ false = ground (arith, h.only ev) in
      let (q, w, woken) = eventq_put-append {s = s} {evq = evq} {ev = ev} live free xs h.queue in
      let (c, t, flags) = eventq_put_rest evq ev s in
      rw absent (record {
        queue = q;
        only = λ p on. elim (Bool-cases (p == ev)) [
          | inl same ↦ ground (arith, has-append p ev xs)
          | inr other ↦
              let ne : p ≢ ev = ground arith in
              ground (arith, has-append p ev xs, flags p ne, h.only p)
        ];
      })
]

pub eventq_try_pop-Holds :
    (s : Store) (evq x : Ptr) (xs : List Ptr)
    → Holds s evq (x ∷ xs)
    → Holds (eventq_try_pop evq s).1 evq xs
eventq_try_pop-Holds s evq x xs h =
    let (first, rest, free) = eventq_try_pop-cons x xs h.queue in
    record {
      queue = rest;
      only = λ p on. elim (Bool-cases (p == x)) [
        | inl same ↦
            let at : p ≡ x = ground arith in
            absurd (
              ground (
                arith,
                subst (λ y. ((eventq_try_pop evq s).1.event y).queued ≡ false) (sym at) free,
              ))
        | inr other ↦
            let ne : p ≢ x = ground arith in
            ground (arith, eventq_try_pop-flags x xs p h.queue ne, h.only p)
      ];
    }
