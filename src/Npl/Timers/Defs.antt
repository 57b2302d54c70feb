-- ===== src/Npl/Timers/Defs.antt =====
-- What the list of active timers of nimble-rs/src/npl.rs stands for: callouts in the order of their
-- deadlines.
use nimble_rs.Base.{ℕ, ◌≤◌, ◌≡◌, true, List, [], ◌∷◌, has, IsDistinct, leb, if◌then◌else◌}
use nimble_rs.Npl.Store.{Ptr, Store}
use nimble_rs.Npl.Chain.{Chain}

abbrev pub callout_next : Store → Ptr → Ptr
callout_next s p = (s.callout p).next

abbrev pub callout_deadline : Store → Ptr → ℕ
callout_deadline s p = (s.callout p).deadline

-- Each deadline is at most those behind it.
abbrev pub IsSorted : (Ptr → ℕ) → List Ptr → Type 0
IsSorted d [] = Unit
IsSorted d (x ∷ xs) = ((y : Ptr) → has y xs ≡ true → d x ≤ d y) × IsSorted d xs

-- The list of timers holds exactly the callouts `xs`, which are those marked active, and the
-- earliest deadline comes first.
pub record IsTimers (s : Store) (xs : List Ptr) : Type 0 where
  pub chain : Chain (callout_next s) s.timers.head xs
  pub distinct : IsDistinct xs
  pub sorted : IsSorted (callout_deadline s) xs
  pub active : (p : Ptr) → (s.callout p).active ≡ has p xs

-- `co`, due at `deadline`, put into `xs` behind all that are due no later.
abbrev pub insert_by : (Ptr → ℕ) → Ptr → ℕ → List Ptr → List Ptr
insert_by d co deadline [] = co ∷ []
insert_by d co deadline (x ∷ xs) =
    if leb (d x) deadline then x ∷ insert_by d co deadline xs else co ∷ x ∷ xs

-- The timers are the same in two stores with the same callouts and list head.
pub IsTimers-frame :
    (s t : Store) (xs : List Ptr)
    → t.callout ≡ s.callout
    → t.timers.head ≡ s.timers.head
    → IsTimers s xs
    → IsTimers t xs
IsTimers-frame s t xs e e' i = record {
  chain = rw (e, e') i.chain;
  distinct = i.distinct;
  sorted = rw e i.sorted;
  active = rw e i.active;
}
