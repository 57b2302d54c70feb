-- ===== src/Npl/Timers/Unlink.antt =====
-- `timers_unlink` of nimble-rs/src/npl.rs against a list of callouts.
use nimble_rs.Base.{
  ℕ, zero, suc, ◌<◌, ◌≡◌, ◌≢◌, refl, subst, true, false, some, List, [], ◌∷◌, arith, ◌==◌,
  if◌then◌else◌, has, length, IsDistinct, Bool-cases, inl, inr,
}
use nimble_rs.Npl.Store.{Ptr, null, Store}
use nimble_rs.Npl.Chain.{
  before, has-before, has-erase, IsDistinct-erase, mem-ne-null, before-ne, Chain-erase, Chain,
  erase, Chain-frame,
}
use nimble_rs.Npl.Timers.{unlink, unlink_loop, timers_unlink}
use nimble_rs.Npl.Timers.Defs.{callout_next, callout_deadline, IsSorted, IsTimers}

module _ (s : Store) (prev co : Ptr) where
  unlink-head :
      (unlink prev co s).timers.head ≡ (if prev == null then (s.callout co).next else s.timers.head)
  unfolding unlink
  unlink-head = ground arith

  unlink-next :
      (q : Ptr)
      → q ≢ co
      → ((unlink prev co s).callout q).next ≡ (
          if prev == null
          then (s.callout q).next
          else if q == prev
          then (s.callout co).next
          else (s.callout q).next)
  unfolding unlink
  unlink-next q ne = ground arith

  unlink_fields :
      (q : Ptr)
      → (((unlink prev co s).callout q).deadline ≡ (s.callout q).deadline)
        × (((unlink prev co s).callout q).active ≡ (s.callout q).active)
        × (((unlink prev co s).callout q).evq ≡ (s.callout q).evq)
  unfolding unlink
  unlink_fields q = ground arith

  unlink-woken : (unlink prev co s).woken ≡ s.woken
  unfolding unlink
  unlink-woken = ground arith

  unlink-rest : ((unlink prev co s).event ≡ s.event) × ((unlink prev co s).eventq ≡ s.eventq)
  unfolding unlink
  unlink-rest = ground arith

  unlink-waker : (unlink prev co s).timers.waker ≡ s.timers.waker
  unfolding unlink
  unlink-waker = ground arith

unlink_loop_lem :
    (fuel : ℕ) (s : Store) (co prev cur : Ptr) (xs : List Ptr)
    → Chain (callout_next s) cur xs
    → has co xs ≡ true
    → length xs < fuel
    → unlink_loop fuel co prev cur s ≡ some (unlink (before co prev xs) co s)
unfolding unlink_loop
unlink_loop_lem zero s co prev cur xs c h f = elim f [ ]
unlink_loop_lem (suc fuel) s co prev cur [] c h f = cc
unlink_loop_lem (suc fuel) s co prev cur (x ∷ xs) c h f =
    rw c.0 (ground (arith, unlink_loop_lem fuel s co x (s.callout x).next xs c.2))

module _ (s : Store) (co : Ptr) where
  abbrev pub after : List Ptr → Store
  after xs = unlink (before co null xs) co s

  -- The chain of a list of timers, and no callout twice in it.
  unlink-Chain :
      (xs : List Ptr)
      → Chain (callout_next s) s.timers.head xs
      → IsDistinct xs
      → has co xs ≡ true
      → Chain (callout_next (after xs)) (after xs).timers.head (erase co xs)
  unlink-Chain [] c d h = cc
  unlink-Chain (x ∷ xs) c d h = elim (Bool-cases (x == co)) [
    | inl e ↦
        let u = unlink null co s in
        let rest : Chain (callout_next u) (s.callout x).next xs =
          Chain-frame (callout_next s) (callout_next u) (s.callout x).next xs c.2
            (λ q m. let ne : q ≢ co = ground arith in ground (arith, unlink-next s null co q ne)) in
        let at_head : (s.callout x).next ≡ u.timers.head = ground (arith, unlink-head s null co) in
        rw e (subst (λ p. Chain (callout_next u) p xs) at_head rest)
    | inr e ↦
        let prev = before co x xs in
        let apart : prev ≢ co = before-ne co x xs d (ground arith) (ground arith) in
        let u = unlink prev co s in
        let some_prev : prev ≢ null =
          mem-ne-null (callout_next s) s.timers.head prev (x ∷ xs) c (has-before co x xs) in
        let rest : Chain (callout_next u) s.timers.head (x ∷ erase co xs) =
          Chain-erase (callout_next s) (callout_next u) s.timers.head co x xs c d (ground arith)
            (λ q m m'. ground (arith, unlink-next s prev co q m'))
            (ground (arith, unlink-next s prev co prev)) in
        let at_head : s.timers.head ≡ u.timers.head = ground (arith, unlink-head s prev co) in
        rw e (subst (λ p. Chain (callout_next u) p (x ∷ erase co xs)) at_head rest)
  ]

pub IsSorted-mono :
    (d d' : Ptr → ℕ) (xs : List Ptr)
    → ((q : Ptr) → has q xs ≡ true → d' q ≡ d q)
    → IsSorted d xs
    → IsSorted d' xs
IsSorted-mono d d' [] same s = tt
IsSorted-mono d d' (x ∷ xs) same s = (
  λ y h. ground (arith, same x, same y, s.0 y h),
  IsSorted-mono d d' xs (λ q h. same q (ground arith)) s.1,
)

IsSorted-erase : (d : Ptr → ℕ) (co : Ptr) (xs : List Ptr) → IsSorted d xs → IsSorted d (erase co xs)
IsSorted-erase d co [] s = tt
IsSorted-erase d co (x ∷ xs) s = elim (Bool-cases (x == co)) [
  | inl e ↦ rw e s.1
  | inr e ↦ rw e (λ y h. s.0 y (ground (arith, has-erase y co xs)), IsSorted-erase d co xs s.1)
]

has-erase_ne : (p co : Ptr) (xs : List Ptr) → p ≢ co → has p (erase co xs) ≡ has p xs
has-erase_ne p co [] ne = refl
has-erase_ne p co (x ∷ xs) ne = ground (arith, has-erase_ne p co xs ne)

pub erase_absent : (co : Ptr) (xs : List Ptr) → has co xs ≡ false → erase co xs ≡ xs
erase_absent co [] h = refl
erase_absent co (x ∷ xs) h = ground (arith, erase_absent co xs)

-- The list after the unlinking, but for the mark on `co`, which the callers set.
pub record Unlinked (s t : Store) (co : Ptr) (xs : List Ptr) : Type 0 where
  pub chain : Chain (callout_next t) t.timers.head (erase co xs)
  pub distinct : IsDistinct (erase co xs)
  pub sorted : IsSorted (callout_deadline t) (erase co xs)
  pub active : (p : Ptr) → p ≢ co → (t.callout p).active ≡ has p (erase co xs)
  pub kept :
      (p : Ptr)
      → ((t.callout p).deadline ≡ (s.callout p).deadline)
        × ((t.callout p).active ≡ (s.callout p).active)
        × ((t.callout p).evq ≡ (s.callout p).evq)
  pub waker : t.timers.waker ≡ s.timers.waker
  pub woken : t.woken ≡ s.woken
  pub rest : (t.event ≡ s.event) × (t.eventq ≡ s.eventq)

pub timers_unlink-erase :
    (fuel : ℕ) (s : Store) (co : Ptr) (xs : List Ptr)
    → IsTimers s xs
    → has co xs ≡ true
    → length xs < fuel
    → (t : Store) × (timers_unlink fuel co s ≡ some t) × Unlinked s t co xs
unfolding timers_unlink
timers_unlink-erase fuel s co xs i h f = (
  after s co xs,
  unlink_loop_lem fuel s co null s.timers.head xs i.chain h f,
  record {
    chain = unlink-Chain s co xs i.chain i.distinct h;
    distinct = IsDistinct-erase co xs i.distinct;
    sorted =
        IsSorted-mono (callout_deadline s) (callout_deadline (after s co xs)) (erase co xs)
          (λ q m. (unlink_fields s (before co null xs) co q).0)
          (IsSorted-erase (callout_deadline s) co xs i.sorted);
    active = λ p ne.
        ground
          (arith, unlink_fields s (before co null xs) co p, i.active p, has-erase_ne p co xs ne);
    kept = unlink_fields s (before co null xs) co;
    waker = unlink-waker s (before co null xs) co;
    woken = unlink-woken s (before co null xs) co;
    rest = unlink-rest s (before co null xs) co;
  },
)
