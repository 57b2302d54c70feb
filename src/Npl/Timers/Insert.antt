-- ===== src/Npl/Timers/Insert.antt =====
-- The sorted insertion of `ble_npl_callout_reset` in nimble-rs/src/npl.rs.
use nimble_rs.Base.{
  ℕ, zero, suc, ◌<◌, ◌≡◌, ◌≢◌, ◌||◌, refl, subst, true, false, some, List, [], ◌∷◌, arith, ◌==◌,
  leb, if◌then◌else◌, has, length, IsDistinct, Bool-cases, inl, inr,
}
use nimble_rs.Npl.Store.{Ptr, null, Store}
use nimble_rs.Npl.Chain.{mem-ne-null, Chain, Chain-frame}
use nimble_rs.Npl.Timers.{link, insert_loop}
use nimble_rs.Npl.Timers.Unlink.{IsSorted-mono}
use nimble_rs.Npl.Timers.Defs.{callout_next, callout_deadline, IsSorted, IsTimers, insert_by}

-- Where the search stops: the last callout due no later, and the first one due later.
abbrev prev_of : (Ptr → ℕ) → ℕ → Ptr → List Ptr → Ptr
prev_of d deadline prev [] = prev
prev_of d deadline prev (x ∷ xs) = if leb (d x) deadline then prev_of d deadline x xs else prev

abbrev next_of : (Ptr → ℕ) → ℕ → List Ptr → Ptr
next_of d deadline [] = null
next_of d deadline (x ∷ xs) = if leb (d x) deadline then next_of d deadline xs else x

module _ (d : Ptr → ℕ) (deadline : ℕ) where
  has-prev_of : (x : Ptr) (xs : List Ptr) → has (prev_of d deadline x xs) (x ∷ xs) ≡ true
  has-prev_of x [] = ground arith
  has-prev_of x (y ∷ ys) = ground (arith, has-prev_of y ys)

  pub has-insert_by :
      (p co : Ptr) (xs : List Ptr) → has p (insert_by d co deadline xs) ≡ (p == co || has p xs)
  has-insert_by p co [] = ground arith
  has-insert_by p co (x ∷ xs) = ground (arith, has-insert_by p co xs)

  IsDistinct-insert_by :
      (co : Ptr) (xs : List Ptr)
      → IsDistinct xs
      → has co xs ≡ false
      → IsDistinct (insert_by d co deadline xs)
  IsDistinct-insert_by co [] u out = (refl, tt)
  IsDistinct-insert_by co (x ∷ xs) u out = elim (Bool-cases (leb (d x) deadline)) [
    | inl e ↦
        rw e (ground (arith, has-insert_by x co xs), IsDistinct-insert_by co xs u.1 (ground arith))
    | inr e ↦ rw e (out, u)
  ]

  IsSorted-insert_by :
      (co : Ptr) (xs : List Ptr)
      → IsSorted d xs
      → d co ≡ deadline
      → IsSorted d (insert_by d co deadline xs)
  IsSorted-insert_by co [] s at = (λ y h. cc, tt)
  IsSorted-insert_by co (x ∷ xs) s at = elim (Bool-cases (leb (d x) deadline)) [
    | inl e ↦
        rw e (λ y h. ground (arith, has-insert_by y co xs, s.0 y), IsSorted-insert_by co xs s.1 at)
    | inr e ↦ rw e (λ y h. ground (arith, s.0 y), s)
  ]

  -- Linking `co` in behind the first callout.
  Chain-insert_by :
      (n n' : Ptr → Ptr) (p co x : Ptr) (xs : List Ptr)
      → Chain n p (x ∷ xs)
      → IsDistinct (x ∷ xs)
      → has co (x ∷ xs) ≡ false
      → co ≢ null
      → ((q : Ptr) → q ≢ prev_of d deadline x xs → q ≢ co → n' q ≡ n q)
      → n' (prev_of d deadline x xs) ≡ co
      → n' co ≡ next_of d deadline xs
      → Chain n' p (x ∷ insert_by d co deadline xs)
  Chain-insert_by n n' p co x [] c u out some_co same at_prev at_co =
      (c.0, c.1, (at_prev, some_co, at_co))
  Chain-insert_by n n' p co x (y ∷ ys) c u out some_co same at_prev at_co =
      elim (Bool-cases (leb (d y) deadline)) [
        | inl e ↦
            let apart : x ≢ prev_of d deadline y ys = ground (arith, has-prev_of y ys) in
            let kept : n' x ≡ n x = ground (arith, same x) in
            let rest : Chain n' (n x) (y ∷ insert_by d co deadline ys) =
              Chain-insert_by n n' (n x) co y ys c.2 u.1 (ground arith) some_co
                (λ q a b. ground (arith, same q)) (ground arith) (ground arith) in
            rw e (c.0, c.1, rw kept rest)
        | inr e ↦
            let rest : Chain n' (n y) ys =
              Chain-frame n n' (n y) ys c.2.2 (λ q h. ground (arith, same q)) in
            let at_y : n' y ≡ n y = ground (arith, same y) in
            let at_x : n' x ≡ co = ground arith in
            let to_y : n' co ≡ y = ground arith in
            rw e (c.0, c.1, (at_x, some_co, (to_y, c.2.1, rw at_y rest)))
      ]

module _ (s : Store) (co prev cur : Ptr) where
  link-head : (link co prev cur s).timers.head ≡ (if prev == null then co else s.timers.head)
  unfolding link
  link-head = ground arith

  link-next :
      (q : Ptr)
      → ((link co prev cur s).callout q).next ≡ (
          if prev == null
          then (if q == co then cur else (s.callout q).next)
          else if q == prev
          then co
          else if q == co
          then cur
          else (s.callout q).next)
  unfolding link
  link-next q = ground arith

  link_fields :
      (q : Ptr)
      → (((link co prev cur s).callout q).deadline ≡ (s.callout q).deadline)
        × (((link co prev cur s).callout q).active ≡ (s.callout q).active)
        × (((link co prev cur s).callout q).evq ≡ (s.callout q).evq)
  unfolding link
  link_fields q = ground arith

  link-timers_waker : (link co prev cur s).timers.waker ≡ s.timers.waker
  unfolding link
  link-timers_waker = ground arith

  link-woken : (link co prev cur s).woken ≡ s.woken
  unfolding link
  link-woken = ground arith

insert_loop_lem :
    (fuel : ℕ) (s : Store) (co : Ptr) (deadline : ℕ) (prev cur : Ptr) (xs : List Ptr)
    → Chain (callout_next s) cur xs
    → length xs < fuel
    → insert_loop fuel co deadline prev cur s
      ≡ some (
          link co
            (prev_of (callout_deadline s) deadline prev xs)
            (next_of (callout_deadline s) deadline xs)
            s)
unfolding insert_loop
insert_loop_lem zero s co deadline prev cur xs c f = elim f [ ]
insert_loop_lem (suc fuel) s co deadline prev cur [] c f = rw c (ground arith)
insert_loop_lem (suc fuel) s co deadline prev cur (x ∷ xs) c f =
    rw c.0 (ground (arith, insert_loop_lem fuel s co deadline x (s.callout x).next xs c.2))

module _ (s : Store) (co : Ptr) (deadline : ℕ) where
  abbrev pub linked : List Ptr → Store
  linked xs =
      link co (prev_of (callout_deadline s) deadline null xs)
        (next_of (callout_deadline s) deadline xs) s

  pub linked_fields :
      (xs : List Ptr) (q : Ptr)
      → (((linked xs).callout q).deadline ≡ (s.callout q).deadline)
        × (((linked xs).callout q).evq ≡ (s.callout q).evq)
        × ((linked xs).timers.waker ≡ s.timers.waker)
        × ((linked xs).woken ≡ s.woken)
  linked_fields xs q =
      let prev = prev_of (callout_deadline s) deadline null xs in
      let cur = next_of (callout_deadline s) deadline xs in
      ground (
        arith,
        link_fields s co prev cur q,
        link-timers_waker s co prev cur,
        link-woken s co prev cur,
      )

  link-Chain :
      (xs : List Ptr)
      → Chain (callout_next s) s.timers.head xs
      → IsDistinct xs
      → has co xs ≡ false
      → co ≢ null
      → Chain
          (callout_next (linked xs))
          (linked xs).timers.head
          (insert_by (callout_deadline s) co deadline xs)
  link-Chain [] c u out some_co =
      (link-head s co null null, some_co, ground (arith, link-next s co null null co))
  link-Chain (x ∷ xs) c u out some_co = elim (Bool-cases (leb (s.callout x).deadline deadline)) [
    | inl e ↦
        let prev = prev_of (callout_deadline s) deadline x xs in
        let t = link co prev (next_of (callout_deadline s) deadline xs) s in
        let some_prev : prev ≢ null =
          mem-ne-null (callout_next s) s.timers.head prev (x ∷ xs) c
            (has-prev_of (callout_deadline s) deadline x xs) in
        let apart : prev ≢ co = ground (arith, has-prev_of (callout_deadline s) deadline x xs) in
        let rest : Chain (callout_next t) s.timers.head
            (x ∷ insert_by (callout_deadline s) co deadline xs) =
          Chain-insert_by (callout_deadline s) deadline (callout_next s) (callout_next t)
            s.timers.head co x xs c u out some_co
            (λ q a b.
              ground (arith, link-next s co prev (next_of (callout_deadline s) deadline xs) q))
            (ground (arith, link-next s co prev (next_of (callout_deadline s) deadline xs) prev))
            (ground (arith, link-next s co prev (next_of (callout_deadline s) deadline xs) co)) in
        let at_head : s.timers.head ≡ t.timers.head =
          ground (arith, link-head s co prev (next_of (callout_deadline s) deadline xs)) in
        rw e (
          subst (λ p. Chain (callout_next t) p (x ∷ insert_by (callout_deadline s) co deadline xs))
            at_head rest)
    | inr e ↦
        let t = link co null x s in
        let rest : Chain (callout_next t) (s.callout x).next xs =
          Chain-frame (callout_next s) (callout_next t) (s.callout x).next xs c.2
            (λ q h. let ne : q ≢ co = ground arith in ground (arith, link-next s co null x q)) in
        let at_x : callout_next t x ≡ (s.callout x).next =
          ground (arith, link-next s co null x x) in
        rw e (
          link-head s co null x,
          some_co,
          (ground (arith, link-next s co null x co), c.1, rw at_x rest),
        )
  ]

-- The list after the insertion of `co`, which was marked active and given its deadline before.
pub insert_loop-IsTimers :
    (fuel : ℕ) (s : Store) (co : Ptr) (deadline : ℕ) (xs : List Ptr)
    → Chain (callout_next s) s.timers.head xs
    → IsDistinct xs
    → IsSorted (callout_deadline s) xs
    → ((p : Ptr) → p ≢ co → (s.callout p).active ≡ has p xs)
    → (s.callout co).active ≡ true
    → (s.callout co).deadline ≡ deadline
    → has co xs ≡ false
    → co ≢ null
    → length xs < fuel
    → (insert_loop fuel co deadline null s.timers.head s ≡ some (linked s co deadline xs))
      × IsTimers (linked s co deadline xs) (insert_by (callout_deadline s) co deadline xs)
insert_loop-IsTimers fuel s co deadline xs c u so others on due out some_co f =
    let d = callout_deadline s in
    let prev = prev_of d deadline null xs in
    let cur = next_of d deadline xs in
    (
      insert_loop_lem fuel s co deadline null s.timers.head xs c f,
      record {
        chain = link-Chain s co deadline xs c u out some_co;
        distinct = IsDistinct-insert_by d deadline co xs u out;
        sorted =
            IsSorted-mono d (callout_deadline (linked s co deadline xs))
              (insert_by d co deadline xs) (λ q h. (link_fields s co prev cur q).0)
              (IsSorted-insert_by d deadline co xs so due);
        active = λ p. elim (Bool-cases (p == co)) [
          | inl e ↦ ground (arith, link_fields s co prev cur p, has-insert_by d deadline p co xs)
          | inr e ↦
              let ne : p ≢ co = ground arith in
              ground
                (arith, link_fields s co prev cur p, has-insert_by d deadline p co xs, others p ne)
        ];
      },
    )
