-- ===== src/Driver/Single.antt =====
-- There is at most one driver.
use nimble_rs.Base.{
  ℕ, zero, suc, ◌≡◌, refl, ap, sym, ◌∙◌, Bool, true, false, List, [], ◌∷◌, if◌then◌else◌, arith,
}
use nimble_rs.Error.{Result, ok, err}
use nimble_rs.Driver.{
  HostC, Slots, Process, init, new, new_with_services, new_with_parker,
  new_with_services_and_parker, drop, port_init, init_up, with_table, add_table, use_parker,
}

-- What an application does: it constructs a driver in one of four ways, or drops one that it has.
pub data Call : Type 0 where
  construct : Call
  construct_with_parker : (parker : ℕ) → Call
  construct_with_services : (defs : ℕ) → Call
  construct_with_both : (defs parker : ℕ) → Call
  drop_driver : Call

module _ {H : Type 0} (c : HostC H) (ealready enomem : ℕ) (peripheral : Bool) where
  -- One more driver, if the construction succeeded.
  abbrev pub counted : ℕ → Result {0} Unit × Process H → ℕ × Process H
  counted live (ok u, p) = (suc live, p)
  counted live (err e, p) = (live, p)

  abbrev pub dropped : ℕ → Process H → ℕ × Process H
  dropped zero p = (zero, p)
  dropped (suc live) p = (live, drop c ealready enomem peripheral p)

  -- The drivers that the application has, and the process.
  abbrev pub call : Call → ℕ × Process H → ℕ × Process H
  call construct (live, p) = counted live (new c ealready enomem peripheral p)
  call (construct_with_parker k) (live, p) =
      counted live (new_with_parker c ealready enomem peripheral k p)
  call (construct_with_services d) (live, p) =
      counted live (new_with_services c ealready enomem peripheral d p)
  call (construct_with_both d k) (live, p) =
      counted live (new_with_services_and_parker c ealready enomem peripheral d k p)
  call drop_driver (live, p) = dropped live p

  abbrev pub calls : List Call → ℕ × Process H → ℕ × Process H
  calls [] s = s
  calls (k ∷ ks) s = calls ks (call k s)

  -- The flag says whether the application has its one driver.
  abbrev pub IsSingle : ℕ × Process H → Type 0
  IsSingle s = s.0 ≡ (if s.1.taken then 1 else 0)

  -- The same of the result of a construction that found the flag clear, or had it refused.
  abbrev IsFirst : Bool → Result {0} Unit × Process H → Type 0
  IsFirst taken (ok u, p) = (taken ≡ false) × (p.taken ≡ true)
  IsFirst taken (err e, p) = p.taken ≡ taken

  chosen :
      (t : Bool) (x y : Result {0} Unit × Process H)
      → IsFirst true x
      → IsFirst false y
      → IsFirst t (if t then x else y)
  chosen true x y h k = h
  chosen false x y h k = k

  init_up-IsFirst :
      (s : Slots) (up : Bool × H) → IsFirst false (init_up c ealready enomem peripheral s up)
  init_up-IsFirst s (true, h) = (refl, refl)
  init_up-IsFirst s (false, h) = refl

  init-IsFirst : (p : Process H) → IsFirst p.taken (init c ealready enomem peripheral p)
  unfolding init
  init-IsFirst p =
      chosen p.taken _ _ refl
        (init_up-IsFirst p.slots (port_init c ealready enomem peripheral p.host))

  with_table-IsFirst :
      (t : Bool) (p : Process H) (r : Result {0} Unit × H)
      → (t ≡ false) × (p.taken ≡ true)
      → IsFirst t (with_table c ealready enomem peripheral p r)
  unfolding drop
  with_table-IsFirst t p (ok u, h) f = f
  with_table-IsFirst t p (err e, h) (clear, up) = sym clear

  add_table-IsFirst :
      (t : Bool) (defs : ℕ) (r : Result {0} Unit × Process H)
      → IsFirst t r
      → IsFirst t (add_table c ealready enomem peripheral defs r)
  add_table-IsFirst t defs (ok u, p) f = with_table-IsFirst t p _ f
  add_table-IsFirst t defs (err e, p) f = f

  use_parker-IsFirst :
      (t : Bool) (k : ℕ) (r : Result {0} Unit × Process H)
      → IsFirst t r
      → IsFirst t (use_parker c ealready enomem peripheral k r)
  use_parker-IsFirst t k (ok u, p) f = f
  use_parker-IsFirst t k (err e, p) f = f

  table-IsFirst :
      (d : ℕ) (p : Process H) → IsFirst p.taken (new_with_services c ealready enomem peripheral d p)
  unfolding new_with_services
  table-IsFirst d p = add_table-IsFirst p.taken d _ (init-IsFirst p)

  counted-IsSingle :
      (live : ℕ) (p : Process H) (r : Result {0} Unit × Process H)
      → IsSingle (live, p)
      → IsFirst p.taken r
      → IsSingle (counted live r)
  counted-IsSingle live p (ok u, q) h (clear, up) = ground arith
  counted-IsSingle live p (err e, q) h same = h ∙ ap (λ b. if b then 1 else 0) (sym same)

  call-IsSingle :
      (k : Call) (live : ℕ) (p : Process H) → IsSingle (live, p) → IsSingle (call k (live, p))
  unfolding new_with_parker new_with_services_and_parker drop
  call-IsSingle construct live p h = counted-IsSingle live p _ h (init-IsFirst p)
  call-IsSingle (construct_with_parker k) live p h =
      counted-IsSingle live p _ h (use_parker-IsFirst p.taken k _ (init-IsFirst p))
  call-IsSingle (construct_with_services d) live p h =
      counted-IsSingle live p _ h (table-IsFirst d p)
  call-IsSingle (construct_with_both d k) live p h =
      counted-IsSingle live p _ h (use_parker-IsFirst p.taken k _ (table-IsFirst d p))
  call-IsSingle drop_driver zero p h = h
  call-IsSingle drop_driver (suc live) p h = ground arith

  -- Whatever drivers an application constructs and drops, in any of the four ways and with any of
  -- the C host's functions failing, it never has two at once, and the flag is set exactly while it
  -- has one: a construction that fails half-way leaves the flag clear.
  pub calls-IsSingle :
      (ks : List Call) (live : ℕ) (p : Process H)
      → IsSingle (live, p)
      → IsSingle (calls ks (live, p))
  calls-IsSingle [] live p h = h
  calls-IsSingle (k ∷ ks) live p h = calls-IsSingle ks _ _ (call-IsSingle k live p h)
