-- ===== src/Npl/Critical.antt =====
-- `ble_npl_hw_enter_critical` and its kin of nimble-rs/src/npl.rs: the nesting of the host's critical
-- sections over the one of the `critical-section` crate, whose calls are recorded in `log`.
pub mod Laws
use nimble_rs.Base.{
  ℕ, zero, suc, ◌+◌, ◌-◌, ◌%◌, ◌^◌, Bool, Option, none, some, ◌==◌, if◌then◌else◌, List, [], ◌∷◌,
  ◌++◌,
}

-- The calls of `critical_section::acquire` and `release`, with the restore state that they carry.
pub data CsCall : Type 0 where
  acquired : ℕ → CsCall
  released : ℕ → CsCall

pub record CsState : Type 0 where
  pub owner : ℕ
  pub depth : ℕ
  pub restore : Option ℕ
  pub log : List CsCall

-- `ble_npl_hw_enter_critical` by the context `me`; `token` is what `acquire` would return.
pub enter_critical : ℕ → ℕ → CsState → CsState
enter_critical me token c =
    if c.owner == me
    then record c { depth = (c.depth + 1) % 2 ^ 32 }
    else record { owner = me; depth = 1; restore = some token; log = c.log ++ acquired token ∷ [] }

-- The calls that `ble_npl_hw_exit_critical` makes at depth 0.
pub give_back : Option ℕ → List CsCall → List CsCall
give_back none log = log
give_back (some token) log = log ++ released token ∷ []

-- `ble_npl_hw_exit_critical`
pub exit_critical : CsState → CsState
exit_critical c =
    let depth = (c.depth + 2 ^ 32 - 1) % 2 ^ 32 in
    if depth == 0
    then record { owner = 0; depth = 0; restore = none; log = give_back c.restore c.log }
    else record c { depth = depth }

-- `ble_npl_hw_is_in_critical`
pub is_in_critical : ℕ → CsState → Bool
is_in_critical me c = c.owner == me
