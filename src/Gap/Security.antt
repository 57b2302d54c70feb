-- ===== src/Gap/Security.antt =====
-- What a sequence of calls of `Ble::set_security`, nimble-rs/src/gap.rs, leaves in `ble_hs_cfg`.
use nimble_rs.Base.{◌≡◌, refl, Bool, false, ◌||◌, List, [], ◌∷◌, ◌++◌, arith, if◌then◌else◌}
use nimble_rs.Gap.Params.{bit}
use nimble_rs.Gap.Ops.{BleSecurity, SmCfg, set_security}

-- The calls in order.
abbrev pub set_all : List BleSecurity → SmCfg → SmCfg
set_all [] cfg = cfg
set_all (s ∷ ss) cfg = set_all ss (set_security s cfg)

-- Whether a call asks for bonding.
abbrev pub any_bonding : List BleSecurity → Bool
any_bonding [] = false
any_bonding (s ∷ ss) = s.bonding || any_bonding ss

key_dist :
    (ss : List BleSecurity) (cfg : SmCfg)
    → ((set_all ss cfg).sm_our_key_dist ≡ (if any_bonding ss then 3 else cfg.sm_our_key_dist))
      × ((set_all ss cfg).sm_their_key_dist ≡ (if any_bonding ss then 3 else cfg.sm_their_key_dist))
unfolding set_security
key_dist [] cfg = (refl, refl)
key_dist (s ∷ ss) cfg = ground (arith, key_dist ss (set_security s cfg))

set_all-last :
    (ss : List BleSecurity) (s : BleSecurity) (cfg : SmCfg)
    → set_all (ss ++ s ∷ []) cfg ≡ set_security s (set_all ss cfg)
set_all-last [] s cfg = refl
set_all-last (t ∷ ss) s cfg = set_all-last ss s (set_security t cfg)

-- After any calls and a last one, the capabilities and the bits for bonding, MITM protection and Secure
-- Connections are those of the last call; but the keys to distribute are both for both sides as
-- soon as any of the calls asked for bonding, and what they were at first only if none did.
pub set_security-sequence :
    (ss : List BleSecurity) (s : BleSecurity) (cfg : SmCfg)
    → set_all (ss ++ s ∷ []) cfg ≡ record {
      sm_io_cap = s.io_cap;
      sm_bonding = bit s.bonding;
      sm_mitm = bit s.mitm;
      sm_sc = bit s.sc;
      sm_our_key_dist = if s.bonding || any_bonding ss then 3 else cfg.sm_our_key_dist;
      sm_their_key_dist = if s.bonding || any_bonding ss then 3 else cfg.sm_their_key_dist;
    }
unfolding set_security
set_security-sequence ss s cfg = ground (arith, set_all-last ss s cfg, key_dist ss cfg)
