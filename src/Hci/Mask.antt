-- ===== src/Hci/Mask.antt =====
-- `SUPPORTED_CMDS` of nimble-rs/src/hci.rs: the mask that answers `Read Local Supported Commands`.
pub mod Bits
pub mod Laws
use nimble_rs.Base.{ℕ, zero, suc, ◌^◌, ◌||◌, Bool, if◌then◌else◌, List, [], ◌∷◌, ◌++◌}
use Prim.Native.Nat.{bit_or}
use nimble_rs.Hci.Commands.{Features}

-- An octet and a bit in it, `octet / bit` in `set!`.
abbrev pub Position : Type 0
Position = ℕ × ℕ

abbrev pub core_cmds_positions : List Position
core_cmds_positions =
    (5, 7)
    ∷ (5, 6)
    ∷ (22, 2)
    ∷ (25, 0)
    ∷ (14, 3)
    ∷ (14, 4)
    ∷ (14, 5)
    ∷ (15, 1)
    ∷ (25, 1)
    ∷ (25, 2)
    ∷ (27, 7)
    ∷ (25, 4)
    ∷ (26, 1)
    ∷ (35, 1)
    ∷ (34, 5)
    ∷ (34, 3)
    ∷ (34, 4)
    ∷ (39, 2)
    ∷ (35, 2)
    ∷ []

abbrev pub conn_cmds_positions : List Position
conn_cmds_positions =
    (0, 5)
    ∷ (27, 5)
    ∷ (2, 7)
    ∷ (33, 6)
    ∷ (33, 7)
    ∷ (34, 0)
    ∷ (27, 4)
    ∷ (15, 5)
    ∷ (27, 0)
    ∷ (27, 1)
    ∷ (26, 7)
    ∷ (26, 6)
    ∷ []

abbrev pub adv_cmds_positions : List Position
adv_cmds_positions = (25, 5) ∷ (25, 7) ∷ (26, 0) ∷ (25, 6) ∷ []

abbrev pub scan_cmds_positions : List Position
scan_cmds_positions = (26, 2) ∷ (26, 3) ∷ []

abbrev pub central_cmds_positions : List Position
central_cmds_positions = (26, 4) ∷ (26, 5) ∷ (27, 2) ∷ (27, 3) ∷ []

abbrev pub sm_cmds_positions : List Position
sm_cmds_positions = (28, 0) ∷ (28, 1) ∷ (28, 2) ∷ []

-- The arguments of `set!`, in order.
abbrev pub positions : Features → List Position
positions f =
    core_cmds_positions
    ++ (if f.central || f.peripheral then conn_cmds_positions else [])
    ++ (if f.broadcaster then adv_cmds_positions else [])
    ++ (if f.observer then scan_cmds_positions else [])
    ++ (if f.central then central_cmds_positions else [])
    ++ (if f.sm || f.sm_sc_only then sm_cmds_positions else [])

-- `mask[octet] |= 1 << bit`
pub set_bit : ℕ → ℕ → List ℕ → List ℕ
set_bit octet bit [] = []
set_bit zero bit (m ∷ mask) = bit_or m (2 ^ bit) ∷ mask
set_bit (suc octet) bit (m ∷ mask) = m ∷ set_bit octet bit mask

pub set_all : List Position → List ℕ → List ℕ
set_all [] mask = mask
set_all ((octet, bit) ∷ ps) mask = set_all ps (set_bit octet bit mask)

pub zeros : ℕ → List ℕ
zeros zero = []
zeros (suc n) = 0 ∷ zeros n

-- `SUPPORTED_CMDS`
pub supported_cmds : Features → List ℕ
supported_cmds f = set_all (positions f) (zeros 64)
