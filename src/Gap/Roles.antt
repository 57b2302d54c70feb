-- ===== src/Gap/Roles.antt =====
-- Which hook an event reaches.
use nimble_rs.Base.{ℕ, some, List, ◌∷◌}
use nimble_rs.Gatt.Events.{GattsEvent, GattcEvent}
use nimble_rs.Gap.{GapEvent, Hooks}

-- The hooks, by their role.
pub data Role : Type 0 where
  link : GapEvent → Role
  server : GattsEvent → Role
  client : GattcEvent → Role

-- Hooks that record what they are given; the codes that they return are arbitrary.
abbrev pub recording : (GapEvent → ℕ) → (GattsEvent → ℕ) → Hooks (List Role)
recording link_code server_code = record {
  gap = some (λ e log. (link_code e, link e ∷ log));
  gatts = some (λ e log. (server_code e, server e ∷ log));
  gattc = some (λ e log. client e ∷ log);
}
