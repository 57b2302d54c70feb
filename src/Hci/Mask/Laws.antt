-- ===== src/Hci/Mask/Laws.antt =====
-- The mask has a bit for exactly the commands that are dispatched.
use nimble_rs.Base.{
  ℕ, ◌<◌, ◌≡◌, ◌↔◌, refl, ap, sym, subst, ◌∙◌, ◌||◌, ◌&&◌, Bool, true, false, if◌then◌else◌, List,
  [], ◌∷◌, ◌++◌, map, arith, ◌==◌, length, Bool-cases, inl, inr,
}
use nimble_rs.Hci.Commands
use nimble_rs.Hci.Commands.{
  Command, Features, dispatched, conn_cmds, adv_cmds, scan_cmds, central_cmds, sm_cmds,
}
use nimble_rs.Hci.Mask.{
  Position, positions, supported_cmds, core_cmds_positions, conn_cmds_positions, adv_cmds_positions,
  scan_cmds_positions, central_cmds_positions, sm_cmds_positions,
}
use nimble_rs.Hci.Mask.Bits.{bit, has_position, in_range, bit-set_all-zeros, set_all-zeros-length}

-- Where the Core specification puts the bit of a command.
pub position : Command → Position
position Commands.reset = (5, 7)
position Commands.set_event_mask = (5, 6)
position Commands.set_event_mask_page2 = (22, 2)
position Commands.le_set_event_mask = (25, 0)
position Commands.read_local_version_information = (14, 3)
position Commands.read_local_supported_cmds = (14, 4)
position Commands.read_local_supported_features = (14, 5)
position Commands.read_bd_addr = (15, 1)
position Commands.le_read_buffer_size = (25, 1)
position Commands.le_read_local_supported_features = (25, 2)
position Commands.le_rand = (27, 7)
position Commands.le_set_random_addr = (25, 4)
position Commands.le_set_adv_enable = (26, 1)
position Commands.le_set_addr_resolution_enable = (35, 1)
position Commands.le_clear_resolving_list = (34, 5)
position Commands.le_add_device_to_resolving_list = (34, 3)
position Commands.le_remove_device_from_resolving_list = (34, 4)
position Commands.le_set_privacy_mode = (39, 2)
position Commands.le_set_resolvable_private_addr_timeout = (35, 2)
position Commands.disconnect = (0, 5)
position Commands.le_read_remote_features = (27, 5)
position Commands.read_remote_version_information = (2, 7)
position Commands.le_set_data_length = (33, 6)
position Commands.le_read_suggested_default_data_length = (33, 7)
position Commands.le_write_suggested_default_data_length = (34, 0)
position Commands.le_read_channel_map = (27, 4)
position Commands.read_rssi = (15, 5)
position Commands.le_add_device_to_filter_accept_list = (27, 0)
position Commands.le_remove_device_from_filter_accept_list = (27, 1)
position Commands.le_clear_filter_accept_list = (26, 7)
position Commands.le_read_filter_accept_list_size = (26, 6)
position Commands.le_set_adv_params = (25, 5)
position Commands.le_set_adv_data = (25, 7)
position Commands.le_set_scan_response_data = (26, 0)
position Commands.le_read_adv_physical_channel_tx_power = (25, 6)
position Commands.le_set_scan_params = (26, 2)
position Commands.le_set_scan_enable = (26, 3)
position Commands.le_create_conn = (26, 4)
position Commands.le_create_conn_cancel = (26, 5)
position Commands.le_conn_update = (27, 2)
position Commands.le_set_host_channel_classification = (27, 3)
position Commands.le_enable_encryption = (28, 0)
position Commands.le_long_term_key_request_reply = (28, 1)
position Commands.le_long_term_key_request_negative_reply = (28, 2)

-- The command is one of the list.
pub data Among (c : Command) : List Command → Type 0 where
  here : {cs : List Command} → Among c (c ∷ cs)
  later : {d : Command} {cs : List Command} → Among c cs → Among c (d ∷ cs)

sm_map :
    (s : Bool) → map position ((if s then sm_cmds else [])) ≡ (if s then sm_cmds_positions else [])
unfolding position
sm_map true = refl
sm_map false = refl

central_map :
    (c s : Bool)
    → map position ((if c then central_cmds else []) ++ (if s then sm_cmds else []))
      ≡ (if c then central_cmds_positions else []) ++ (if s then sm_cmds_positions else [])
unfolding position
central_map true s = ap (λ ps. central_cmds_positions ++ ps) (sm_map s)
central_map false s = sm_map s

scan_map :
    (o c s : Bool)
    → map position (
        (if o then scan_cmds else [])
        ++ (if c then central_cmds else [])
        ++ (if s then sm_cmds else []))
      ≡ (if o then scan_cmds_positions else [])
        ++ (if c then central_cmds_positions else [])
        ++ (if s then sm_cmds_positions else [])
unfolding position
scan_map true c s = ap (λ ps. scan_cmds_positions ++ ps) (central_map c s)
scan_map false c s = central_map c s

adv_map :
    (b o c s : Bool)
    → map position (
        (if b then adv_cmds else [])
        ++ (if o then scan_cmds else [])
        ++ (if c then central_cmds else [])
        ++ (if s then sm_cmds else []))
      ≡ (if b then adv_cmds_positions else [])
        ++ (if o then scan_cmds_positions else [])
        ++ (if c then central_cmds_positions else [])
        ++ (if s then sm_cmds_positions else [])
unfolding position
adv_map true o c s = ap (λ ps. adv_cmds_positions ++ ps) (scan_map o c s)
adv_map false o c s = scan_map o c s

conn_map :
    (n b o c s : Bool)
    → map position (
        (if n then conn_cmds else [])
        ++ (if b then adv_cmds else [])
        ++ (if o then scan_cmds else [])
        ++ (if c then central_cmds else [])
        ++ (if s then sm_cmds else []))
      ≡ (if n then conn_cmds_positions else [])
        ++ (if b then adv_cmds_positions else [])
        ++ (if o then scan_cmds_positions else [])
        ++ (if c then central_cmds_positions else [])
        ++ (if s then sm_cmds_positions else [])
unfolding position
conn_map true b o c s = ap (λ ps. conn_cmds_positions ++ ps) (adv_map b o c s)
conn_map false b o c s = adv_map b o c s

-- The positions are those of the dispatched commands, in order.
positions-dispatched : (f : Features) → map position (dispatched f) ≡ positions f
unfolding position
positions-dispatched f =
    ap (λ ps. core_cmds_positions ++ ps)
      (conn_map (f.central || f.peripheral) f.broadcaster f.observer f.central
        (f.sm || f.sm_sc_only))

sm_in_range : (s : Bool) → in_range ((if s then sm_cmds_positions else [])) ≡ true
sm_in_range true = refl
sm_in_range false = refl

central_in_range :
    (c s : Bool)
    → in_range ((if c then central_cmds_positions else []) ++ (if s then sm_cmds_positions else []))
      ≡ true
central_in_range true s = sm_in_range s
central_in_range false s = sm_in_range s

scan_in_range :
    (o c s : Bool)
    → in_range (
        (if o then scan_cmds_positions else [])
        ++ (if c then central_cmds_positions else [])
        ++ (if s then sm_cmds_positions else []))
      ≡ true
scan_in_range true c s = central_in_range c s
scan_in_range false c s = central_in_range c s

adv_in_range :
    (b o c s : Bool)
    → in_range (
        (if b then adv_cmds_positions else [])
        ++ (if o then scan_cmds_positions else [])
        ++ (if c then central_cmds_positions else [])
        ++ (if s then sm_cmds_positions else []))
      ≡ true
adv_in_range true o c s = scan_in_range o c s
adv_in_range false o c s = scan_in_range o c s

conn_in_range :
    (n b o c s : Bool)
    → in_range (
        (if n then conn_cmds_positions else [])
        ++ (if b then adv_cmds_positions else [])
        ++ (if o then scan_cmds_positions else [])
        ++ (if c then central_cmds_positions else [])
        ++ (if s then sm_cmds_positions else []))
      ≡ true
conn_in_range true b o c s = adv_in_range b o c s
conn_in_range false b o c s = adv_in_range b o c s

positions-in_range : (f : Features) → in_range (positions f) ≡ true
positions-in_range f =
    conn_in_range (f.central || f.peripheral) f.broadcaster f.observer f.central
      (f.sm || f.sm_sc_only)

found :
    (o b : ℕ) (cs : List Command)
    → has_position o b (map position cs) ≡ true
    → (c : Command) × Among c cs × (position c ≡ (o, b))
found o b [] h = cc
found o b (c ∷ cs) h = elim (Bool-cases (o == (position c).0 && b == (position c).1)) [
  | inl e ↦
      let octets : (position c).0 ≡ o = ground arith in
      let bits : (position c).1 ≡ b = ground arith in (c, here, λ i. (octets i, bits i))
  | inr e ↦ let (d, m, at) = found o b cs (ground arith) in (d, later m, at)
]

finds :
    (o b : ℕ) (c : Command) (cs : List Command)
    → Among c cs
    → position c ≡ (o, b)
    → has_position o b (map position cs) ≡ true
finds o b c _ here h =
    let octets : (position c).0 ≡ o = ap (λ p. p.0) h in
    let bits : (position c).1 ≡ b = ap (λ p. p.1) h in ground arith
finds o b c _ (later {d} {cs} m) h = let rest = finds o b c cs m h in ground arith

-- A bit of the mask that answers Read Local Supported Commands is set exactly if it is the bit
-- of a command that the dispatcher forwards or answers in the same configuration.
pub supported_cmds-dispatched :
    (f : Features) (o b : ℕ)
    → b < 8
    → (bit o b (supported_cmds f) ≡ true)
      ↔ ((c : Command) × Among c (dispatched f) × (position c ≡ (o, b)))
unfolding supported_cmds
supported_cmds-dispatched f o b hb =
    let e = bit-set_all-zeros o b (positions f) (positions-in_range f) hb in
    (
      λ h.
          found o b (dispatched f)
            (subst (λ ps. has_position o b ps ≡ true) (sym (positions-dispatched f)) (sym e ∙ h)),
      λ (c, m, at).
          e
          ∙ subst (λ ps. has_position o b ps ≡ true) (positions-dispatched f)
              (finds o b c (dispatched f) m at),
    )

pub supported_cmds-length : (f : Features) → length (supported_cmds f) ≡ 64
unfolding supported_cmds
supported_cmds-length f = set_all-zeros-length 64 (positions f) (positions-in_range f)
