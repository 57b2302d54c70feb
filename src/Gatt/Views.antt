-- ===== src/Gatt/Views.antt =====
-- What a reader finds in a service table that goes on until it meets a terminator, in a runtime table
-- and in a static one.
use nimble_rs.Base.{
  ℕ, zero, suc, ◌+◌, ◌<◌, ◌≡◌, ◌≢◌, refl, ◌∙◌, Bool, true, false, Option, none, some, List, [], ◌∷◌,
  length, if◌then◌else◌, ◌==◌, arith,
}
use nimble_rs.Error.{ok}
use nimble_rs.Gatt.{
  BleGattCharacteristic, BleGattService, BleGattServices, ChrDef, flags_to_repr, total_chars,
  has_memory, new,
}
use nimble_rs.Gatt.Chrs.{HasChrs}
use nimble_rs.Gatt.Table.{HasServices, new-HasServices}
use nimble_rs.Gatt.Static.{StaticChr, StaticSvc, make_chr, chrs, make_svc, gatt_services}

pub record ChrView : Type 0 where
  pub uuid : ℕ
  pub access_cb : Bool
  pub flags : ℕ

pub record SvcView : Type 0 where
  pub type_ : ℕ
  pub uuid : ℕ
  pub characteristics : List ChrView

abbrev pub cons_view {ℓ} : {A : Type ℓ} → A → Option (List A) → Option (List A)
cons_view x none = none
cons_view x (some xs) = some (x ∷ xs)

-- The characteristics from a definition on, up to one with no UUID; the reading runs on fuel.
abbrev chr_after :
    (ℕ → BleGattCharacteristic) → ChrDef → Option ℕ → Option (List ChrView) → Option (List ChrView)
chr_after chars d none rest = some []
chr_after chars d (some at) rest =
    cons_view (record { uuid = (chars at).uuid; access_cb = d.access_cb; flags = d.flags }) rest

pub view_chrs : ℕ → BleGattServices → ℕ → Option (List ChrView)
view_chrs zero t at = none
view_chrs (suc fuel) t at =
    chr_after t.chars.item (t.chr_defs.item at) (t.chr_defs.item at).uuid
      (view_chrs fuel t (at + 1))

abbrev svc_after : ℕ → ℕ → Option (List ChrView) → Option (List SvcView) → Option (List SvcView)
svc_after type_ uuid none rest = none
svc_after type_ uuid (some cs) rest =
    cons_view (record { type_ = type_; uuid = uuid; characteristics = cs }) rest

-- A service by its UUID and the place of its characteristics, if it has both.
abbrev svc_read :
    ℕ → BleGattServices → ℕ → Option ℕ → Option ℕ → Option (List SvcView) → Option (List SvcView)
svc_read fuel t type_ none cs rest = none
svc_read fuel t type_ (some u) none rest = none
svc_read fuel t type_ (some u) (some at) rest =
    svc_after type_ (t.svc_uuids.item u) (view_chrs fuel t at) rest

-- The services from a place on, up to one of type 0.
pub view_table : ℕ → BleGattServices → ℕ → Option (List SvcView)
view_table zero t at = none
view_table (suc fuel) t at =
    let d = t.svc_defs.item at in
    let rest = view_table fuel t (at + 1) in
    if d.type_ == 0 then some [] else svc_read fuel t d.type_ d.uuid d.characteristics rest

abbrev static_after : StaticChr → Option ℕ → List ChrView → List ChrView
static_after c none rest = []
static_after c (some u) rest = record { uuid = u; access_cb = c.access_cb; flags = c.flags } ∷ rest

-- The same of a static table.
pub view_static_chrs : List StaticChr → List ChrView
view_static_chrs [] = []
view_static_chrs (c ∷ cs) = static_after c c.uuid (view_static_chrs cs)

abbrev static_svc :
    ℕ → Option ℕ → Option (List StaticChr) → Option (List SvcView) → Option (List SvcView)
static_svc type_ none cs rest = none
static_svc type_ (some u) none rest = none
static_svc type_ (some u) (some cs) rest =
    cons_view (record { type_ = type_; uuid = u; characteristics = view_static_chrs cs }) rest

pub view_static : List StaticSvc → Option (List SvcView)
view_static [] = none
view_static (s ∷ ss) =
    let rest = view_static ss in
    if s.type_ == 0 then some [] else static_svc s.type_ s.uuid s.characteristics rest

view_chrs-static :
    (cs : List BleGattCharacteristic) (t : BleGattServices) (fuel char_at def_at : ℕ)
    → HasChrs t char_at def_at cs
    → length cs < fuel
    → view_chrs fuel t def_at ≡ some (view_static_chrs (chrs cs))
unfolding view_chrs view_static_chrs chrs make_chr
view_chrs-static cs t zero char_at def_at h enough = absurd (omega arith)
view_chrs-static [] t (suc fuel) char_at def_at h enough = rw h refl
view_chrs-static (c ∷ cs) t (suc fuel) char_at def_at (d, k, h) enough =
    rw (d, k, view_chrs-static cs t fuel (char_at + 1) (def_at + 1) h (omega arith)) refl

-- The characteristics of a service, as they are to be read.
abbrev pub described_chrs : List BleGattCharacteristic → List ChrView
described_chrs [] = []
described_chrs (c ∷ cs) =
    record { uuid = c.uuid; access_cb = true; flags = flags_to_repr c.flags 0 } ∷ described_chrs cs

chrs-described : (cs : List BleGattCharacteristic) → view_static_chrs (chrs cs) ≡ described_chrs cs
unfolding view_static_chrs chrs make_chr
chrs-described [] = refl
chrs-described (c ∷ cs) = rw (chrs-described cs) refl

module _ (type_primary type_secondary : ℕ) where
  view_table-static :
      (ss : List BleGattService) (t : BleGattServices) (fuel svc_at char_at def_at : ℕ)
      → type_primary ≢ 0
      → type_secondary ≢ 0
      → HasServices type_primary type_secondary t svc_at char_at def_at ss
      → length ss + total_chars ss < fuel
      → view_table fuel t svc_at ≡ view_static (gatt_services type_primary type_secondary ss)
  unfolding view_table view_static gatt_services make_svc
  view_table-static ss t zero svc_at char_at def_at p s h enough = absurd (omega arith)
  view_table-static [] t (suc fuel) svc_at char_at def_at p s h enough = rw h refl
  view_table-static (x ∷ ss) t (suc fuel) svc_at char_at def_at p s (d, u, cs, h) enough =
      let live : ((if x.primary then type_primary else type_secondary) == 0) ≡ false =
        ground arith in
      rw
        (
          d,
          live,
          u,
          view_chrs-static x.characteristics t fuel char_at def_at cs (omega arith),
          view_table-static ss t fuel (svc_at + 1) (char_at + length x.characteristics)
              (def_at + length x.characteristics + 1) p s h (omega arith),
        )
        refl

  -- The services, as they are to be read.
  abbrev pub described : List BleGattService → List SvcView
  described [] = []
  described (s ∷ ss) =
      record {
        type_ = if s.primary then type_primary else type_secondary;
        uuid = s.uuid;
        characteristics = described_chrs s.characteristics;
      }
      ∷ described ss

  gatt_services-described :
      (ss : List BleGattService)
      → type_primary ≢ 0
      → type_secondary ≢ 0
      → view_static (gatt_services type_primary type_secondary ss) ≡ some (described ss)
  unfolding view_static gatt_services make_svc
  gatt_services-described [] p s = refl
  gatt_services-described (x ∷ ss) p s =
      let live : ((if x.primary then type_primary else type_secondary) == 0) ≡ false =
        ground arith in
      rw (live, gatt_services-described ss p s, chrs-described x.characteristics) refl

  -- A table that `BleGattServices::new` builds and the one that `gatt_services!` expands to, for the same
  -- services, both read as these services up to their terminators, with their types, UUIDs and
  -- characteristics, in order, each characteristic with the access callback and its flags or-ed
  -- together. This is for heaps that grant the memory, and types of services other than 0. One unit
  -- of fuel more than there are services and characteristics is enough to read the table.
  pub new-gatt_services :
      (enomem : ℕ) (granted : ℕ → Bool) (services : List BleGattService) (fuel : ℕ)
      → type_primary ≢ 0
      → type_secondary ≢ 0
      → has_memory granted services ≡ true
      → length services + total_chars services < fuel
      → (t : BleGattServices) × (new type_primary type_secondary enomem granted services
          ≡ some (ok t))
        × (view_table fuel t 0 ≡ some (described services))
        × (view_static (gatt_services type_primary type_secondary services)
            ≡ some (described services))
  new-gatt_services enomem granted services fuel p s memory enough =
      let (t, e, h) = new-HasServices type_primary type_secondary enomem granted services memory in
      let same = gatt_services-described services p s in
      (t, e, view_table-static services t fuel 0 0 0 p s h enough ∙ same, same)
