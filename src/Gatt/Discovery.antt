-- ===== src/Gatt/Discovery.antt =====
-- What the client's hook is told of a discovery, nimble-rs/src/gatt/client.rs.
use nimble_rs.Base.{ℕ, ◌≡◌, ◌≢◌, refl, ap, ◌∙◌, Option, none, some, List, [], ◌∷◌, ◌++◌, map}
use mathlib.Core.List.{append_assoc}
use nimble_rs.Uuid.{UuidTypes, as_ptr, from_raw-as_ptr}
use nimble_rs.Gatt.Events.{GattcService, GattcChr, GattcEvent, service_found, characteristic_found}
use nimble_rs.Gatt.Client.{
  RawService, RawChr, Hook, error_status, gattc_service, gattc_chr, then_from, disc_svc_cb,
  disc_chr_cb,
}

-- The reports of a discovery: each item without an error, and then none, with the status that says
-- that the discovery is done.
abbrev pub reports : {R : Type 0} → ℕ → List R → List (Option ℕ × Option R)
reports edone [] = (some edone, none) ∷ []
reports edone (r ∷ rs) = (none, some r) ∷ reports edone rs

-- A hook that records its events in order.
abbrev pub record_event : Hook (List GattcEvent)
record_event e log = log ++ e ∷ []

abbrev pub then_call : {S : Type 0} → (S → Option S) → Option (ℕ × S) → Option S
then_call next none = none
then_call next (some (code, s)) = next s

module _ (types : UuidTypes) (conn_handle : ℕ) where
  -- What the C host passes for a service or a characteristic.
  abbrev pub raw_service : GattcService → RawService
  raw_service s = record {
    start_handle = s.start_handle;
    end_handle = s.end_handle;
    uuid = as_ptr types s.uuid;
  }

  abbrev pub raw_chr : GattcChr → RawChr
  raw_chr c = record {
    def_handle = c.def_handle;
    val_handle = c.val_handle;
    properties = c.properties;
    uuid = as_ptr types c.uuid;
  }

  -- The C host calls back for each report in turn.
  abbrev pub report_services :
      List (Option ℕ × Option RawService) → List GattcEvent → Option (List GattcEvent)
  report_services [] log = some log
  report_services ((error, svc) ∷ rs) log =
      then_call (report_services rs)
        (disc_svc_cb types (some record_event) conn_handle error svc log)

  abbrev pub report_chrs :
      List (Option ℕ × Option RawChr) → List GattcEvent → Option (List GattcEvent)
  report_chrs [] log = some log
  report_chrs ((error, chr) ∷ rs) log =
      then_call (report_chrs rs) (disc_chr_cb types (some record_event) conn_handle error chr log)

  -- The events that are due to the hook.
  abbrev pub service_events : ℕ → List GattcService → List GattcEvent
  service_events edone [] = service_found conn_handle edone none ∷ []
  service_events edone (s ∷ ss) = service_found conn_handle 0 (some s) ∷ service_events edone ss

  abbrev pub chr_events : ℕ → List GattcChr → List GattcEvent
  chr_events edone [] = characteristic_found conn_handle edone none ∷ []
  chr_events edone (c ∷ cs) = characteristic_found conn_handle 0 (some c) ∷ chr_events edone cs

  gattc_service_lem :
      (s : GattcService)
      → types.type_16 ≢ types.type_128
      → gattc_service types (raw_service s) ≡ some s
  unfolding gattc_service
  gattc_service_lem s h = rw (from_raw-as_ptr types s.uuid h) refl

  gattc_chr_lem :
      (c : GattcChr) → types.type_16 ≢ types.type_128 → gattc_chr types (raw_chr c) ≡ some c
  unfolding gattc_chr
  gattc_chr_lem c h = rw (from_raw-as_ptr types c.uuid h) refl

  report_services_lem :
      (edone : ℕ) (ss : List GattcService) (log : List GattcEvent)
      → types.type_16 ≢ types.type_128
      → report_services (reports edone (map raw_service ss)) log
        ≡ some (log ++ service_events edone ss)
  unfolding disc_svc_cb error_status
  report_services_lem edone [] log h = refl
  report_services_lem edone (s ∷ ss) log h =
      rw (gattc_service_lem s h, disc_svc_cb, then_from)
        (report_services_lem edone ss (log ++ service_found conn_handle 0 (some s) ∷ []) h
          ∙ ap some (
              append_assoc log (service_found conn_handle 0 (some s) ∷ [])
                (service_events edone ss)))

  report_chrs_lem :
      (edone : ℕ) (cs : List GattcChr) (log : List GattcEvent)
      → types.type_16 ≢ types.type_128
      → report_chrs (reports edone (map raw_chr cs)) log ≡ some (log ++ chr_events edone cs)
  unfolding disc_chr_cb error_status
  report_chrs_lem edone [] log h = refl
  report_chrs_lem edone (c ∷ cs) log h =
      rw (gattc_chr_lem c h, disc_chr_cb, then_from)
        (report_chrs_lem edone cs (log ++ characteristic_found conn_handle 0 (some c) ∷ []) h
          ∙ ap some (
              append_assoc log (characteristic_found conn_handle 0 (some c) ∷ [])
                (chr_events edone cs)))

  -- A discovery in which the C host reports some services, or characteristics, each with a UUID of either
  -- kind, and then the end: the client's hook is told each of them once, in order, with status 0,
  -- with its handles and its UUID (and properties), and then once that the discovery is done.
  pub discovery-events :
      (edone : ℕ) (ss : List GattcService) (cs : List GattcChr) (log : List GattcEvent)
      → types.type_16 ≢ types.type_128
      → (report_services (reports edone (map raw_service ss)) log
          ≡ some (log ++ service_events edone ss))
        × (report_chrs (reports edone (map raw_chr cs)) log ≡ some (log ++ chr_events edone cs))
  discovery-events edone ss cs log h =
      (report_services_lem edone ss log h, report_chrs_lem edone cs log h)
