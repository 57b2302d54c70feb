-- ===== src/Features/Tables.antt =====
-- The tables of nimble-rs-sys/gen/features.rs: knobs with their reset values, what each Cargo feature
-- sets, and what the C code wants defined besides. A value is the number that its text writes.
use Prim.Native.String.{String}
use nimble_rs.Base.{ℕ, List, [], ◌∷◌}

-- Knobs with values.
abbrev pub Vals : Type 0
Vals = List (String × ℕ)

-- `VAL_UNIVERSE`
abbrev pub val_universe : Vals
val_universe =
    ("BLE_ROLE_BROADCASTER", 0)
    ∷ ("BLE_ROLE_CENTRAL", 0)
    ∷ ("BLE_ROLE_OBSERVER", 0)
    ∷ ("BLE_ROLE_PERIPHERAL", 0)
    ∷ ("LOG_LEVEL", 255)
    ∷ ("BLE_GATTS", 0)
    ∷ ("BLE_GATTC", 0)
    ∷ ("BLE_GATT_CACHING", 0)
    ∷ ("BLE_GATT_CSFC_SIZE", 1)
    ∷ ("BLE_STORE_MAX_CSFCS", 3)
    ∷ ("BLE_EXT_ADV", 0)
    ∷ ("BLE_PERIODIC_ADV", 0)
    ∷ ("BLE_SM_LEGACY", 0)
    ∷ ("BLE_SM_SC", 0)
    ∷ ("BLE_SM_SC_ONLY", 0)
    ∷ ("BLE_HS_PVCY", 1)
    ∷ ("BLE_SM_SIGN_CNT", 1)
    ∷ ("BLE_L2CAP_COC_MAX_NUM", 0)
    ∷ ("BLE_MAX_CONNECTIONS", 4)
    ∷ ("MSYS_1_BLOCK_COUNT", 20)
    ∷ ("BLE_HS_DEBUG", 0)
    ∷ ("BLE_ISO", 0)
    ∷ ("BLE_MESH", 0)
    ∷ ("BLE_EATT_CHAN_NUM", 0)
    ∷ ("BLE_HS_FLOW_CTRL", 0)
    ∷ ("BLE_GATT_BLOB_TRANSFER", 0)
    ∷ ("BLE_QUEUE_CONG_CHECK", 0)
    ∷ ("BLE_CRYPTO_STACK_MBEDTLS", 0)
    ∷ ("BLE_STATIC_TO_DYNAMIC", 0)
    ∷ ("MP_RUNTIME_ALLOC", 0)
    ∷ ("BLE_TRANSPORT_HS__cdc", 0)
    ∷ ("BLE_TRANSPORT_HS__custom", 0)
    ∷ ("BLE_TRANSPORT_HS__dialog_cmac", 0)
    ∷ ("BLE_TRANSPORT_HS__native", 1)
    ∷ ("BLE_TRANSPORT_HS__nrf5340", 0)
    ∷ ("BLE_TRANSPORT_HS__uart", 0)
    ∷ ("BLE_TRANSPORT_HS__usb", 0)
    ∷ ("BLE_TRANSPORT_LL__apollo3", 0)
    ∷ ("BLE_TRANSPORT_LL__custom", 1)
    ∷ ("BLE_TRANSPORT_LL__dialog_cmac", 0)
    ∷ ("BLE_TRANSPORT_LL__emspi", 0)
    ∷ ("BLE_TRANSPORT_LL__native", 0)
    ∷ ("BLE_TRANSPORT_LL__nrf5340", 0)
    ∷ ("BLE_TRANSPORT_LL__socket", 0)
    ∷ []

-- `FEATURE_VALS`
abbrev pub feature_vals : List (String × Vals)
feature_vals =
    ("PERIPHERAL", ("BLE_ROLE_PERIPHERAL", 1) ∷ ("BLE_GATTS", 1) ∷ [])
    ∷ ("BROADCASTER", ("BLE_ROLE_BROADCASTER", 1) ∷ [])
    ∷ ("CENTRAL", ("BLE_ROLE_CENTRAL", 1) ∷ ("BLE_GATTC", 1) ∷ [])
    ∷ ("OBSERVER", ("BLE_ROLE_OBSERVER", 1) ∷ [])
    ∷ ("EXT_ADV", ("BLE_EXT_ADV", 1) ∷ [])
    ∷ ("LOG_LEVEL_ERROR", ("LOG_LEVEL", 3) ∷ [])
    ∷ ("LOG_LEVEL_WARN", ("LOG_LEVEL", 2) ∷ [])
    ∷ ("LOG_LEVEL_INFO", ("LOG_LEVEL", 1) ∷ [])
    ∷ ("LOG_LEVEL_DEBUG", ("LOG_LEVEL", 0) ∷ [])
    ∷ ("SM_SC_ONLY", ("BLE_SM_LEGACY", 0) ∷ ("BLE_SM_SC", 1) ∷ ("BLE_SM_SC_ONLY", 1) ∷ [])
    ∷ ("SM", ("BLE_SM_LEGACY", 1) ∷ ("BLE_SM_SC", 1) ∷ ("BLE_SM_SC_ONLY", 0) ∷ [])
    ∷ []

-- `UPSTREAM_TEST_VALS`
abbrev pub upstream_test_vals : Vals
upstream_test_vals =
    ("SELFTEST", 1)
    ∷ ("BLE_HS_PHONY_HCI_ACKS", 1)
    ∷ ("BLE_HS_REQUIRE_OS", 0)
    ∷ ("BLE_MAX_CONNECTIONS", 8)
    ∷ ("BLE_GATT_MAX_PROCS", 16)
    ∷ ("BLE_SM", 1)
    ∷ ("BLE_SM_LEGACY", 1)
    ∷ ("BLE_SM_SC", 1)
    ∷ ("MSYS_1_BLOCK_COUNT", 100)
    ∷ ("BLE_L2CAP_COC_MAX_NUM", 2)
    ∷ ("BLE_VERSION", 52)
    ∷ ("BLE_L2CAP_ENHANCED_COC", 1)
    ∷ ("BLE_GATTS", 1)
    ∷ ("BLE_GATTC", 1)
    ∷ ("BLE_HS_DEBUG", 1)
    ∷ []

-- The prefix of a family of features, and its knob: `NUMERIC_FAMILIES`
abbrev pub numeric_families : List (String × String)
numeric_families =
    ("L2CAP_COC_", "BLE_L2CAP_COC_MAX_NUM")
    ∷ ("MAX_CONNECTIONS_", "BLE_MAX_CONNECTIONS")
    ∷ ("MSYS_COUNT_", "MSYS_1_BLOCK_COUNT")
    ∷ []

-- `PREBUILT_FEATURES`
abbrev pub prebuilt_features : List String
prebuilt_features = "PERIPHERAL" ∷ "BROADCASTER" ∷ "CENTRAL" ∷ "OBSERVER" ∷ "SM" ∷ []
