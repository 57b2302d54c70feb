-- ===== src/Gatt/Heap.antt =====
-- The memory of a runtime service table: `CSlice` of nimble-rs/src/mem.rs on the C heap, the allocations
-- of `BleGattServices::new` in nimble-rs/src/gatt/server.rs with the drops of an early return, and the
-- drop of the table. The heap's hooks are parameters.
use nimble_rs.Base.{ℕ, ◌+◌, if◌then◌else◌, ltb, ◌==◌}
use nimble_rs.Error.{Result, ok, err}

-- `nimble_platform_mem_*`, over the state of the C heap.
pub record HeapHooks (M : Type 0) : Type 0 where
  pub nimble_platform_mem_calloc : (nmemb size : ℕ) → M → ℕ × M
  pub nimble_platform_mem_free : ℕ → M → M

-- `CSlice`, by where it stands and how long it is.
pub record Block : Type 0 where
  pub ptr : ℕ
  pub len : ℕ

-- `NonNull::dangling`
abbrev pub dangling : ℕ
dangling = 1

-- The blocks of `BleGattServices`, in the order of its fields.
pub record TableBlocks : Type 0 where
  pub chars : Block
  pub svc_uuids : Block
  pub chr_defs : Block
  pub svc_defs : Block

-- `size_of` of what the slices hold.
pub record Sizes : Type 0 where
  pub characteristic : ℕ
  pub uuid : ℕ
  pub chr_def : ℕ
  pub svc_def : ℕ

module _ {M : Type 0} (hooks : HeapHooks M) where
  -- `Drop for CSlice`
  unfoldable pub drop_block : Block → M → M
  drop_block b m = if ltb 0 b.len then hooks.nimble_platform_mem_free b.ptr m else m

  -- The drop of a `BleGattServices`, field by field.
  unfoldable pub drop_table : TableBlocks → M → M
  drop_table t m =
      drop_block t.svc_defs (drop_block t.chr_defs (drop_block t.svc_uuids (drop_block t.chars m)))

  -- The end of what an attempt to build a table made.
  abbrev pub ended : Result TableBlocks × M → M
  ended (ok t, n) = drop_table t n
  ended (err e, n) = n

module _ {M : Type 0} (hooks : HeapHooks M) (enomem : ℕ) where
  abbrev pub granted : ℕ → ℕ × M → Result Block × M
  granted len (ptr, m) =
      if ptr == 0 then (err enomem, m) else (ok (record { ptr = ptr; len = len }), m)

  -- `CSlice::new_zeroed`
  unfoldable pub new_zeroed : (size len : ℕ) → M → Result Block × M
  new_zeroed size len m =
      if len == 0
      then (ok (record { ptr = dangling; len = 0 }), m)
      else granted len (hooks.nimble_platform_mem_calloc len size m)

  -- `let x = x?`: what runs with the block, or the drops of the locals before it.
  abbrev pub with_block {ℓ} :
      {A : Type ℓ} → (Block → M → Result A × M) → (M → M) → Result Block × M → Result A × M
  with_block next drops (ok b, m) = next b m
  with_block next drops (err e, m) = (err e, drops m)

  module _ (sizes : Sizes) (services total_chars : ℕ) where
    -- The allocations of `BleGattServices::new`, from the last on.
    abbrev pub alloc_svc_defs : (chars svc_uuids chr_defs : Block) → M → Result TableBlocks × M
    alloc_svc_defs chars svc_uuids chr_defs m =
        with_block
          (λ svc_defs. λ n. (
            ok (record {
              chars = chars;
              svc_uuids = svc_uuids;
              chr_defs = chr_defs;
              svc_defs = svc_defs;
            }),
            n,
          ))
          (λ n. drop_block hooks chars (drop_block hooks svc_uuids (drop_block hooks chr_defs n)))
          (new_zeroed sizes.svc_def (services + 1) m)

    abbrev pub alloc_chr_defs : (chars svc_uuids : Block) → M → Result TableBlocks × M
    alloc_chr_defs chars svc_uuids m =
        with_block (alloc_svc_defs chars svc_uuids)
          (λ n. drop_block hooks chars (drop_block hooks svc_uuids n))
          (new_zeroed sizes.chr_def (total_chars + services) m)

    abbrev pub alloc_svc_uuids : Block → M → Result TableBlocks × M
    alloc_svc_uuids chars m =
        with_block (alloc_chr_defs chars) (λ n. drop_block hooks chars n)
          (new_zeroed sizes.uuid services m)

    -- All four, for the number of services and that of their characteristics together.
    unfoldable pub alloc_table : M → Result TableBlocks × M
    alloc_table m =
        with_block alloc_svc_uuids (λ n. n) (new_zeroed sizes.characteristic total_chars m)
