-- ===== src/Gatt/Leaks.antt =====
-- No block of a service table leaks, and none is freed twice.
use nimble_rs.Base.{
  ℕ, ◌+◌, ◌<◌, ◌≡◌, ◌≢◌, refl, ◌∙◌, if◌then◌else◌, ltb, ◌==◌, ◌&&◌, arith, Bool-cases, inl, inr,
}
use nimble_rs.Error.{Result, ok, err}
use nimble_rs.Gatt.Heap.{
  HeapHooks, Block, TableBlocks, Sizes, granted, new_zeroed, drop_block, with_block, alloc_svc_defs,
  alloc_chr_defs, alloc_svc_uuids, alloc_table, drop_table, ended,
}

module _ {M : Type 0} (hooks : HeapHooks M) (live : M → ℕ → ℕ) (enomem : ℕ) where
  -- What is documented of the heap, where `live` counts the blocks at an address: a grant adds one, a
  -- refusal none, and a free takes away one that is there. Of a free of another address nothing is
  -- known.
  pub record Contract : Type 0 where
    pub grants :
        (nmemb size : ℕ) (m : M)
        → (hooks.nimble_platform_mem_calloc nmemb size m).0 ≢ 0
        → (q : ℕ)
        → live (hooks.nimble_platform_mem_calloc nmemb size m).1 q
          ≡ live m q + (if q == (hooks.nimble_platform_mem_calloc nmemb size m).0 then 1 else 0)
    pub refuses :
        (nmemb size : ℕ) (m : M)
        → (hooks.nimble_platform_mem_calloc nmemb size m).0 ≡ 0
        → (q : ℕ) → live (hooks.nimble_platform_mem_calloc nmemb size m).1 q ≡ live m q
    pub frees :
        (p : ℕ) (m : M)
        → 0 < live m p
        → (q : ℕ)
        → live (hooks.nimble_platform_mem_free p m) q + (if q == p then 1 else 0) ≡ live m q

  -- The blocks that a slice holds at an address.
  abbrev held : Block → ℕ → ℕ
  held b q = if ltb 0 b.len && q == b.ptr then 1 else 0

  -- What an allocation leaves, where the blocks before it are counted by `f`.
  abbrev After : (ℕ → ℕ) → Result Block × M → Type 0
  After f (ok b, n) = (q : ℕ) → live n q ≡ f q + held b q
  After f (err e, n) = (q : ℕ) → live n q ≡ f q

  granted-After :
      (f : ℕ → ℕ) (size len : ℕ) (m : M)
      → Contract
      → len ≢ 0
      → ((q : ℕ) → live m q ≡ f q)
      → After f (granted hooks enomem len (hooks.nimble_platform_mem_calloc len size m))
  granted-After f size len m c some_len h =
      let r = hooks.nimble_platform_mem_calloc len size m in
      elim (Bool-cases (r.0 == 0)) [
        | inl e ↦ rw (e, granted) (λ q. c.refuses len size m (ground arith) q ∙ h q)
        | inr e ↦ rw (e, granted) (λ q. ground (arith, c.grants len size m (ground arith) q, h q))
      ]

  new_zeroed-After :
      (f : ℕ → ℕ) (size len : ℕ) (m : M)
      → Contract
      → ((q : ℕ) → live m q ≡ f q)
      → After f (new_zeroed hooks enomem size len m)
  unfolding new_zeroed
  new_zeroed-After f size len m c h = elim (Bool-cases (len == 0)) [
    | inl e ↦ rw e (λ q. ground (arith, h q))
    | inr e ↦ rw e (granted-After f size len m c (ground arith) h)
  ]

  -- A block that is dropped is taken off the count.
  drop_block-lem :
      (f : ℕ → ℕ) (b : Block) (n : M)
      → Contract
      → ((q : ℕ) → live n q ≡ f q + held b q)
      → (q : ℕ) → live (drop_block hooks b n) q ≡ f q
  unfolding drop_block
  drop_block-lem f b n c h q = elim (Bool-cases (ltb 0 b.len)) [
    | inl e ↦
        let there : 0 < live n b.ptr = ground (arith, h b.ptr) in
        rw e (ground (arith, c.frees b.ptr n there q, h q))
    | inr e ↦ rw e (ground (arith, h q))
  ]

  -- The blocks of a table.
  abbrev table_held : TableBlocks → ℕ → ℕ
  table_held t q = held t.chars q + held t.svc_uuids q + held t.chr_defs q + held t.svc_defs q

  abbrev TableAfter : (ℕ → ℕ) → Result TableBlocks × M → Type 0
  TableAfter f (ok t, n) = (q : ℕ) → live n q ≡ f q + table_held t q
  TableAfter f (err e, n) = (q : ℕ) → live n q ≡ f q

  with_block-lem :
      (f g : ℕ → ℕ) (next : Block → M → Result TableBlocks × M) (drops : M → M)
      (r : Result Block × M)
      → After g r
      → ((b : Block) (n : M) → ((q : ℕ) → live n q ≡ g q + held b q) → TableAfter f (next b n))
      → ((n : M) → ((q : ℕ) → live n q ≡ g q) → (q : ℕ) → live (drops n) q ≡ f q)
      → TableAfter f (with_block hooks enomem next drops r)
  with_block-lem f g next drops (ok b, n) a ok_case err_case = ok_case b n a
  with_block-lem f g next drops (err e, n) a ok_case err_case = err_case n a

  module _ (sizes : Sizes) (services total_chars : ℕ) (c : Contract) (f : ℕ → ℕ) where
    svc_defs-TableAfter :
        (a b d : Block) (m : M)
        → ((q : ℕ) → live m q ≡ f q + held a q + held b q + held d q)
        → TableAfter f (alloc_svc_defs hooks enomem sizes services total_chars a b d m)
    svc_defs-TableAfter a b d m h =
        with_block-lem f (λ q. f q + held a q + held b q + held d q) _ _
          (new_zeroed hooks enomem sizes.svc_def (services + 1) m)
          (new_zeroed-After (λ q. f q + held a q + held b q + held d q) sizes.svc_def (services + 1)
            m c h)
          (λ e n k q. omega (arith, k q))
          (λ n k. drop_block-lem f a _ c (
            drop_block-lem (λ q. f q + held a q) b _ c
              (drop_block-lem (λ q. f q + held a q + held b q) d n c k)))

    chr_defs-TableAfter :
        (a b : Block) (m : M)
        → ((q : ℕ) → live m q ≡ f q + held a q + held b q)
        → TableAfter f (alloc_chr_defs hooks enomem sizes services total_chars a b m)
    chr_defs-TableAfter a b m h =
        with_block-lem f (λ q. f q + held a q + held b q) _ _
          (new_zeroed hooks enomem sizes.chr_def (total_chars + services) m)
          (new_zeroed-After (λ q. f q + held a q + held b q) sizes.chr_def (total_chars + services)
            m c h)
          (svc_defs-TableAfter a b)
          (λ n k. drop_block-lem f a _ c (drop_block-lem (λ q. f q + held a q) b n c k))

    svc_uuids-TableAfter :
        (a : Block) (m : M)
        → ((q : ℕ) → live m q ≡ f q + held a q)
        → TableAfter f (alloc_svc_uuids hooks enomem sizes services total_chars a m)
    svc_uuids-TableAfter a m h =
        with_block-lem f (λ q. f q + held a q) _ _ (new_zeroed hooks enomem sizes.uuid services m)
          (new_zeroed-After (λ q. f q + held a q) sizes.uuid services m c h) (chr_defs-TableAfter a)
          (λ n k. drop_block-lem f a n c k)

    alloc_table-TableAfter :
        (m : M)
        → ((q : ℕ) → live m q ≡ f q)
        → TableAfter f (alloc_table hooks enomem sizes services total_chars m)
    unfolding alloc_table
    alloc_table-TableAfter m h =
        with_block-lem f f _ _ (new_zeroed hooks enomem sizes.characteristic total_chars m)
          (new_zeroed-After f sizes.characteristic total_chars m c h) svc_uuids-TableAfter
          (λ n k. k)

    drop_table-lem :
        (t : TableBlocks) (n : M)
        → ((q : ℕ) → live n q ≡ f q + table_held t q)
        → (q : ℕ) → live (drop_table hooks t n) q ≡ f q
    unfolding drop_table
    drop_table-lem t n h =
        let f3 = λ (q : ℕ). f q + held t.svc_defs q in
        let f2 = λ (q : ℕ). f3 q + held t.chr_defs q in
        let f1 = λ (q : ℕ). f2 q + held t.svc_uuids q in
        drop_block-lem f t.svc_defs _ c (
          drop_block-lem f3 t.chr_defs _ c (
            drop_block-lem f2 t.svc_uuids _ c
              (drop_block-lem f1 t.chars n c (λ q. omega (arith, h q)))))

  ended-TableAfter :
      (sizes : Sizes) (services total_chars : ℕ) (f : ℕ → ℕ) (r : Result TableBlocks × M)
      → Contract
      → TableAfter f r
      → (q : ℕ) → live (ended hooks r) q ≡ f q
  ended-TableAfter sizes services total_chars f (ok t, n) c a =
      drop_table-lem sizes services total_chars c f t n a
  ended-TableAfter sizes services total_chars f (err e, n) c a = a

  -- If the heap refuses a slice of a table, every slice that was granted before is freed, exactly once;
  -- and if it grants all, the drop of the table frees all four, exactly once: at every address there
  -- are in the end as many live blocks as before.
  pub alloc_table-balanced :
      (sizes : Sizes) (services total_chars : ℕ) (m : M)
      → Contract
      → (q : ℕ)
      → live (ended hooks (alloc_table hooks enomem sizes services total_chars m)) q ≡ live m q
  alloc_table-balanced sizes services total_chars m c =
      ended-TableAfter sizes services total_chars (live m)
        (alloc_table hooks enomem sizes services total_chars m) c
        (alloc_table-TableAfter sizes services total_chars c (live m) m (λ q. refl))
