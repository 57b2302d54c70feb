-- ===== src/Gatt/Table.antt =====
-- The table describes the services, the way the C host reads it.
use nimble_rs.Base.{
  ℕ, ◌+◌, ◌≤◌, ◌<◌, ◌≡◌, refl, ap, subst, ◌∙◌, Bool, true, Option, some, List, [], ◌∷◌, arith,
  length, ltb, update,
}
use nimble_rs.Error.{ok}
use nimble_rs.Hci.Packet.{◌>>=◌}
use nimble_rs.Gatt.{
  BleGattService, zero_chr, zero_svc, BleGattServices, Building, add_chrs, svc_def, add_header,
  skip_terminator, add_services, total_chars, zeroed_slices, has_memory, new,
}
use nimble_rs.Gatt.Chrs.{
  HasChrs, HasChrs-frame, Agree, Added, add_chrs-Added, update_at, update_off,
}

module _ (type_primary type_secondary : ℕ) where
  -- From `svc_at` on stand the definitions of the services, each with its UUID at the same place
  -- and with its characteristics behind those of the services before it, and then a terminator.
  abbrev pub HasServices : BleGattServices → ℕ → ℕ → ℕ → List BleGattService → Type 0
  HasServices t svc_at char_at def_at [] = t.svc_defs.item svc_at ≡ zero_svc
  HasServices t svc_at char_at def_at (s ∷ ss) =
      (t.svc_defs.item svc_at ≡ svc_def type_primary type_secondary svc_at def_at s)
      × (t.svc_uuids.item svc_at ≡ s.uuid)
      × HasChrs t char_at def_at s.characteristics
      × HasServices t (svc_at + 1) (char_at + length s.characteristics)
          (def_at + length s.characteristics + 1) ss

  -- The slices are long enough for the services, and zeroed from here on.
  record HasRoom (b : Building) (svc_at : ℕ) (ss : List BleGattService) : Type 0 where
    pub chars : b.1 + total_chars ss ≤ b.0.chars.len
    pub chr_defs : b.2 + (total_chars ss + length ss) ≤ b.0.chr_defs.len
    pub svc_uuids : svc_at + length ss ≤ b.0.svc_uuids.len
    pub svc_defs : svc_at + length ss < b.0.svc_defs.len
    pub zero_chrs : (i : ℕ) → b.2 ≤ i → b.0.chr_defs.item i ≡ zero_chr
    pub zero_svcs : (i : ℕ) → svc_at ≤ i → b.0.svc_defs.item i ≡ zero_svc

  -- What the outer loop does to the table.
  record Filled (b r : Building) (svc_at : ℕ) (ss : List BleGattService) : Type 0 where
    pub has : HasServices r.0 svc_at b.1 b.2 ss
    pub below : Agree b.0 r.0 b.1 b.2
    pub uuids_below : (i : ℕ) → i < svc_at → r.0.svc_uuids.item i ≡ b.0.svc_uuids.item i
    pub defs_below : (i : ℕ) → i < svc_at → r.0.svc_defs.item i ≡ b.0.svc_defs.item i

  -- The table with the service itself.
  abbrev headed : ℕ → BleGattService → Building → Building
  headed at s (t, c, d) = (
    record {
      chars = t.chars;
      svc_uuids = record { len = t.svc_uuids.len; item = update t.svc_uuids.item at s.uuid };
      chr_defs = t.chr_defs;
      svc_defs = record {
        len = t.svc_defs.len;
        item = update t.svc_defs.item at (svc_def type_primary type_secondary at d s);
      };
    },
    c,
    d,
  )

  add_header_lem :
      (at : ℕ) (s : BleGattService) (b : Building)
      → at < b.0.svc_uuids.len
      → at < b.0.svc_defs.len
      → add_header type_primary type_secondary at s b ≡ some (headed at s b)
  unfolding add_header
  add_header_lem at s b hu hd =
      let u : ltb at b.0.svc_uuids.len ≡ true = ground arith in
      let d : ltb at b.0.svc_defs.len ≡ true = ground arith in rw (u, d) refl

  -- The table behind the terminator of the service.
  abbrev past : Building → Building
  past (t, c, d) = (t, c, d + 1)

  rest_of : List BleGattService → ℕ → Option Building → Option Building
  rest_of ss at o = o >>= skip_terminator >>= add_services type_primary type_secondary (at + 1) ss

  one_service :
      (at : ℕ) (s : BleGattService) (ss : List BleGattService) (b r1 r : Building)
      → add_header type_primary type_secondary at s b ≡ some (headed at s b)
      → add_chrs s.characteristics (headed at s b) ≡ some r1
      → add_services type_primary type_secondary (at + 1) ss (past r1) ≡ some r
      → add_services type_primary type_secondary at (s ∷ ss) b ≡ some r
  unfolding add_services rest_of
  one_service at s ss b r1 r e1 e2 e3 =
      ap (λ o. rest_of ss at (o >>= add_chrs s.characteristics)) e1 ∙ ap (rest_of ss at) e2 ∙ e3

  module _ (at : ℕ) (s : BleGattService) (ss : List BleGattService) (b r1 : Building)
      (a : Added (headed at s b) r1 s.characteristics) (room : HasRoom b at (s ∷ ss)) where
    room_left : HasRoom (past r1) (at + 1) ss
    room_left = record {
      chars = omega (arith, room.chars, a.char_at, a.lens.0);
      chr_defs = omega (arith, room.chr_defs, a.def_at, a.lens.1);
      svc_uuids = omega (arith, room.svc_uuids, ap (λ l. l.len) a.services.0);
      svc_defs = omega (arith, room.svc_defs, ap (λ l. l.len) a.services.1);
      zero_chrs =
          λ i le. a.above i (omega (arith, a.def_at)) ∙ room.zero_chrs i (omega (arith, a.def_at));
      zero_svcs = λ i le.
          ap (λ l. l.item i) a.services.1
          ∙ update_off b.0.svc_defs.item at (svc_def type_primary type_secondary at b.2 s) i
              (omega arith)
          ∙ room.zero_svcs i (omega arith);
    }

    module _ (r : Building) (f : Filled (past r1) r (at + 1) ss) where
      char_at_next : r1.1 ≡ b.1 + length s.characteristics
      char_at_next = a.char_at

      def_at_next : r1.2 + 1 ≡ b.2 + length s.characteristics + 1
      def_at_next = omega (arith, a.def_at)

      filled : Filled b r at (s ∷ ss)
      filled = record {
        has = (
          f.defs_below at (omega arith)
              ∙ ap (λ l. l.item at) a.services.1
              ∙ update_at b.0.svc_defs.item at (svc_def type_primary type_secondary at b.2 s),
          f.uuids_below at (omega arith)
              ∙ ap (λ l. l.item at) a.services.0
              ∙ update_at b.0.svc_uuids.item at s.uuid,
          HasChrs-frame r1.0 r.0 b.1 b.2 s.characteristics
              (
                λ i lt. f.below.0 i (omega (arith, a.char_at)),
                λ i lt. f.below.1 i (omega (arith, a.def_at)),
              )
              (a.has (room.zero_chrs (b.2 + length s.characteristics) (omega arith))),
          subst (λ d. HasServices r.0 (at + 1) (b.1 + length s.characteristics) d ss) def_at_next
              (subst (λ c. HasServices r.0 (at + 1) c (r1.2 + 1) ss) char_at_next f.has),
        );
        below = (
          λ i lt. f.below.0 i (omega (arith, a.char_at)) ∙ a.below.0 i lt,
          λ i lt. f.below.1 i (omega (arith, a.def_at)) ∙ a.below.1 i lt,
        );
        uuids_below = λ i lt.
            f.uuids_below i (omega arith)
            ∙ ap (λ l. l.item i) a.services.0
            ∙ update_off b.0.svc_uuids.item at s.uuid i (omega arith);
        defs_below = λ i lt.
            f.defs_below i (omega arith)
            ∙ ap (λ l. l.item i) a.services.1
            ∙ update_off b.0.svc_defs.item at (svc_def type_primary type_secondary at b.2 s) i
                (omega arith);
      }

  add_services-Filled :
      (ss : List BleGattService) (at : ℕ) (b : Building)
      → HasRoom b at ss
      → (r : Building) × (add_services type_primary type_secondary at ss b ≡ some r)
        × Filled b r at ss
  unfolding add_services
  add_services-Filled [] at b room = (
    b,
    refl,
    record {
      has = room.zero_svcs at (omega arith);
      below = (λ i lt. refl, λ i lt. refl);
      uuids_below = λ i lt. refl;
      defs_below = λ i lt. refl;
    },
  )
  add_services-Filled (s ∷ ss) at b room =
      let (r1, e1, a) =
        add_chrs-Added s.characteristics (headed at s b) (omega (arith, room.chars))
          (omega (arith, room.chr_defs)) in
      let (r, e, f) = add_services-Filled ss (at + 1) (past r1) (room_left at s ss b r1 a room) in
      (
        r,
        one_service at s ss b r1 r
            (add_header_lem at s b (omega (arith, room.svc_uuids)) (omega (arith, room.svc_defs)))
            e1 e,
        filled at s ss b r1 a room r f,
      )

  -- If the C heap grants its memory, the table is built without an index out of bounds, and describes
  -- exactly the services, in order: from the first definition on, each has its type, its UUID and,
  -- behind those of the services before it, its characteristics with their UUIDs and flags, closed
  -- by a terminator, and so is the list of the services.
  pub new-HasServices :
      (enomem : ℕ) (granted : ℕ → Bool) (services : List BleGattService)
      → has_memory granted services ≡ true
      → (t : BleGattServices) × (new type_primary type_secondary enomem granted services
          ≡ some (ok t))
        × HasServices t 0 0 0 services
  unfolding new
  new-HasServices enomem granted services memory =
      let (r, e, f) =
        add_services-Filled services 0 (zeroed_slices services, 0, 0)
          (record {
            chars = omega arith;
            chr_defs = omega arith;
            svc_uuids = omega arith;
            svc_defs = omega arith;
            zero_chrs = λ i le. refl;
            zero_svcs = λ i le. refl;
          }) in
      (r.0, rw (memory, e) refl, f.has)
