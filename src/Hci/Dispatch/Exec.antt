-- ===== src/Hci/Dispatch/Exec.antt =====
-- Which command the controller is given, by the code of a packet.
use nimble_rs.Base.{
  ℕ, zero, suc, length-append, ◌<◌, ◌≡◌, ◌≢◌, refl, sym, ap, ◌∙◌, true, not, ◌&&◌, ◌++◌, false,
  some, List, [], ◌∷◌, arith, length, if◌then◌else◌, leb, ◌==◌, Bool-cases, inl, inr,
}
use nimble_rs.Hci.Packet.{Packet, from_le_bytes}
use nimble_rs.Hci.Ack.{plain_ack, status_unknown_cmd}
use nimble_rs.Hci.Ack.Laws.{complete_event, plain_ack_layout}
use nimble_rs.Hci.Commands.{Command, Features, dispatched, le_set_event_mask}
use nimble_rs.Hci.Mask.Bits.{bit_at, bit_at-clear}
use nimble_rs.Hci.Mask.Laws.{Among, here, later}
use nimble_rs.Hci.Dispatch.{
  Parties, feed_ack, sync_cmd, handling, run_as, clear_bit5, take_first, dispatch, send_cmd,
  drop_first,
}
use nimble_rs.Hci.Dispatch.Laws.{take_event, feed_event-take}

take_first-append : (n : ℕ) (p more : Packet) → length p ≡ n → take_first n (p ++ more) ≡ p
take_first-append zero [] more h = refl
take_first-append zero (b ∷ p) more h = absurd (omega arith)
take_first-append (suc n) [] more h = absurd (omega arith)
take_first-append (suc n) (b ∷ p) more h =
    ap (λ q. b ∷ q) (take_first-append n p more (omega arith))

long_enough : (mask more : Packet) → length mask ≡ 7 → leb 8 (suc (length (mask ++ more))) ≡ true
long_enough mask more h = ground (arith, length-append mask more)

module _ {C P H : Type 0} (parties : Parties C P H) where
  -- The codes of the commands differ.
  abbrev pub HasCodes : Type 0
  HasCodes = (c d : Command) → parties.opcode_of c ≡ parties.opcode_of d → c ≡ d

  other :
      {c d : Command} {cs : List Command}
      → Among c (d ∷ cs)
      → (parties.opcode_of c == parties.opcode_of d) ≡ false
      → Among c cs
  other here e = absurd (ground arith)
  other (later m) e = m

  dispatch-found :
      HasCodes
      → (f : Features) (cs : List Command) (c : Command) (params : Packet) (w : C × H) → Among c cs
      → dispatch parties f cs (parties.opcode_of c) params w
        ≡ run_as parties (handling c) f c (parties.opcode_of c) params w
  unfolding dispatch
  dispatch-found codes f [] c params w m = elim m [ ]
  dispatch-found codes f (d ∷ cs) c params w m =
      elim (Bool-cases (parties.opcode_of c == parties.opcode_of d)) [
        | inl e ↦
            let same : parties.opcode_of c ≡ parties.opcode_of d = ground arith in
            rw e (
              ap (λ x. run_as parties (handling x) f x (parties.opcode_of c) params w)
                (sym (codes c d same)))
        | inr e ↦ rw e (dispatch-found codes f cs c params w (other m e))
      ]

  dispatch-unknown :
      (f : Features) (cs : List Command) (opcode : ℕ) (params : Packet) (w : C × H)
      → ((c : Command) → Among c cs → parties.opcode_of c ≢ opcode)
      → dispatch parties f cs opcode params w
        ≡ feed_ack parties (plain_ack opcode status_unknown_cmd) w
  unfolding dispatch
  dispatch-unknown f [] opcode params w none_has = refl
  dispatch-unknown f (c ∷ cs) opcode params w none_has =
      let no : (opcode == parties.opcode_of c) ≡ false = ground (arith, none_has c here) in
      rw no (dispatch-unknown f cs opcode params w (λ d m. none_has d (later m)))

  -- The command of a packet's code, as `run_as` runs it.
  pub send_cmd-run :
      HasCodes
      → (f : Features) (c : Command) (lo hi len : ℕ) (params : Packet) (w : C × H)
      → Among c (dispatched f)
      → from_le_bytes lo hi ≡ parties.opcode_of c
      → send_cmd parties f (lo ∷ hi ∷ len ∷ params) w
        ≡ run_as parties (handling c) f c (parties.opcode_of c) params w
  unfolding send_cmd
  send_cmd-run codes f c lo hi len params w m e =
      ap (λ n. dispatch parties f (dispatched f) n params w) e
      ∙ dispatch-found codes f (dispatched f) c params w m

  -- A packet with any other code leaves the controller as it was, and the host is told that the
  -- command is unknown by a Command Complete of that code.
  pub send_cmd-unknown :
      (f : Features) (lo hi : ℕ) (rest : Packet) (ctl : C) (host : H)
      → ((c : Command) → Among c (dispatched f) → parties.opcode_of c ≢ from_le_bytes lo hi)
      → send_cmd parties f (lo ∷ hi ∷ rest) (ctl, host)
        ≡ some (
          ctl,
          take_event parties (complete_event (from_le_bytes lo hi) status_unknown_cmd []) host,
        )
  unfolding send_cmd feed_ack
  send_cmd-unknown f lo hi rest ctl host other_code =
      dispatch-unknown f (dispatched f) (from_le_bytes lo hi) (drop_first 1 rest) (ctl, host)
        other_code
      ∙ ap (λ ack. feed_ack parties ack (ctl, host)) (plain_ack_layout _ status_unknown_cmd)
      ∙ ap (λ h. some (ctl, h)) (feed_event-take parties 0x0e 4 _ host refl (omega arith))

  -- An LE Set Event Mask with a mask of eight bytes reaches the controller without bit 5 of the
  -- first of them, and with every other bit as the host set it.
  pub send_cmd-event_mask :
      HasCodes
      → (f : Features) (lo hi len m : ℕ) (mask more : Packet) (ctl : C) (host : H) → m < 256
      → length mask ≡ 7
      → from_le_bytes lo hi ≡ parties.opcode_of le_set_event_mask
      → (n : ℕ) × ((b : ℕ) → b < 8 → bit_at n b ≡ (bit_at m b && not (b == 5)))
        × (send_cmd parties f (lo ∷ hi ∷ len ∷ m ∷ (mask ++ more)) (ctl, host)
            ≡ sync_cmd parties le_set_event_mask
                (parties.opcode_of le_set_event_mask)
                (n ∷ mask)
                (ctl, host))
  unfolding run_as handling
  send_cmd-event_mask codes f lo hi len m mask more ctl host hm hl e = (
    clear_bit5 m,
    λ b hb. bit_at-clear m b hm hb,
    send_cmd-run codes f le_set_event_mask lo hi len (m ∷ (mask ++ more)) (ctl, host)
          (later (later (later here))) e
        ∙ ap
            (λ b.
              if b
              then sync_cmd parties le_set_event_mask (parties.opcode_of le_set_event_mask)
                  (clear_bit5 m ∷ take_first 7 (mask ++ more)) (ctl, host)
              else sync_cmd parties le_set_event_mask (parties.opcode_of le_set_event_mask)
                  (m ∷ (mask ++ more)) (ctl, host))
            (long_enough mask more hl)
        ∙ ap
            (λ p.
              sync_cmd parties le_set_event_mask (parties.opcode_of le_set_event_mask)
                (clear_bit5 m ∷ p) (ctl, host))
            (take_first-append 7 mask more hl),
  )
