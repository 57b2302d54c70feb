-- ===== src/Hci/Transport/Examples.antt =====
-- The RX loop with a concrete controller and host.
use nimble_rs.Base.{
  ℕ, zero, suc, ◌+◌, ◌/◌, ◌%◌, ◌≡◌, refl, subst, ap, sym, Bool, true, false, none, some, List, [],
  ◌∷◌, ◌++◌, length, arith,
}
use nimble_rs.Hci.Packet.{Packet}
use nimble_rs.Hci.Ack.{done}
use nimble_rs.Hci.Dispatch.{Parties}
use nimble_rs.Hci.Dispatch.Rx.{ControllerToHostPacket, event, acl, iso, AclHost}
use nimble_rs.Hci.Dispatch.Rx.Laws.{
  Delivery, evt, data_of, Contract, HasRoom, Delivered, IsBalanced,
}
use nimble_rs.Hci.Transport.{ReadController, run_rx}
use nimble_rs.Hci.Transport.Receive.{AllFit, run_rx-Delivered}

-- A host with one mbuf, which counts its buffers.
record Tally : Type 0 where
  seen : List Delivery
  got : ℕ
  handed : ℕ
  mbuf : Packet

abbrev counted : List Delivery → Tally → Tally
counted ds h = record { seen = ds; got = h.got; handed = h.handed + 1; mbuf = h.mbuf }

-- Its pool of discardable events is empty.
abbrev no_reports : Parties ℕ Packet Tally
no_reports = record {
  opcode_of = λ c. 0;
  from_hci_bytes = λ c p. some p;
  exec = λ c p ctl. (done [], ctl);
  ble_transport_alloc_evt = λ d h. elim d [
    | true ↦ none
    | false ↦ some (record { seen = h.seen; got = h.got + 1; handed = h.handed; mbuf = h.mbuf })
  ];
  ble_transport_to_hs_evt_impl = λ ev h. counted (evt ev ∷ h.seen) h;
}

abbrev one_mbuf : AclHost Tally ℕ
one_mbuf = record {
  write_hci = λ handle p. handle % 256 ∷ handle / 256 ∷ length p % 256 ∷ length p / 256 ∷ p;
  ble_transport_alloc_acl_from_ll =
      λ h. some (30, record { seen = h.seen; got = h.got + 1; handed = h.handed; mbuf = [] });
  os_mbuf_append = λ om raw h.
      (0, record { seen = h.seen; got = h.got; handed = h.handed; mbuf = h.mbuf ++ raw });
  os_mbuf_free_chain = λ om h. counted h.seen h;
  ble_transport_to_hs_acl_impl = λ om h. counted (data_of h.mbuf ∷ h.seen) h;
}

abbrev taken : Packet → Tally → Tally
taken bytes h = record { seen = h.seen; got = h.got + 1; handed = h.handed; mbuf = bytes }

evt_taken :
    (d : Bool) (h h' : Tally)
    → no_reports.ble_transport_alloc_evt d h ≡ some h'
    → taken h.mbuf h ≡ h'
evt_taken true h h' e = absurd (cc)
evt_taken false h h' e = cc

acl_taken :
    (om : ℕ) (h h' : Tally)
    → one_mbuf.ble_transport_alloc_acl_from_ll h ≡ some (om, h')
    → taken [] h ≡ h'
acl_taken om h h' e = cc

tally-Contract :
    Contract no_reports one_mbuf (λ h. h.seen) (λ h. h.got) (λ h. h.handed) (λ om h. h.mbuf)
tally-Contract = record {
  alloc_evt = λ d h h' e.
      let same = sym (evt_taken d h h' e) in
      (ap (λ t. t.seen) same, ap (λ t. t.got) same, ap (λ t. t.handed) same);
  to_hs_evt = λ ev h. (refl, refl, refl);
  alloc_acl = λ om h h' e.
      let same = sym (acl_taken om h h' e) in
      (ap (λ t. t.seen) same, ap (λ t. t.got) same, ap (λ t. t.handed) same, ap (λ t. t.mbuf) same);
  append = λ om raw h. (refl, refl, refl, λ z. refl);
  free = λ om h. (refl, refl, refl);
  to_hs_acl = λ om h. (refl, refl, refl);
}

-- A Command Complete, an advertising report, data, and then only isochronous data.
abbrev packet_at : ℕ → ControllerToHostPacket
packet_at zero = event 14 (1 ∷ 3 ∷ 12 ∷ 0 ∷ [])
packet_at (suc zero) = event 62 (2 ∷ 1 ∷ [])
packet_at (suc (suc zero)) = acl 8193 (7 ∷ 8 ∷ 9 ∷ [])
packet_at (suc (suc (suc n))) = iso []

abbrev scripted : ReadController ℕ ℕ
scripted = record {
  alloc_buf = λ ctl. (some 50, ctl);
  read = λ buf ctl. (some (packet_at ctl), ctl + 1);
}

fits_at : (n : ℕ) → HasRoom no_reports one_mbuf 27 (packet_at n)
fits_at zero = omega arith
fits_at (suc zero) = omega arith
fits_at (suc (suc zero)) = omega arith
fits_at (suc (suc (suc n))) = tt

scripted-AllFit :
    AllFit no_reports one_mbuf scripted 27
      (λ h. h.seen)
      (λ h. h.got)
      (λ h. h.handed)
      (λ om h. h.mbuf)
scripted-AllFit buf ctl p e =
    let same : packet_at ctl ≡ p = cc in subst (HasRoom no_reports one_mbuf 27) same (fits_at ctl)

abbrev nothing_seen : Tally
nothing_seen = record { seen = []; got = 0; handed = 0; mbuf = [] }

run_rx-Delivered_example :
    (t : Tally) × (run_rx no_reports one_mbuf 27 scripted 3 (0, nothing_seen) ≡ some (3, t))
    × Delivered no_reports one_mbuf
        (λ h. h.seen)
        (λ h. h.got)
        (λ h. h.handed)
        (λ om h. h.mbuf)
        (packet_at 0 ∷ packet_at 1 ∷ packet_at 2 ∷ [])
        nothing_seen
        t
    × IsBalanced no_reports one_mbuf
        (λ h. h.seen)
        (λ h. h.got)
        (λ h. h.handed)
        (λ om h. h.mbuf)
        nothing_seen
        t
run_rx-Delivered_example =
    run_rx-Delivered no_reports one_mbuf scripted 27 (λ h. h.seen) (λ h. h.got) (λ h. h.handed)
      (λ om h. h.mbuf) tally-Contract scripted-AllFit 3 0 nothing_seen
