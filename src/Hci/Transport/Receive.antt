-- ===== src/Hci/Transport/Receive.antt =====
-- What the host gets of the packets that the RX loop reads from the controller.
use nimble_rs.Base.{
  ℕ, zero, suc, ◌≡◌, refl, subst, Option, none, some, List, [], ◌∷◌, arith, Option-cases, inl, inr,
}
use nimble_rs.Hci.Packet.{Packet}
use nimble_rs.Hci.Dispatch.{Parties}
use nimble_rs.Hci.Dispatch.Rx.{ControllerToHostPacket, AclHost, rx_dispatch}
use nimble_rs.Hci.Dispatch.Rx.Laws.{
  Delivery, Contract, HasRoom, Step, Served, Delivered, nothing, then_, IsBalanced,
  rx_dispatch-Served,
}
use nimble_rs.Hci.Transport.{ReadController, received, rx_with, rx_round, run_rx}

module _ {C B : Type 0} (reads : ReadController C B) where
  -- What a round reads, if it gets a buffer and the read does not fail.
  abbrev pub read_in : Option B × C → Option ControllerToHostPacket × C
  read_in (none, ctl) = (none, ctl)
  read_in (some buf, ctl) = reads.read buf ctl

  abbrev pub noted :
      Option ControllerToHostPacket → List ControllerToHostPacket → List ControllerToHostPacket
  noted none ps = ps
  noted (some p) ps = p ∷ ps

  -- The packets that the controller hands out in as many rounds, and its state after them.
  abbrev pub packets_read : ℕ → C → List ControllerToHostPacket × C
  packets_read zero ctl = ([], ctl)
  packets_read (suc n) ctl =
      let r = read_in (reads.alloc_buf ctl) in
      let rest = packets_read n r.1 in (noted r.0 rest.0, rest.1)

module _ {C P H M B : Type 0} (parties : Parties C P H) (mbufs : AclHost H M)
    (reads : ReadController C B) (acl_packet_max : ℕ) (seen : H → List Delivery)
    (got handed : H → ℕ) (bytes : M → H → Packet) where
  -- The bridge has room for each packet that the controller hands out.
  abbrev pub AllFit : Type 0
  AllFit =
      (buf : B) (ctl : C) (p : ControllerToHostPacket)
      → (reads.read buf ctl).0 ≡ some p
      → HasRoom parties mbufs acl_packet_max p

  abbrev One : Option ControllerToHostPacket → H → H → Type 0
  One none h t = t ≡ h
  One (some p) h t = Step parties mbufs seen got handed bytes p h t

  abbrev Out : C → Option ControllerToHostPacket → H → Option (C × H) → Type 0
  Out ctl o host r =
      (t : H) × (r ≡ some (ctl, t))
      × One o host t
      × IsBalanced parties mbufs seen got handed bytes host t

  module _ (c : Contract parties mbufs seen got handed bytes) where
    received-Out :
        (o : Option ControllerToHostPacket) (ctl : C) (host : H)
        → ((p : ControllerToHostPacket) → o ≡ some p → HasRoom parties mbufs acl_packet_max p)
        → Out ctl o host (received parties mbufs acl_packet_max reads ctl host o)
    received-Out none ctl host fit = (host, refl, refl, refl)
    received-Out (some p) ctl host fit =
        let served =
          rx_dispatch-Served parties mbufs seen got handed bytes c acl_packet_max p host
            (fit p refl) in
        elim (Option-cases (rx_dispatch parties mbufs acl_packet_max p host)) [
          | inl e ↦ absurd (subst (Served parties mbufs seen got handed bytes p host) e served)
          | inr (t, e) ↦
              let (step, balanced) =
                subst (Served parties mbufs seen got handed bytes p host) e served in
              (t, rw (e, received) refl, step, balanced)
        ]

    round-Out :
        AllFit
        → (r : Option B × C) (host : H)
        → Out
            (read_in reads r).1
            (read_in reads r).0
            host
            (rx_with parties mbufs acl_packet_max reads host r)
    round-Out fit (none, ctl) host = (host, refl, refl, refl)
    round-Out fit (some buf, ctl) host =
        received-Out (reads.read buf ctl).0 (reads.read buf ctl).1 host (fit buf ctl)

    joined :
        (o : Option ControllerToHostPacket) (ps : List ControllerToHostPacket) (h h' t : H)
        → One o h h'
        → Delivered parties mbufs seen got handed bytes ps h' t
        → Delivered parties mbufs seen got handed bytes (noted reads o ps) h t
    joined none ps h h' t e d =
        subst (λ x. Delivered parties mbufs seen got handed bytes ps x t) e d
    joined (some p) ps h h' t step d = then_ h' step d

    -- In any number of rounds of the RX loop, the packets that the controller hands out are passed on
    -- one by one in their order: each is given to the host once and whole, an event with its length byte
    -- or an ACL packet in its wire form, unless the host refuses it in that very state, by an empty pool
    -- for its kind of packet or a failed append, or it is synchronous or isochronous data. No round
    -- panics, and every buffer that the host gives out comes back to it. It holds if a packet fits its
    -- buffer, and the buffers of the host are as NimBLE documents them.
    pub run_rx-Delivered :
        AllFit
        → (n : ℕ) (ctl : C) (host : H)
        → (t : H) × (run_rx parties mbufs acl_packet_max reads n (ctl, host)
            ≡ some ((packets_read reads n ctl).1, t))
          × Delivered parties mbufs seen got handed bytes (packets_read reads n ctl).0 host t
          × IsBalanced parties mbufs seen got handed bytes host t
    unfolding run_rx rx_round
    run_rx-Delivered fit zero ctl host = (host, refl, nothing host, refl)
    run_rx-Delivered fit (suc n) ctl host =
        let r = read_in reads (reads.alloc_buf ctl) in
        let (h, e, one, balanced) = round-Out fit (reads.alloc_buf ctl) host in
        let (t, e', rest, balanced') = run_rx-Delivered fit n r.1 h in
        (
          t,
          rw (e, run_rx, rx_round) e',
          joined r.0 (packets_read reads n r.1).0 host h t one rest,
          omega (arith, balanced, balanced'),
        )
