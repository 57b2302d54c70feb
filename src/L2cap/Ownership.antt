-- ===== src/L2cap/Ownership.antt =====
-- Who owns the mbufs that the L2CAP operations pass to the C host.
use nimble_rs.Base.{
  ℕ, ◌^◌, ◌%◌, ◌≡◌, ◌≢◌, ◌⊎◌, refl, ap, ◌∙◌, true, false, List, ◌∷◌, length, first_bytes, ◌==◌,
  ◌||◌, arith, Bool-cases, inl, inr,
}
use nimble_rs.Error.{ok, err}
use nimble_rs.L2cap.{
  HostErrors, L2capHost, free_mbuf, alloc_sdu, l2cap_connect, l2cap_send, l2cap_recv_ready,
  recv_with, connect_with, send_with,
}

module _ {H : Type 0} (host : L2capHost H) (errors : HostErrors) (given : H → List ℕ) where
  -- `given` lists the mbufs that the operations have given away for good, by a free or by a call
  -- that takes them. This is what the C host documents of its calls: which codes leave the mbuf
  -- with the caller. `ENOMEM` of a connect may come from before or after it took the mbuf.
  pub record Contract : Type 0 where
    pub frees : (om : ℕ) (h : H) → given (host.os_mbuf_free_chain om h) ≡ om ∷ given h
    pub gets : (size : ℕ) (h : H) → given (host.os_msys_get_pkthdr size h).1 ≡ given h
    pub copies : (bytes : List ℕ) (h : H) → given (host.ble_hs_mbuf_from_flat bytes h).1 ≡ given h
    pub connect_keeps :
        (conn psm mtu om : ℕ) (h : H)
        → ((host.ble_l2cap_connect conn psm mtu om h).0 == errors.enotconn
            || (host.ble_l2cap_connect conn psm mtu om h).0 == errors.einval)
          ≡ true
        → given (host.ble_l2cap_connect conn psm mtu om h).1 ≡ given h
    pub connect_takes :
        (conn psm mtu om : ℕ) (h : H)
        → ((host.ble_l2cap_connect conn psm mtu om h).0 == errors.enotconn
            || (host.ble_l2cap_connect conn psm mtu om h).0 == errors.einval)
          ≡ false
        → (host.ble_l2cap_connect conn psm mtu om h).0 ≢ errors.enomem
        → given (host.ble_l2cap_connect conn psm mtu om h).1 ≡ om ∷ given h
    pub connect_unclear :
        (conn psm mtu om : ℕ) (h : H)
        → (host.ble_l2cap_connect conn psm mtu om h).0 ≡ errors.enomem
        → (given (host.ble_l2cap_connect conn psm mtu om h).1 ≡ om ∷ given h)
          ⊎ (given (host.ble_l2cap_connect conn psm mtu om h).1 ≡ given h)
    pub send_keeps :
        (chan om : ℕ) (h : H)
        → ((host.ble_l2cap_send chan om h).0 == errors.ebaddata
            || (host.ble_l2cap_send chan om h).0 == errors.ebusy)
          ≡ true
        → given (host.ble_l2cap_send chan om h).1 ≡ given h
    pub send_takes :
        (chan om : ℕ) (h : H)
        → ((host.ble_l2cap_send chan om h).0 == errors.ebaddata
            || (host.ble_l2cap_send chan om h).0 == errors.ebusy)
          ≡ false
        → given (host.ble_l2cap_send chan om h).1 ≡ om ∷ given h
    pub recv_keeps :
        (chan om : ℕ) (h : H)
        → ((host.ble_l2cap_recv_ready chan om h).0 == errors.ebusy
            || (host.ble_l2cap_recv_ready chan om h).0 == errors.einval)
          ≡ true
        → given (host.ble_l2cap_recv_ready chan om h).1 ≡ given h
    pub recv_takes :
        (chan om : ℕ) (h : H)
        → ((host.ble_l2cap_recv_ready chan om h).0 == errors.ebusy
            || (host.ble_l2cap_recv_ready chan om h).0 == errors.einval)
          ≡ false
        → given (host.ble_l2cap_recv_ready chan om h).1 ≡ om ∷ given h

  -- The operation gives away the mbuf exactly once, or it had none.
  abbrev pub Once : ℕ → H → H → Type 0
  Once om before after =
      ((om ≡ 0) × (given after ≡ given before)) ⊎ ((om ≢ 0) × (given after ≡ om ∷ given before))

  -- The codes that leave an SDU with the caller are other than success and a stall.
  abbrev pub HasErrors : Type 0
  HasErrors =
      (errors.ebaddata ≢ 0)
      × (errors.ebusy ≢ 0)
      × (errors.ebaddata ≢ errors.estalled)
      × (errors.ebusy ≢ errors.estalled)

  freed : Contract → (om : ℕ) (h : H) → om ≢ 0 → given (free_mbuf host errors om h) ≡ om ∷ given h
  unfolding free_mbuf
  freed c om h live = let on : (om == 0) ≡ false = ground arith in rw on (c.frees om h)

  -- Whether a buffer was got.
  alloc-cases :
      (size : ℕ) (h : H)
      → (((host.os_msys_get_pkthdr size h).0 ≡ 0)
          × (alloc_sdu host errors size h
              ≡ (err errors.enomem, (host.os_msys_get_pkthdr size h).1)))
        ⊎ (((host.os_msys_get_pkthdr size h).0 ≢ 0)
            × (alloc_sdu host errors size h
                ≡ (ok (host.os_msys_get_pkthdr size h).0, (host.os_msys_get_pkthdr size h).1)))
  unfolding alloc_sdu
  alloc-cases size h = elim (Bool-cases ((host.os_msys_get_pkthdr size h).0 == 0)) [
    | inl e ↦ inl (ground arith, rw (e, alloc_sdu) refl)
    | inr e ↦ inr (ground arith, rw (e, alloc_sdu) refl)
  ]

  recv_with-once :
      Contract
      → (chan om : ℕ) (h : H) → om ≢ 0
      → given (recv_with host errors chan (ok om, h)).1 ≡ om ∷ given h
  unfolding recv_with
  recv_with-once c chan om h live =
      elim (Bool-cases (
        (host.ble_l2cap_recv_ready chan om h).0 == errors.ebusy
        || (host.ble_l2cap_recv_ready chan om h).0 == errors.einval)) [
          | inl k ↦
              rw (k, recv_with)
                (freed c om (host.ble_l2cap_recv_ready chan om h).1 live
                  ∙ ap (λ l. om ∷ l) (c.recv_keeps chan om h k))
          | inr k ↦ rw (k, recv_with) (c.recv_takes chan om h k)
        ]

  -- If the C host keeps the contract: after a recv_ready the buffer that it got, if any, is given
  -- away exactly once, whatever the code. A buffer that the host did not take is freed, and no
  -- other is.
  pub recv_ready-Once :
      Contract
      → (chan size : ℕ) (h : H)
      → Once (host.os_msys_get_pkthdr size h).0 h (l2cap_recv_ready host errors chan size h).1
  unfolding l2cap_recv_ready recv_with
  recv_ready-Once c chan size h = elim (alloc-cases size h) [
    | inl (z, e) ↦ inl (z, ap (λ r. given (recv_with host errors chan r).1) e ∙ c.gets size h)
    | inr (live, e) ↦ inr (
      live,
      ap (λ r. given (recv_with host errors chan r).1) e
          ∙ recv_with-once c chan (host.os_msys_get_pkthdr size h).0 _ live
          ∙ ap (λ l. (host.os_msys_get_pkthdr size h).0 ∷ l) (c.gets size h),
    )
  ]

  connect_with-once :
      Contract
      → (conn psm mtu om : ℕ) (h : H) → om ≢ 0
      → (given (connect_with host errors conn psm mtu (ok om, h)).1 ≡ om ∷ given h)
        ⊎ (((host.ble_l2cap_connect conn psm mtu om h).0 ≡ errors.enomem)
            × (given (connect_with host errors conn psm mtu (ok om, h)).1 ≡ given h))
  unfolding connect_with
  connect_with-once c conn psm mtu om h live =
      elim (Bool-cases (
        (host.ble_l2cap_connect conn psm mtu om h).0 == errors.enotconn
        || (host.ble_l2cap_connect conn psm mtu om h).0 == errors.einval)) [
          | inl k ↦ inl (
              rw (k, connect_with)
                (freed c om (host.ble_l2cap_connect conn psm mtu om h).1 live
                  ∙ ap (λ l. om ∷ l) (c.connect_keeps conn psm mtu om h k)))
          | inr k ↦
              elim (Bool-cases ((host.ble_l2cap_connect conn psm mtu om h).0 == errors.enomem)) [
                | inl m ↦
                    let at : (host.ble_l2cap_connect conn psm mtu om h).0 ≡ errors.enomem =
                      ground arith in
                    elim (c.connect_unclear conn psm mtu om h at) [
                      | inl took ↦ inl (rw (k, connect_with) took)
                      | inr kept ↦ inr (at, rw (k, connect_with) kept)
                    ]
                | inr m ↦
                    let other : (host.ble_l2cap_connect conn psm mtu om h).0 ≢ errors.enomem =
                      ground arith in
                    inl (rw (k, connect_with) (c.connect_takes conn psm mtu om h k other))
              ]
        ]

  -- If the C host keeps the contract: after a connect the buffer that it got, if any, is given away
  -- exactly once, whatever the code; but with `ENOMEM` it may be left over, and it is never given
  -- away twice.
  pub connect-Once :
      Contract
      → (conn psm mtu : ℕ) (h : H)
      → Once (host.os_msys_get_pkthdr mtu h).0 h (l2cap_connect host errors conn psm mtu h).1
        ⊎ (((host.ble_l2cap_connect conn psm mtu
                (host.os_msys_get_pkthdr mtu h).0
                (host.os_msys_get_pkthdr mtu h).1).0
              ≡ errors.enomem)
            × (given (l2cap_connect host errors conn psm mtu h).1 ≡ given h))
  unfolding l2cap_connect connect_with
  connect-Once c conn psm mtu h = elim (alloc-cases mtu h) [
    | inl (z, e) ↦
        inl (inl (z, ap (λ r. given (connect_with host errors conn psm mtu r).1) e ∙ c.gets mtu h))
    | inr (live, e) ↦
        elim (connect_with-once c conn psm mtu (host.os_msys_get_pkthdr mtu h).0
          (host.os_msys_get_pkthdr mtu h).1 live) [
            | inl once ↦ inl (
                inr (
                  live,
                  ap (λ r. given (connect_with host errors conn psm mtu r).1) e
                      ∙ once
                      ∙ ap (λ l. (host.os_msys_get_pkthdr mtu h).0 ∷ l) (c.gets mtu h),
                ))
            | inr (m, kept) ↦ inr (
              m,
              ap (λ r. given (connect_with host errors conn psm mtu r).1) e ∙ kept ∙ c.gets mtu h,
            )
          ]
  ]

  send_with-none :
      (chan om : ℕ) (h : H)
      → (om == 0) ≡ true
      → given (send_with host errors chan (om, h)).1 ≡ given h
  unfolding send_with
  send_with-none chan om h z = rw (z, send_with) refl

  send_with-once :
      Contract
      → HasErrors
      → (chan om : ℕ) (h : H) → (om == 0) ≡ false
      → given (send_with host errors chan (om, h)).1 ≡ om ∷ given h
  unfolding send_with
  send_with-once c (data_0, busy_0, data_s, busy_s) chan om h live =
      let not_null : om ≢ 0 = ground arith in
      elim (Bool-cases ((host.ble_l2cap_send chan om h).0 == 0)) [
        | inl z ↦ let took = c.send_takes chan om h (ground arith) in rw (live, z, send_with) took
        | inr z ↦ elim (Bool-cases ((host.ble_l2cap_send chan om h).0 == errors.estalled)) [
          | inl s ↦
              let took = c.send_takes chan om h (ground arith) in rw (live, z, s, send_with) took
          | inr s ↦
              elim (Bool-cases (
                (host.ble_l2cap_send chan om h).0 == errors.ebaddata
                || (host.ble_l2cap_send chan om h).0 == errors.ebusy)) [
                  | inl k ↦
                      rw (live, z, s, k, send_with)
                        (freed c om (host.ble_l2cap_send chan om h).1 not_null
                          ∙ ap (λ l. om ∷ l) (c.send_keeps chan om h k))
                  | inr k ↦ rw (live, z, s, k, send_with) (c.send_takes chan om h k)
                ]
        ]
      ]

  -- If the C host keeps the contract, and its codes for bad data and for busy are neither success
  -- nor a stall: after a send the SDU that was made of the data, if any, is given away exactly
  -- once, whatever the code.
  pub send-Once :
      Contract
      → HasErrors
      → (chan : ℕ) (bytes : List ℕ) (h : H)
      → Once
          (host.ble_hs_mbuf_from_flat (first_bytes (length bytes % 2 ^ 16) bytes) h).0
          h
          (l2cap_send host errors chan bytes h).1
  unfolding l2cap_send
  send-Once c apart chan bytes h =
      let made = host.ble_hs_mbuf_from_flat (first_bytes (length bytes % 2 ^ 16) bytes) h in
      let nothing = c.copies (first_bytes (length bytes % 2 ^ 16) bytes) h in
      elim (Bool-cases
        ((host.ble_hs_mbuf_from_flat (first_bytes (length bytes % 2 ^ 16) bytes) h).0 == 0)) [
          | inl z ↦ inl (ground arith, send_with-none chan made.0 made.1 z ∙ nothing)
          | inr live ↦ inr (
            ground arith,
            send_with-once c apart chan made.0 made.1 live ∙ ap (λ l. made.0 ∷ l) nothing,
          )
        ]
