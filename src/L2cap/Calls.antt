-- ===== src/L2cap/Calls.antt =====
-- Who owns the mbufs over a run of sends, receives and events of L2CAP channels, where the hook of an
-- event may itself send and receive.
use nimble_rs.Base.{
  ℕ, ◌^◌, ◌%◌, ◌≡◌, refl, ap, ◌∙◌, true, false, Option, none, some, List, [], ◌∷◌, length,
  first_bytes, ◌==◌, arith, if◌then◌else◌, Bool-cases, inl, inr,
}
use nimble_rs.Error.{Result}
use nimble_rs.L2cap.{
  EventTypes, RawEvent, from_raw, HostErrors, L2capHost, L2capEvent, SendOutcome, free_mbuf, Hook,
  l2cap_send, l2cap_recv_ready, l2cap_event_cb, dispatch_event,
}
use nimble_rs.L2cap.Ownership.{Contract, Once, HasErrors, recv_ready-Once, send-Once}

-- What a hook does: it may read and change its own state, send, provide receive buffers, go on by what
-- these return, and at last return a status.
pub data Program (H : Type 0) : Type 0 where
  status : ℕ → Program H
  work : (H → H) → Program H → Program H
  choose : (H → Program H) → Program H
  sends : (chan : ℕ) → List ℕ → (Result SendOutcome → Program H) → Program H
  receives : (chan sdu_size : ℕ) → (Result {0} Unit → Program H) → Program H

-- A call of an operation by the application, or of the callback by the C host.
pub data Call : Type 0 where
  send : (chan : ℕ) → List ℕ → Call
  recv_ready : (chan sdu_size : ℕ) → Call
  event : RawEvent → Call

abbrev pub noted : ℕ → List ℕ → List ℕ
noted om l = if om == 0 then l else om ∷ l

module _ {H : Type 0} (host : L2capHost H) (errors : HostErrors) where
  abbrev pub run_program : Program H → H → ℕ × H
  run_program (status n) h = (n, h)
  run_program (work f p) h = run_program p (f h)
  run_program (choose k) h = run_program (k h) h
  run_program (sends chan bytes k) h =
      run_program (k (l2cap_send host errors chan bytes h).0)
        (l2cap_send host errors chan bytes h).1
  run_program (receives chan size k) h =
      run_program (k (l2cap_recv_ready host errors chan size h).0)
        (l2cap_recv_ready host errors chan size h).1

  -- The mbuf that a send makes of the data, and that a receive allocates; 0 if none.
  abbrev pub made : List ℕ → H → ℕ
  made bytes h = (host.ble_hs_mbuf_from_flat (first_bytes (length bytes % 2 ^ 16) bytes) h).0

  abbrev pub allocated : ℕ → H → ℕ
  allocated size h = (host.os_msys_get_pkthdr size h).0

  -- The mbufs that a hook's calls own, the last first, before those of a list.
  abbrev pub program_owned : Program H → H → List ℕ → List ℕ
  program_owned (status n) h l = l
  program_owned (work f p) h l = program_owned p (f h) l
  program_owned (choose k) h l = program_owned (k h) h l
  program_owned (sends chan bytes k) h l =
      program_owned (k (l2cap_send host errors chan bytes h).0)
        (l2cap_send host errors chan bytes h).1 (noted (made bytes h) l)
  program_owned (receives chan size k) h l =
      program_owned (k (l2cap_recv_ready host errors chan size h).0)
        (l2cap_recv_ready host errors chan size h).1 (noted (allocated size h) l)

  -- A hook by its program for each event.
  abbrev pub hook_of : Option (L2capEvent → Program H) → Option (Hook host errors)
  hook_of none = none
  hook_of (some program) = some (λ e h. run_program (program e) h)

  abbrev pub heard_owned : Option (L2capEvent → Program H) → Option L2capEvent → H → List ℕ → List ℕ
  heard_owned none e h l = l
  heard_owned (some program) none h l = l
  heard_owned (some program) (some e) h l = program_owned (program e) h l

  module _ (types : EventTypes) (hook : Option (L2capEvent → Program H)) where
    abbrev pub step : Call → H → H
    step (send chan bytes) h = (l2cap_send host errors chan bytes h).1
    step (recv_ready chan size) h = (l2cap_recv_ready host errors chan size h).1
    step (event e) h = (l2cap_event_cb host errors types (hook_of hook) e h).1

    abbrev pub run : List Call → H → H
    run [] h = h
    run (c ∷ cs) h = run cs (step c h)

    -- The mbufs that a call owns, before those of a list: made of the data, allocated, or owned by the
    -- hook of an event and then received with the event.
    abbrev pub owned : Call → H → List ℕ → List ℕ
    owned (send chan bytes) h l = noted (made bytes h) l
    owned (recv_ready chan size) h l = noted (allocated size h) l
    owned (event e) h l =
        noted (if e.type_ == types.data_received then e.sdu_rx else 0)
          (heard_owned hook (from_raw types e) h l)

    abbrev pub all_owned : List Call → H → List ℕ → List ℕ
    all_owned [] h l = l
    all_owned (c ∷ cs) h l = all_owned cs (step c h) (owned c h l)

  module _ (given : H → List ℕ) where
    -- The hook's own work gives away no mbuf.
    abbrev pub KeepsMbufs : Program H → Type 0
    KeepsMbufs (status n) = Unit
    KeepsMbufs (work f p) = ((h : H) → given (f h) ≡ given h) × KeepsMbufs p
    KeepsMbufs (choose k) = (h : H) → KeepsMbufs (k h)
    KeepsMbufs (sends chan bytes k) = (r : Result SendOutcome) → KeepsMbufs (k r)
    KeepsMbufs (receives chan size k) = (r : Result {0} Unit) → KeepsMbufs (k r)

    abbrev pub HookKeeps : Option (L2capEvent → Program H) → Type 0
    HookKeeps none = Unit
    HookKeeps (some program) = (e : L2capEvent) → KeepsMbufs (program e)

    module _ (c : Contract host errors given) (apart : HasErrors host errors given) where
      noted_if_got :
          (om : ℕ) (h t : H) → Once host errors given om h t → given t ≡ noted om (given h)
      noted_if_got om h t (inl (z, e)) = let z' : (om == 0) ≡ true = ground arith in rw z' e
      noted_if_got om h t (inr (live, e)) = let l' : (om == 0) ≡ false = ground arith in rw l' e

      freed_or_null : (om : ℕ) (h : H) → given (free_mbuf host errors om h) ≡ noted om (given h)
      unfolding free_mbuf
      freed_or_null om h = elim (Bool-cases (om == 0)) [
        | inl z ↦ rw (z, free_mbuf) refl
        | inr live ↦ rw (live, free_mbuf) (c.frees om h)
      ]

      send-noted :
          (chan : ℕ) (bytes : List ℕ) (h : H)
          → given (l2cap_send host errors chan bytes h).1 ≡ noted (made bytes h) (given h)
      send-noted chan bytes h =
          noted_if_got _ h _ (send-Once host errors given c apart chan bytes h)

      recv-noted :
          (chan size : ℕ) (h : H)
          → given (l2cap_recv_ready host errors chan size h).1 ≡ noted (allocated size h) (given h)
      recv-noted chan size h = noted_if_got _ h _ (recv_ready-Once host errors given c chan size h)

      run_program-owned :
          (p : Program H) (h : H)
          → KeepsMbufs p
          → given (run_program p h).1 ≡ program_owned p h (given h)
      run_program-owned (status n) h k = refl
      run_program-owned (work f p) h (own, k) =
          run_program-owned p (f h) k ∙ ap (program_owned p (f h)) (own h)
      run_program-owned (choose q) h k = run_program-owned (q h) h (k h)
      run_program-owned (sends chan bytes q) h k =
          let r = l2cap_send host errors chan bytes h in
          run_program-owned (q r.0) r.1 (k r.0)
          ∙ ap (program_owned (q r.0) r.1) (send-noted chan bytes h)
      run_program-owned (receives chan size q) h k =
          let r = l2cap_recv_ready host errors chan size h in
          run_program-owned (q r.0) r.1 (k r.0)
          ∙ ap (program_owned (q r.0) r.1) (recv-noted chan size h)

      heard :
          (hook : Option (L2capEvent → Program H)) (e : Option L2capEvent) (h : H)
          → HookKeeps hook
          → given (dispatch_event host errors (hook_of hook) e h).1 ≡ heard_owned hook e h (given h)
      heard none e h k = refl
      heard (some program) none h k = refl
      heard (some program) (some e) h k = run_program-owned (program e) h (k e)

      module _ (types : EventTypes) (hook : Option (L2capEvent → Program H))
          (keeps : HookKeeps hook) where
        event-owned :
            (e : RawEvent) (h : H)
            → given (l2cap_event_cb host errors types (hook_of hook) e h).1
              ≡ owned types hook (event e) h (given h)
        unfolding l2cap_event_cb
        event-owned e h =
            let told = heard hook (from_raw types e) h keeps in
            elim (Bool-cases (e.type_ == types.data_received)) [
              | inl r ↦
                  rw (r, l2cap_event_cb)
                    (freed_or_null e.sdu_rx
                        (dispatch_event host errors (hook_of hook) (from_raw types e) h).1
                      ∙ ap (noted e.sdu_rx) told)
              | inr other ↦ rw (other, l2cap_event_cb) told
            ]

        step-owned :
            (call : Call) (h : H)
            → given (step types hook call h) ≡ owned types hook call h (given h)
        step-owned (send chan bytes) h = send-noted chan bytes h
        step-owned (recv_ready chan size) h = recv-noted chan size h
        step-owned (event e) h = event-owned e h

        -- Over any sequence of sends, receives and events, whatever their codes, the mbufs that are given
        -- away, by a free or by a call that takes them, are those that the calls owned, each once and in
        -- their order, so that none is leaked and none is freed twice. The subscribed hook, if any, may itself
        -- send and provide receive buffers, and its calls count like the others, before the received SDU. It
        -- holds if the C host keeps the contract, its codes for bad data and for busy are neither success
        -- nor a stall, and the hook gives away no mbuf but by those calls.
        pub run-owned :
            (calls : List Call) (h : H)
            → given (run types hook calls h) ≡ all_owned types hook calls h (given h)
        run-owned [] h = refl
        run-owned (call ∷ calls) h =
            run-owned calls (step types hook call h)
            ∙ ap (all_owned types hook calls (step types hook call h)) (step-owned call h)
