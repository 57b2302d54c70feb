-- ===== src/Hci/Transport/Command.antt =====
-- The way of a command from the C host's buffer to its acknowledgement.
use nimble_rs.Base.{
  ℕ, zero, suc, ◌+◌, ◌≤◌, ◌<◌, ◌≡◌, refl, ap, sym, subst, ◌∙◌, true, Option, none, some, [], ◌∷◌,
  Option-cases, inl, inr, ◌++◌, arith, length, if◌then◌else◌, leb,
}
use nimble_rs.Hci.Packet.{Packet, ◌>>=◌, from_le_bytes, extend_from_slice, cmd_packet_max}
use nimble_rs.Hci.Commands.{Features}
use nimble_rs.Hci.Dispatch.{Parties, send_cmd}
use nimble_rs.Hci.Dispatch.Laws.{Fits, IsAck, IsAcked, take_event, send_cmd-IsAcked}
use nimble_rs.Hci.Transport.{
  CMemory, Queues, give_back, read_bytes, length_byte, try_send, ble_transport_to_ll_cmd_impl,
  AclController, run_tx,
}
use nimble_rs.Hci.Transport.Drain.{run_tx-drained}

read_bytes-append : (n : ℕ) (p more : Packet) → length p ≡ n → read_bytes n (p ++ more) ≡ some p
unfolding read_bytes
read_bytes-append zero [] more h = refl
read_bytes-append zero (b ∷ p) more h = absurd (omega arith)
read_bytes-append (suc n) [] more h = absurd (omega arith)
read_bytes-append (suc n) (b ∷ p) more h =
    ap (λ o. o >>= (λ rest. some (b ∷ rest))) (read_bytes-append n p more (omega arith))

all_kept : (p : Packet) → length p ≤ cmd_packet_max → extend_from_slice cmd_packet_max p [] ≡ some p
all_kept p h =
    let fits : leb (0 + length p) cmd_packet_max ≡ true = ground arith in
    ap (λ b. if b then some p else none) fits

abbrev pub no_packets : Queues
no_packets = record { cmd_queue = []; acl_queue = [] }

-- The controller and the host behind a run.
abbrev pub parties_after : {Q C H : Type 0} → Option (Q × (C × H)) → Option (C × H)
parties_after none = none
parties_after (some (q, w)) = some w

module _ {C P H A : Type 0} (parties : Parties C P H) (data_path : AclController C A)
    (f : Features) where
  -- The TX loop on one command: it waits again, with both queues empty, and the host was given one
  -- acknowledgement.
  pub one_command :
      Fits parties
      → (lo hi : ℕ) (rest : Packet) (ctl : C) (host : H)
      → (ev : Packet) × IsAck (from_le_bytes lo hi) ev
        × (ctl' : C) × (run_tx parties data_path f 2
              (record { cmd_queue = (lo ∷ hi ∷ rest) ∷ []; acl_queue = [] }, (ctl, host))
            ≡ some (no_packets, (ctl', take_event parties ev host)))
  one_command fits lo hi rest ctl host =
      let drained =
        run_tx-drained parties data_path f 2 ((lo ∷ hi ∷ rest) ∷ []) [] (ctl, host) (omega arith) in
      let acked = send_cmd-IsAcked parties fits f lo hi rest ctl host in
      elim (Option-cases (send_cmd parties f (lo ∷ hi ∷ rest) (ctl, host))) [
        | inl e ↦ absurd (subst (IsAcked parties (from_le_bytes lo hi) host) e acked)
        | inr ((ctl', h), e) ↦
            let (ev, ack, took) = subst (IsAcked parties (from_le_bytes lo hi) host) e acked in
            (
              ev,
              ack,
              ctl',
              drained
                  ∙ ap (λ o. (o >>= (λ v. some v)) >>= (λ v. some (no_packets, (v.0, v.1)))) e
                  ∙ ap (λ h'. some (no_packets, (ctl', h'))) took,
            )
      ]

module _ (mem_capacity unsupported acl_packet_max acl_queue_depth : ℕ) where
  pub to_ll_cmd_lem :
      (buf lo hi len : ℕ) (params more : Packet) (m : CMemory)
      → m.buffers buf ≡ lo ∷ hi ∷ len ∷ (params ++ more)
      → length params ≡ len
      → len < 256
      → ble_transport_to_ll_cmd_impl mem_capacity unsupported acl_packet_max acl_queue_depth buf
          no_packets m
        ≡ some (
          0,
          record { cmd_queue = (lo ∷ hi ∷ len ∷ params) ∷ []; acl_queue = [] },
          give_back buf m,
        )
  unfolding ble_transport_to_ll_cmd_impl length_byte try_send
  to_ll_cmd_lem buf lo hi len params more m at same small =
      let kept = all_kept (lo ∷ hi ∷ len ∷ params) (ground arith) in
      let all : read_bytes (3 + len) (lo ∷ hi ∷ len ∷ (params ++ more))
          ≡ some (lo ∷ hi ∷ len ∷ params) =
        read_bytes-append (3 + len) (lo ∷ hi ∷ len ∷ params) more (omega arith) in
      rw (at, all, kept) refl

  module _ {C P H A : Type 0} (parties : Parties C P H) (data_path : AclController C A)
      (f : Features) where
    unpacked :
        (o : Option (C × H))
        → parties_after (((o >>= (λ x. some x))) >>= (λ v. some (no_packets, (v.0, v.1)))) ≡ o
    unpacked none = refl
    unpacked (some w) = refl

    sent :
        (cmd : Packet) (w : C × H)
        → parties_after
            (run_tx parties data_path f 2 (record { cmd_queue = cmd ∷ []; acl_queue = [] }, w))
          ≡ send_cmd parties f cmd w
    sent cmd w =
        ap parties_after (run_tx-drained parties data_path f 2 (cmd ∷ []) [] w (omega arith))
        ∙ unpacked (send_cmd parties f cmd w)

    -- A command that the C host puts into a buffer, its parameters as long as its length byte says, is
    -- queued whole by the idle bridge with code 0, the buffer is given back exactly once, and the TX loop
    -- then makes one acknowledgement of the command's code for the host, whatever the command, if no
    -- command returns more than 251 bytes.
    pub command-IsAcked :
        Fits parties
        → (buf lo hi len : ℕ) (params more : Packet) (m : CMemory) (ctl : C) (host : H)
        → m.buffers buf ≡ lo ∷ hi ∷ len ∷ (params ++ more)
        → length params ≡ len
        → len < 256
        → (qs : Queues) × (qs.cmd_queue ≡ (lo ∷ hi ∷ len ∷ params) ∷ [])
          × (ble_transport_to_ll_cmd_impl mem_capacity unsupported acl_packet_max acl_queue_depth
                buf no_packets m
              ≡ some (0, qs, give_back buf m))
          × IsAcked parties
              (from_le_bytes lo hi)
              host
              (parties_after (run_tx parties data_path f 2 (qs, (ctl, host))))
    command-IsAcked fits buf lo hi len params more m ctl host at same small = (
      record { cmd_queue = (lo ∷ hi ∷ len ∷ params) ∷ []; acl_queue = [] },
      refl,
      to_ll_cmd_lem buf lo hi len params more m at same small,
      subst (IsAcked parties (from_le_bytes lo hi) host)
          (sym (sent (lo ∷ hi ∷ len ∷ params) (ctl, host)))
          (send_cmd-IsAcked parties fits f lo hi (len ∷ params) ctl host),
    )
