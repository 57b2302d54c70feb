-- ===== src/Hci/Transport/Drain.antt =====
-- What the TX loop does with the packets that are queued.
use nimble_rs.Base.{
  ℕ, zero, suc, ◌+◌, ◌<◌, ◌≡◌, refl, Option, some, List, [], ◌∷◌, arith, length, Option-cases, inl,
  inr,
}
use nimble_rs.Hci.Packet.{Packet, ◌>>=◌}
use nimble_rs.Hci.Commands.{Features}
use nimble_rs.Hci.Dispatch.{Parties, send_cmd}
use nimble_rs.Hci.Transport.{
  Queues, AclController, write_acl, tx_queued, run_tx, ble_transport_ll_deinit, drop_all,
}

drop_all-nil : (q : List Packet) → drop_all q ≡ []
unfolding drop_all
drop_all-nil [] = refl
drop_all-nil (p ∷ q) = drop_all-nil q

-- Whatever is queued when the transport is taken down is dropped.
pub ll_deinit-empty :
    (qs : Queues) → ble_transport_ll_deinit qs ≡ record { cmd_queue = []; acl_queue = [] }
unfolding ble_transport_ll_deinit
ll_deinit-empty qs =
    λ i. record { cmd_queue = drop_all-nil qs.cmd_queue i; acl_queue = drop_all-nil qs.acl_queue i }

module _ {C P H A : Type 0} (parties : Parties C P H) (data_path : AclController C A)
    (f : Features) where
  -- The commands in order, up to a panic.
  abbrev pub send_all : List Packet → C × H → Option (C × H)
  send_all [] w = some w
  send_all (cmd ∷ cmds) w = send_cmd parties f cmd w >>= send_all cmds

  -- The data packets in order.
  abbrev pub write_all : List Packet → C → C
  write_all [] ctl = ctl
  write_all (acl ∷ acls) ctl = write_all acls (write_acl parties data_path f acl ctl)

  abbrev drained : List Packet → C × H → Queues × (C × H)
  drained acls (ctl, host) = (record { cmd_queue = []; acl_queue = [] }, (write_all acls ctl, host))

  run_tx-acls :
      (fuel : ℕ) (acls : List Packet) (ctl : C) (host : H)
      → length acls < fuel
      → run_tx parties data_path f fuel (record { cmd_queue = []; acl_queue = acls }, (ctl, host))
        ≡ some (drained acls (ctl, host))
  unfolding run_tx tx_queued
  run_tx-acls zero acls ctl host h = absurd (omega arith)
  run_tx-acls (suc fuel) [] ctl host h = refl
  run_tx-acls (suc fuel) (acl ∷ acls) ctl host h =
      run_tx-acls fuel acls (write_acl parties data_path f acl ctl) host (omega arith)

  -- The loop ends, waiting, with both queues empty, after at most one round for each packet and
  -- one more: it has sent every command in order, and then written every data packet in order,
  -- whatever became of each of them; it fails exactly if sending one of the commands panics.
  pub run_tx-drained :
      (fuel : ℕ) (cmds acls : List Packet) (w : C × H)
      → length cmds + length acls < fuel
      → run_tx parties data_path f fuel (record { cmd_queue = cmds; acl_queue = acls }, w)
        ≡ (send_all cmds w >>= (λ v. some (drained acls v)))
  unfolding run_tx tx_queued
  run_tx-drained fuel [] acls w h = run_tx-acls fuel acls w.0 w.1 (omega arith)
  run_tx-drained zero (cmd ∷ cmds) acls w h = absurd (omega arith)
  run_tx-drained (suc fuel) (cmd ∷ cmds) acls w h = elim (Option-cases (send_cmd parties f cmd w)) [
    | inl e ↦ rw (e, run_tx, tx_queued) refl
    | inr (v, e) ↦ rw (e, run_tx, tx_queued) (run_tx-drained fuel cmds acls v (omega arith))
  ]
