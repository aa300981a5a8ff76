-- ===== src/Protocol/Reject.antt =====
-- crates/protocol/src/lib.rs: the machine-readable rejections. A message beside a code is diagnostic
-- text that nothing parses, and is left out.
use mult.Base.{Bool, true, false}

pub data RejectCode : Type 0 where
  protocol_mismatch protocol_order request_collision retry_expired : RejectCode
  too_many_pending_requests resource_exhausted unknown_session : RejectCode
  session_already_exists identity_mismatch not_owner stale_lease : RejectCode
  superseded input_refused agent_status_rejected shutting_down : RejectCode
  launch_failed daemon_internal : RejectCode

pub is_transient : RejectCode → Bool
is_transient too_many_pending_requests = true
is_transient input_refused = true
is_transient shutting_down = true
is_transient _ = false

pub data LeaseOperation : Type 0 where
  input paste resize detach : LeaseOperation

pub data LeaseRejectionReason : Type 0 where
  pane_missing lease_not_owner lease_stale write_refused : LeaseRejectionReason

pub lease_rejection_code : LeaseRejectionReason → RejectCode
lease_rejection_code pane_missing = unknown_session
lease_rejection_code lease_not_owner = not_owner
lease_rejection_code lease_stale = stale_lease
lease_rejection_code write_refused = input_refused
