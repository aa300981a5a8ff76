-- ===== src/Daemon/Client.antt =====
-- src/bin/mult-server.rs, `ClientHandle`: the bounded queue of deliveries to one client. A handle is
-- shared; the functions that use it take it and return it. Of the messages, those about a pane that
-- the model sends are kept; `other` is any other one.
use mult.Base.{ℕ, Bool, true, false, not, Option, List, [], ◌∷◌, ◌++◌, length, ltb, if◌then◌else◌}
use mult.Protocol.Reject.{LeaseOperation, LeaseRejectionReason}

pub record ForegroundProcessInfo : Type 0 where
  pub root_pid : Option ℕ
  pub foreground_pid : Option ℕ
  pub command : Option (List ℕ)

-- `ClientDelivery`, with the fields of each message in the source's order.
pub data ClientDelivery : Type 0 where
  attach_result : ℕ → ℕ → ClientDelivery
  replay_begin : ℕ → ℕ → ℕ → ℕ → ℕ → ℕ → ClientDelivery
  replay : ℕ → ℕ → ℕ → ℕ → List ℕ → ClientDelivery
  replay_end : ℕ → ℕ → ℕ → ℕ → ClientDelivery
  foreground_process : ℕ → ℕ → ForegroundProcessInfo → ClientDelivery
  output : ℕ → ℕ → ℕ → List ℕ → ClientDelivery
  lease_rejected : ℕ → ℕ → LeaseOperation → LeaseRejectionReason → ClientDelivery
  pane_exited : ℕ → ℕ → ℕ → ClientDelivery
  other : ℕ → ClientDelivery

abbrev pub client_queue_capacity : ℕ
client_queue_capacity = 1024

pub record ClientHandle : Type 0 where
  pub id : ℕ
  pub is_active : Bool
  pub queue : List ClientDelivery

unfoldable pub try_enqueue : ClientHandle → ClientDelivery → Bool × ClientHandle
try_enqueue client delivery =
    if not client.is_active
    then (false, client)
    else if ltb (length client.queue) client_queue_capacity
    then (true, record client { queue = client.queue ++ (delivery ∷ []) })
    else (false, client)

unfoldable pub disconnect : ClientHandle → ClientHandle
disconnect client = record client { is_active = false }
