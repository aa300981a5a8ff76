-- ===== src/Daemon/Attach/Tests.antt =====
-- An attach at concrete inputs: client 6 takes over the pane of client 4.
use mult.Base.{ℕ, ◌≡◌, ◌≢◌, refl, false, true, none, some, [], ◌∷◌, arith}
use mult.Base.Equality.{nat_eq}
use mult.Base.Map.{Map, get, put}
use mult.Base.Result.{ok}
use mult.Protocol.Ids.{SessionIdentity, identity_beq, checked_next}
use mult.Protocol.Screen.{bounded_screen_dimensions}
use mult.Protocol.Reject.{input}
use mult.Daemon.Registry.{ServerState, allocate_lease}
use mult.Daemon.Pane.{PaneState, running}
use mult.Daemon.Leased.{validate_lease, resize_pane, handle_leased_input}
use mult.Daemon.Attach.{Attach, attach_target, bind_owner, handle_attach_request}
use mult.Daemon.WriteQueue.{enqueue}
use mult.Daemon.Client.{ClientHandle}
use mult.Daemon.Leased.Owner.{IsOwner}
use mult.Daemon.Attach.Takeover.{Takes}
use mult.Daemon.Attach.Leases.{KeepsLeases, Steps, done, more, others, attaches}
use mult.Daemon.Attach.Displaced.{displaced_lease_refused}
use mult.Daemon.Attach.Overtaken.{overtaken_input}

abbrev one : SessionIdentity
one = record { namespace = 7; token = 1 }

abbrev server : ServerState
server = record {
  sessions = [];
  session_by_identity = [];
  reserved_sessions = [];
  reserved_identities = [];
  agent_states = [];
  next_session_id = 6;
  next_client_id = 7;
  next_lease = some 10;
  is_shutting_down = false;
}

abbrev pane : PaneState
pane = record {
  session = 5;
  identity = one;
  agent = none;
  pane = 5;
  rows = 24;
  cols = 80;
  raw_history = record { chunks = []; front_offset = 0; len = 0 };
  history_start = 0;
  next_output = 0;
  writes = record { pending = []; queued_bytes = 0; is_closed = false; capacity = 64 };
  owner = some (record { scope = 1; lease = 9; client = 4 });
  lifecycle = running;
  reader_done = false;
  child_exit = none;
  stop_driver_active = false;
  pending_stops = [];
}

abbrev request : Attach
request = record { identity = one; session = 5; rows = 30; cols = 90 }

abbrev later : ServerState
later = record server { next_lease = some 11 }

abbrev taken : Map ℕ PaneState
taken =
    (
      5,
      record pane {
        rows = 30;
        cols = 90;
        owner = some (record { scope = 2; lease = 10; client = 6 });
      },
    )
    ∷ []

attaches_next :
    handle_attach_request server ((5, pane) ∷ []) true request 2 6 ≡ (ok 10, (later, taken))
unfolding handle_attach_request attach_target bind_owner allocate_lease resize_pane get put
    identity_beq checked_next bounded_screen_dimensions
attaches_next = refl

-- A pane without an owner, then client 4 attaches to it, then client 6 does.
abbrev unowned : PaneState
unowned = record pane { owner = none }

abbrev start : ServerState
start = record server { next_lease = some 9 }

unowned-KeepsLeases : KeepsLeases [] ((5, unowned) ∷ [])
unfolding KeepsLeases get
unowned-KeepsLeases k q o there owned = absurd (ground arith)

abbrev first_request : Attach
first_request = record { identity = one; session = 5; rows = 24; cols = 80 }

history : Steps (start, []) (server, (5, pane) ∷ [])
unfolding handle_attach_request attach_target bind_owner allocate_lease resize_pane get put
    identity_beq checked_next bounded_screen_dimensions
history =
    more (more done (others {s = start} {t = start} refl unowned-KeepsLeases))
      (attaches {s = start} {panes = (5, unowned) ∷ []} true first_request 1 4)

abbrev owned_panes : Map ℕ PaneState
owned_panes = (5, pane) ∷ []

before : get 5 owned_panes ≡ some pane
unfolding get
before = refl

abbrev taken_pane : PaneState
taken_pane = record pane {
  rows = 30;
  cols = 90;
  owner = some (record { scope = 2; lease = 10; client = 6 });
}

behind : get 5 taken ≡ some taken_pane
unfolding get
behind = refl

abbrev new_lease : ℕ
new_lease = 10

abbrev old_client : ClientHandle
old_client = record { id = 4; is_active = true; queue = [] }

displaced_lease_refused_example :
    Takes server request 2 6 10 later taken
    × (new_lease ≢ 9)
    × (validate_lease taken_pane 1 old_client 9 ≢ ok tt)
displaced_lease_refused_example =
    displaced_lease_refused start server later later ((5, pane) ∷ []) taken taken true request 2 6
      10 pane taken_pane (record { scope = 1; lease = 9; client = 4 }) 1 old_client history before
      refl attaches_next done behind

holds : IsOwner pane false 1 old_client 9
holds = record {
  up = refl;
  runs = refl;
  owner = record { scope = 1; lease = 9; client = 4 };
  owned = refl;
  same_lease = refl;
  same_scope = refl;
  same_client = refl;
  connected = refl;
}

fits : (enqueue pane.writes (104 ∷ [])).0 ≡ ok tt
unfolding enqueue
fits = refl

overtaken_input_example :
    (k : Takes server request 2 6 10 later taken) × (handle_leased_input
        ((5, pane) ∷ [])
        false
        1
        old_client
        5
        9
        taken
        k.pane
        old_client
        (104 ∷ [])
        input
      ≡ (put 5 (record k.pane { writes = (enqueue pane.writes (104 ∷ [])).1 }) taken, old_client))
overtaken_input_example =
    overtaken_input server later ((5, pane) ∷ []) taken true request 2 6 10 pane false 1 old_client
      9 (104 ∷ []) input before holds fits attaches_next
