-- ===== src/Daemon/Leased/Owner.antt =====
-- Who may change a pane.
use mult.Base.{ℕ, ◌≡◌, ◌↔◌, inl, inr, Bool, true, false, some, arith, Option-cases}
use mult.Base.Equality.{nat_eq}
use mult.Base.Result.{ok}
use mult.Daemon.Client.{ClientHandle}
use mult.Daemon.Pane.{PaneState, AttachmentOwner, is_running}
use mult.Daemon.Leased.{validate_lease, validate_mutation_lease}

-- The connected client of this scope holds this lease of a running pane, and the daemon is up.
pub record IsOwner (p : PaneState) (is_shutting_down : Bool) (scope : ℕ) (client : ClientHandle)
    (lease : ℕ) : Type 0 where
  pub up : is_shutting_down ≡ false
  pub runs : is_running p.lifecycle ≡ true
  pub owner : AttachmentOwner
  pub owned : p.owner ≡ some owner
  pub same_lease : owner.lease ≡ lease
  pub same_scope : owner.scope ≡ scope
  pub same_client : owner.client ≡ client.id
  pub connected : client.is_active ≡ true

-- A mutation passes the check exactly if it comes from the owner.
pub validate_mutation_lease-iff-IsOwner :
    (p : PaneState) (is_shutting_down : Bool) (scope : ℕ) (client : ClientHandle) (lease : ℕ)
    → (validate_mutation_lease p is_shutting_down scope client lease ≡ ok tt)
      ↔ IsOwner p is_shutting_down scope client lease
unfolding validate_mutation_lease validate_lease
validate_mutation_lease-iff-IsOwner p down scope client lease = (
  λ h. elim (Option-cases p.owner) [
    | inl nobody ↦ absurd (ground arith)
    | inr (o, owned) ↦ record {
      up = ground arith;
      runs = ground arith;
      owner = o;
      owned = owned;
      same_lease = ground arith;
      same_scope = ground arith;
      same_client = ground arith;
      connected = ground arith;
    }
  ],
  λ v.
      ground (arith, v.up, v.runs, v.owned, v.same_lease, v.same_scope, v.same_client, v.connected),
)
