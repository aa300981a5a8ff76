-- ===== src/Daemon/Attach/Displaced.antt =====
-- The lease of an owner that was displaced is never valid again.
use mult.Base.{ℕ, ◌≡◌, ◌≢◌, sym, ap, ◌∙◌, inl, inr, Bool, some, [], arith, Option-cases, subst}
use mathlib.Core.Option.{some_inj}
use mult.Base.Equality.{nat_eq}
use mult.Base.Map.{Map, get}
use mult.Base.Result.{ok}
use mult.Daemon.Registry.{ServerState}
use mult.Daemon.Client.{ClientHandle}
use mult.Daemon.Pane.{PaneState, AttachmentOwner}
use mult.Daemon.Leased.{validate_lease}
use mult.Daemon.Attach.{Attach, handle_attach_request}
use mult.Daemon.Attach.Takeover.{Takes, attach-Takes}
use mult.Daemon.Attach.Leases.{Steps, done, more, IsSpent, Moves}
use mult.Daemon.Attach.Moves.{attach-Moves, Step-Moves}

-- Every lease that an owner holds was handed out.
AreIssued : ServerState × Map ℕ PaneState → Type 0
AreIssued x =
    (k : ℕ) (p : PaneState) (o : AttachmentOwner)
    → get k x.1 ≡ some p
    → p.owner ≡ some o
    → IsSpent x.0 o.lease

-- A lease that was handed out and that the owner of a pane does not hold.
IsDead : ℕ → ℕ → ServerState × Map ℕ PaneState → Type 0
IsDead k lease x =
    IsSpent x.0 lease
    × ((p : PaneState) (o : AttachmentOwner)
        → get k x.1 ≡ some p
        → p.owner ≡ some o
        → o.lease ≢ lease)

Moves-AreIssued :
    {x y : ServerState × Map ℕ PaneState} → Moves x.0 x.1 y.0 y.1 → AreIssued x → AreIssued y
unfolding AreIssued
Moves-AreIssued {x = x} {y = y} m issued k q o there owned = elim (m.owners k q o there owned) [
  | inl (next, spent) ↦ spent
  | inr (p, before, found, had, same) ↦
      subst (IsSpent y.0) same (m.grows before.lease (issued k p before found had))
]

Moves-IsDead :
    {x y : ServerState × Map ℕ PaneState} (k lease : ℕ)
    → Moves x.0 x.1 y.0 y.1
    → IsDead k lease x
    → IsDead k lease y
unfolding IsDead IsSpent
Moves-IsDead k lease m (spent, unheld) = (
  m.grows lease spent,
  λ q o there owned same. elim (m.owners k q o there owned) [
    | inl (next, now_spent) ↦ absurd (omega (arith, spent o.lease next, same))
    | inr (p, before, found, had, eq) ↦ unheld p before found had (eq ∙ same)
  ],
)

Steps-AreIssued : {x y : ServerState × Map ℕ PaneState} → Steps x y → AreIssued x → AreIssued y
Steps-AreIssued done issued = issued
Steps-AreIssued (more steps step) issued =
    Moves-AreIssued (Step-Moves step) (Steps-AreIssued steps issued)

Steps-IsDead :
    {x y : ServerState × Map ℕ PaneState} (k lease : ℕ)
    → Steps x y
    → IsDead k lease x
    → IsDead k lease y
Steps-IsDead k lease done dead = dead
Steps-IsDead k lease (more steps step) dead =
    Moves-IsDead k lease (Step-Moves step) (Steps-IsDead k lease steps dead)

nothing_issued : (s : ServerState) → AreIssued (s, [])
unfolding AreIssued get
nothing_issued s k p o there owned = absurd (ground arith)

-- A dead lease is never let in.
dead_refused :
    (x : ServerState × Map ℕ PaneState) (k lease : ℕ) (p : PaneState) (scope : ℕ)
    (client : ClientHandle)
    → IsDead k lease x
    → get k x.1 ≡ some p
    → validate_lease p scope client lease ≢ ok tt
unfolding validate_lease IsDead
dead_refused x k lease p scope client (spent, unheld) there passed = elim (Option-cases p.owner) [
  | inl nobody ↦ ground arith
  | inr (o, owned) ↦ unheld p o there owned (ground arith)
]

-- The owner's lease is dead once an attach has given the pane away.
attach-IsDead :
    (s t : ServerState) (panes after : Map ℕ PaneState) (is_set : Bool) (request : Attach)
    (scope selected lease : ℕ) (p : PaneState) (old : AttachmentOwner)
    → AreIssued (s, panes)
    → get request.session panes ≡ some p
    → p.owner ≡ some old
    → handle_attach_request s panes is_set request scope selected ≡ (ok lease, (t, after))
    → (lease ≢ old.lease) × IsDead request.session old.lease (t, after)
unfolding AreIssued IsDead IsSpent
attach-IsDead s t panes after is_set request scope selected lease p old issued there had e =
    let k = attach-Takes s t panes after is_set request scope selected lease e in
    let spent = issued request.session p old there had in
    let below = spent lease k.fresh in
    let moves : Moves s panes t after =
      subst (λ r. Moves s panes r.1.0 r.1.1) e
        (attach-Moves s panes is_set request scope selected) in
    (
      omega (arith, below),
      (
        moves.grows old.lease spent,
        λ q o found owned same.
            let eq : q ≡ k.pane = some_inj.0 (sym found ∙ k.there) in
            let now : o.lease ≡ lease =
              ap (λ (a : AttachmentOwner). a.lease)
                (some_inj.0 (sym owned ∙ ap (λ y. y.owner) eq ∙ k.owned)) in
            omega (arith, below, now, same),
      ),
    )

-- Take any history (of attaches, leased operations and other events that hand out no lease) from a
-- daemon without panes to a pane with an owner. An attach to it that succeeds gives out the next
-- lease, which is not that of the owner before, and makes the selected connection the owner; and
-- after any such history from then on, the lease of the owner before is not valid for that pane,
-- whichever scope and connection use it.
pub displaced_lease_refused :
    (start s t u : ServerState) (panes after later : Map ℕ PaneState) (is_set : Bool)
    (request : Attach) (scope selected lease : ℕ) (p q : PaneState) (old : AttachmentOwner)
    (any_scope : ℕ) (client : ClientHandle)
    → Steps (start, []) (s, panes)
    → get request.session panes ≡ some p
    → p.owner ≡ some old
    → handle_attach_request s panes is_set request scope selected ≡ (ok lease, (t, after))
    → Steps (t, after) (u, later)
    → get request.session later ≡ some q
    → Takes s request scope selected lease t after
      × (lease ≢ old.lease)
      × (validate_lease q any_scope client old.lease ≢ ok tt)
displaced_lease_refused start s t u panes after later is_set request scope selected lease p q old
      any_scope client before there had e afterwards found =
    let issued = Steps-AreIssued before (nothing_issued start) in
    let (fresh, dead) =
      attach-IsDead s t panes after is_set request scope selected lease p old issued there had e in
    (
      attach-Takes s t panes after is_set request scope selected lease e,
      fresh,
      dead_refused (u, later) request.session old.lease q any_scope client
          (Steps-IsDead request.session old.lease afterwards dead) found,
    )
