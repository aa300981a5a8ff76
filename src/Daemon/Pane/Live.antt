-- ===== src/Daemon/Pane/Live.antt =====
-- Live output behind a replay: the owner gets it numbered without a gap, or is disconnected.
use mathlib.Core.List.{append_assoc}
use mult.Base.{
  ℕ, ◌+◌, ◌<◌, ◌≡◌, refl, sym, ap, ◌∙◌, subst, Bool, some, List, [], ◌∷◌, ◌++◌, arith, length,
  length-append, concat, if◌then◌else◌,
}
use mult.Base.Result.{ok}
use mult.Protocol.Ids.{u64_limit}
use mult.Daemon.History.{raw_history_max_bytes}
use mult.Daemon.Client.{
  ClientHandle, ClientDelivery, ForegroundProcessInfo, try_enqueue, disconnect, output,
}
use mult.Daemon.Pane.{
  PaneState, AttachmentOwner, append_raw_history, publish_pty_output, deliver_or_disconnect,
  deliver_attach_transaction,
}
use mult.Daemon.Pane.Sequence.{IsSequenced, Appended, append_raw_history_with_limit-fits}
use mult.Daemon.Pane.Frames.{
  HasRoom, queued, Delivers, whole, cut, numbered, try_enqueue-Delivers, queued-append, queued-nil,
  room_for_both,
}
use mult.Daemon.Pane.Attach.{transaction, deliver_attach_transaction-room}

-- The reads of one pane's terminal, published one after another.
pub publish_all : PaneState → ClientHandle → List (List ℕ) → PaneState × ClientHandle
publish_all p client [] = (p, client)
publish_all p client (bytes ∷ reads) =
    let (result, next) = publish_pty_output p client bytes in publish_all next.0 next.1 reads

deliver_all : ClientHandle → List ClientDelivery → ClientHandle
deliver_all client [] = client
deliver_all client (d ∷ ds) = deliver_all (deliver_or_disconnect client d) ds

-- What a client has got: everything, or a prefix, after which its connection was ended.
pub data Gets (client : ClientHandle) (deliveries : List ClientDelivery)
    : ClientHandle → Type 0 where
  all_sent : Gets client deliveries (queued client deliveries)
  given_up :
      (sent rest : List ClientDelivery)
      → sent ++ rest ≡ deliveries
      → ¬ HasRoom client (length deliveries)
      → Gets client deliveries (disconnect (queued client sent))

deliver_all-disconnect :
    (client : ClientHandle) (ds : List ClientDelivery)
    → deliver_all (disconnect client) ds ≡ disconnect client
unfolding deliver_all deliver_or_disconnect try_enqueue disconnect
deliver_all-disconnect client [] = refl
deliver_all-disconnect client (d ∷ ds) = deliver_all-disconnect client ds

first-Gets :
    (client : ClientHandle) (d : ClientDelivery) (ds : List ClientDelivery)
    (r : Bool × ClientHandle)
    → Delivers client (d ∷ []) r
    → Gets (queued client (d ∷ [])) ds (deliver_all (queued client (d ∷ [])) ds)
    → Gets client (d ∷ ds) (deliver_all (if r.0 then r.1 else disconnect r.1) ds)
first-Gets client d ds _ (cut sent rest e full) k =
    subst (Gets client (d ∷ ds)) (sym (deliver_all-disconnect (queued client sent) ds)) (
      given_up sent (rest ++ ds) (sym (append_assoc sent rest ds) ∙ ap (λ t. t ++ ds) e)
        (λ h. full (room_for_both client (d ∷ []) ds h).0))
first-Gets client d ds _ whole k = later client d ds _ k
  where
    later :
        (client : ClientHandle) (d : ClientDelivery) (ds : List ClientDelivery) (c : ClientHandle)
        → Gets (queued client (d ∷ [])) ds c
        → Gets client (d ∷ ds) c
    later client d ds _ all_sent =
        subst (Gets client (d ∷ ds)) (sym (queued-append client (d ∷ []) ds)) all_sent
    later client d ds _ (given_up sent rest e full) =
        subst (λ c. Gets client (d ∷ ds) (disconnect c)) (sym (queued-append client (d ∷ []) sent))
          (given_up (d ∷ sent) rest (ap (◌∷◌ d) e)
            (λ h. full (room_for_both client (d ∷ []) ds h).1))

deliver_all-Gets :
    (client : ClientHandle) (ds : List ClientDelivery) → Gets client ds (deliver_all client ds)
unfolding deliver_all deliver_or_disconnect
deliver_all-Gets client [] = subst (Gets client []) (queued-nil client) all_sent
deliver_all-Gets client (d ∷ ds) =
    first-Gets client d ds (try_enqueue client d) (try_enqueue-Delivers client d)
      (deliver_all-Gets (queued client (d ∷ [])) ds)

-- One read of an owned pane with numbers left.
publish_fits :
    (p : PaneState) (owner : AttachmentOwner) (client : ClientHandle) (bytes : List ℕ)
    → IsSequenced p
    → p.owner ≡ some owner
    → p.next_output + length bytes < u64_limit
    → (q : PaneState) × (publish_pty_output p client bytes ≡ (
      ok tt,
      (q, deliver_or_disconnect client (output p.pane owner.lease p.next_output bytes)),
    ))
      × Appended p bytes raw_history_max_bytes q
unfolding publish_pty_output
publish_fits p owner client bytes s owned fits =
    let (q, runs, a) = append_raw_history_with_limit-fits p bytes raw_history_max_bytes s fits in
    let full : append_raw_history p bytes ≡ (ok p.next_output, q) =
      unfold append_raw_history in runs in
    (q, simp (full, owned, publish_pty_output) refl, a)

publish_all-deliver_all :
    (p : PaneState) (owner : AttachmentOwner) (client : ClientHandle) (reads : List (List ℕ))
    → IsSequenced p
    → p.owner ≡ some owner
    → p.next_output + length (concat reads) < u64_limit
    → IsSequenced (publish_all p client reads).0
      × ((publish_all p client reads).1
          ≡ deliver_all client (numbered (output p.pane owner.lease) p.next_output reads))
unfolding publish_all deliver_all numbered
publish_all-deliver_all p owner client [] s owned fits = (s, refl)
publish_all-deliver_all p owner client (bytes ∷ reads) s owned fits =
    let more = length-append bytes (concat reads) in
    let (q, runs, a) = publish_fits p owner client bytes s owned (omega arith) in
    let d = output p.pane owner.lease p.next_output bytes in
    let (still, same) =
      publish_all-deliver_all q owner (deliver_or_disconnect client d) reads a.sequenced
        (a.same_owner ∙ owned) (omega (arith, a.next)) in
    let frames = λ (pane n : ℕ).
      deliver_all (deliver_or_disconnect client d) (numbered (output pane owner.lease) n reads) in
    rw (runs, publish_all)
      (
        still,
        same ∙ ap (λ n. frames n q.next_output) a.same_pane ∙ ap (λ n. frames p.pane n) a.next,
      )

-- While numbers last, the owner of a pane gets the output of any run of reads in frames that are
-- numbered without a gap from the end of the history, or, when it cannot take them all, a prefix of
-- these, and is then disconnected.
pub publish_all-Gets :
    (p : PaneState) (owner : AttachmentOwner) (client : ClientHandle) (reads : List (List ℕ))
    → IsSequenced p
    → p.owner ≡ some owner
    → p.next_output + length (concat reads) < u64_limit
    → Gets client
        (numbered (output p.pane owner.lease) p.next_output reads)
        (publish_all p client reads).1
publish_all-Gets p owner client reads s owned fits =
    let frames = numbered (output p.pane owner.lease) p.next_output reads in
    subst (Gets client frames) (sym (publish_all-deliver_all p owner client reads s owned fits).1)
      (deliver_all-Gets client frames)

room-all_sent :
    (client c : ClientHandle) (frames : List ClientDelivery)
    → HasRoom client (length frames)
    → Gets client frames c
    → c ≡ queued client frames
room-all_sent client _ frames room all_sent = refl
room-all_sent client _ frames room (given_up sent rest e full) = absurd (full room)

-- A client with room that attaches to a pane and becomes its owner gets the retained output and then
-- every later read, each byte once: the live frames are numbered from where the replay ends.
pub attach_then_output :
    (p : PaneState) (owner : AttachmentOwner) (client : ClientHandle) (reads : List (List ℕ))
    (request_id : ℕ) (response : ClientDelivery) (foreground : ForegroundProcessInfo)
    → IsSequenced p
    → p.next_output + length (concat reads) < u64_limit
    → HasRoom client (
        length (
          transaction request_id owner.lease p foreground response
          ++ numbered (output p.pane owner.lease) p.next_output reads))
    → (publish_all
        (record p { owner = some owner })
        (deliver_attach_transaction client response request_id owner.lease p foreground).1
        reads).1
      ≡ queued client (
          transaction request_id owner.lease p foreground response
          ++ numbered (output p.pane owner.lease) p.next_output reads)
attach_then_output p owner client reads request_id response foreground s fits room =
    let frames = transaction request_id owner.lease p foreground response in
    let outputs = numbered (output p.pane owner.lease) p.next_output reads in
    let (first, second) = room_for_both client frames outputs room in
    let sequenced : IsSequenced (record p { owner = some owner }) = record {
      history_valid = s.history_valid;
      numbered = s.numbered;
      in_range = s.in_range;
    } in
    let attached =
      deliver_attach_transaction-room request_id owner.lease p foreground client response s first in
    ap (λ r. (publish_all (record p { owner = some owner }) r.1 reads).1) attached
    ∙ room-all_sent (queued client frames) _ outputs second (
        publish_all-Gets (record p { owner = some owner }) owner (queued client frames) reads
          sequenced refl fits)
    ∙ queued-append client frames outputs
