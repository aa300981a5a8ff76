-- ===== src/Daemon/Pane/Attach.antt =====
-- The replay that an attach begins with: what the client gets of it, and that it is the history.
use mult.Base.{
  ℕ, ◌+◌, ◌≡◌, refl, ap, ◌∙◌, subst, Bool, true, false, ◌&&◌, map, List, [], ◌∷◌, ◌++◌, arith,
  ==-self, length, concat, ◌==◌, if◌then◌else◌,
}
use mult.Daemon.History.{replay_chunks, contents}
use mult.Daemon.History.Append.{len-contents}
use mult.Daemon.History.Replay.{replay_chunks_lem}
use mult.Daemon.Client.{
  ClientHandle, ClientDelivery, ForegroundProcessInfo, try_enqueue, replay_begin, replay,
  replay_end, foreground_process,
}
use mult.Daemon.Pane.{PaneState, and_then, replay_frames, finish_replay, deliver_attach_transaction}
use mult.Daemon.Pane.Sequence.{IsSequenced}
use mult.Daemon.Pane.Frames.{
  HasRoom, queued, Delivers, whole, cut, numbered, Replays, try_enqueue-Delivers, and_then-Delivers,
  replay_frames-Replays,
}

module _ (request_id lease : ℕ) (p : PaneState) (foreground : ForegroundProcessInfo) where
  -- The retained output, each frame with the number of its first byte.
  abbrev pub replayed : List ClientDelivery
  replayed = numbered (replay request_id p.pane lease) p.history_start (replay_chunks p.raw_history)

  abbrev pub last_two : List ClientDelivery
  last_two =
      replay_end request_id p.pane lease p.next_output
      ∷ foreground_process p.pane lease foreground
      ∷ []

  abbrev pub transaction : ClientDelivery → List ClientDelivery
  transaction response =
      response
      ∷ replay_begin request_id p.pane lease p.history_start p.next_output p.history_start
      ∷ (replayed ++ last_two)

  abbrev last_deliveries : ClientHandle → Bool × ClientHandle
  last_deliveries c =
      and_then (try_enqueue c (replay_end request_id p.pane lease p.next_output))
        (λ d. try_enqueue d (foreground_process p.pane lease foreground))

  last_two-Delivers : (client : ClientHandle) → Delivers client last_two (last_deliveries client)
  last_two-Delivers client =
      let ending = replay_end request_id p.pane lease p.next_output in
      let process = foreground_process p.pane lease foreground in
      and_then-Delivers client (ending ∷ []) (process ∷ []) (try_enqueue client ending)
        (λ d. try_enqueue d process) (try_enqueue-Delivers client ending)
        (try_enqueue-Delivers (queued client (ending ∷ [])) process)

  finish_step :
      (client : ClientHandle) (sequence : ℕ) (xs : List ClientDelivery) (r : Bool × ClientHandle)
      → Delivers client xs r
      → (r.0 ≡ true → sequence ≡ p.next_output)
      → Delivers client
          (xs ++ last_two)
          (if r.0 && (sequence == p.next_output) then last_deliveries r.1 else (false, r.1))
  finish_step client sequence xs _ whole ends =
      let all : (sequence == p.next_output) ≡ true =
        ap (λ k. k == p.next_output) (ends refl) ∙ ==-self p.next_output in
      rw all (
        and_then-Delivers client xs last_two (true, queued client xs) last_deliveries whole
          (last_two-Delivers (queued client xs)))
  finish_step client sequence xs _ (cut sent rest e full) ends =
      and_then-Delivers client xs last_two (false, queued client sent) last_deliveries
        (cut sent rest e full) (last_two-Delivers (queued client xs))

  finish-Delivers :
      (client : ClientHandle) (r : Bool × ℕ × ClientHandle)
      → Replays client replayed p.next_output r
      → Delivers client (replayed ++ last_two) (finish_replay p request_id lease foreground r)
  unfolding finish_replay
  finish-Delivers client (accepted, sequence, c) v =
      finish_step client sequence replayed (accepted, c) v.delivers v.ends

  -- A client gets the attach response, the begin of the replay with its bounds, the retained output in
  -- frames that are numbered without a gap from the start of the history, and its end; or, when it
  -- cannot take them all, a prefix of these.
  pub deliver_attach_transaction-Delivers :
      (client : ClientHandle) (response : ClientDelivery)
      → IsSequenced p
      → Delivers client
          (transaction response)
          (deliver_attach_transaction client response request_id lease p foreground)
  unfolding deliver_attach_transaction
  deliver_attach_transaction-Delivers client response s =
      let first =
        replay_begin request_id p.pane lease p.history_start p.next_output p.history_start in
      let opened = response ∷ first ∷ [] in
      let chunks = replay_chunks p.raw_history in
      let full : p.history_start + length (concat chunks) ≡ p.next_output = omega (
        arith,
        ap length (replay_chunks_lem p.raw_history s.history_valid).0,
        len-contents p.raw_history s.history_valid,
        s.numbered,
      ) in
      and_then-Delivers client opened (replayed ++ last_two)
        (and_then (try_enqueue client response) (λ c. try_enqueue c first))
        (λ c.
          finish_replay p request_id lease foreground
            (replay_frames chunks request_id p.pane lease p.history_start c))
        (and_then-Delivers client (response ∷ []) (first ∷ []) (try_enqueue client response)
          (λ c. try_enqueue c first) (try_enqueue-Delivers client response)
          (try_enqueue-Delivers (queued client (response ∷ [])) first))
        (finish-Delivers (queued client opened) _ (
          subst
            (λ n.
              Replays (queued client opened) replayed n (
                replay_frames chunks request_id p.pane lease p.history_start
                  (queued client opened)))
            full
            (replay_frames-Replays request_id p.pane lease chunks p.history_start
              (queued client opened) (omega (arith, full, s.in_range)))))

  room-whole :
      (client : ClientHandle) (frames : List ClientDelivery) (r : Bool × ClientHandle)
      → HasRoom client (length frames)
      → Delivers client frames r
      → r ≡ (true, queued client frames)
  room-whole client frames _ room whole = refl
  room-whole client frames _ room (cut sent rest e full) = absurd (full room)

  -- A connected client whose queue has room for the transaction gets all of it.
  pub deliver_attach_transaction-room :
      (client : ClientHandle) (response : ClientDelivery)
      → IsSequenced p
      → HasRoom client (length (transaction response))
      → deliver_attach_transaction client response request_id lease p foreground
        ≡ (true, queued client (transaction response))
  deliver_attach_transaction-room client response s room =
      room-whole client (transaction response) _ room
        (deliver_attach_transaction-Delivers client response s)

abbrev pub replay_payload : ClientDelivery → List ℕ
replay_payload (replay request_id pane lease sequence bytes) = bytes
replay_payload _ = []

numbered-payload :
    (request_id pane lease sequence : ℕ) (pieces : List (List ℕ))
    → map replay_payload (numbered (replay request_id pane lease) sequence pieces) ≡ pieces
unfolding numbered
numbered-payload request_id pane lease sequence [] = refl
numbered-payload request_id pane lease sequence (piece ∷ pieces) =
    ap (◌∷◌ piece) (numbered-payload request_id pane lease (sequence + length piece) pieces)

-- The frames of a replay put together are the retained output, byte for byte.
pub replayed-contents :
    (request_id lease : ℕ) (p : PaneState) (foreground : ForegroundProcessInfo)
    → IsSequenced p
    → concat (map replay_payload (replayed request_id lease p foreground)) ≡ contents p.raw_history
replayed-contents request_id lease p foreground s =
    ap concat
      (numbered-payload request_id p.pane lease p.history_start (replay_chunks p.raw_history))
    ∙ (replay_chunks_lem p.raw_history s.history_valid).0
