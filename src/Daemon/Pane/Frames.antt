-- ===== src/Daemon/Pane/Frames.antt =====
-- What a client gets of a run of deliveries: all of them, or a prefix after which it is given up.
use mathlib.Core.List.{append-nil, append_assoc}
use mult.Base.{
  ℕ, ◌+◌, ◌≤◌, ◌<◌, ◌≡◌, refl, sym, ap, ◌∙◌, subst, inl, inr, Bool, true, false, some, List, [],
  ◌∷◌, ◌++◌, arith, Bool-cases, Bool-clash, length, length-append, concat, ltb, if◌then◌else◌,
}
use mult.Protocol.Ids.{checked_add_bytes, u64_limit}
use mult.Daemon.Client.{ClientHandle, ClientDelivery, try_enqueue, client_queue_capacity, replay}
use mult.Daemon.Pane.{and_then, replay_frames}

abbrev pub queued : ClientHandle → List ClientDelivery → ClientHandle
queued client deliveries = record client { queue = client.queue ++ deliveries }

-- The connection is up and its queue takes so many more deliveries.
abbrev pub HasRoom : ClientHandle → ℕ → Type 0
HasRoom client n = (client.is_active ≡ true) × (length client.queue + n ≤ client_queue_capacity)

pub data Delivers (client : ClientHandle) (deliveries : List ClientDelivery)
    : Bool × ClientHandle → Type 0 where
  whole : Delivers client deliveries (true, queued client deliveries)
  cut :
      (sent rest : List ClientDelivery)
      → sent ++ rest ≡ deliveries
      → ¬ HasRoom client (length deliveries)
      → Delivers client deliveries (false, queued client sent)

pub queued-nil : (client : ClientHandle) → queued client [] ≡ client
queued-nil client = ap (λ q. record client { queue = q }) (append-nil client.queue)

pub queued-append :
    (client : ClientHandle) (xs ys : List ClientDelivery)
    → queued (queued client xs) ys ≡ queued client (xs ++ ys)
queued-append client xs ys = ap (λ q. record client { queue = q }) (append_assoc client.queue xs ys)

cut_at_once :
    (client : ClientHandle) (deliveries : List ClientDelivery)
    → ¬ HasRoom client (length deliveries)
    → Delivers client deliveries (false, client)
cut_at_once client deliveries full =
    subst (λ c. Delivers client deliveries (false, c)) (queued-nil client)
      (cut [] deliveries refl full)

enqueued :
    (client : ClientHandle) (d : ClientDelivery)
    → client.is_active ≡ true
    → ltb (length client.queue) client_queue_capacity ≡ true
    → (true, queued client (d ∷ [])) ≡ try_enqueue client d
unfolding try_enqueue
enqueued client d active room = ground arith

pub try_enqueue-Delivers :
    (client : ClientHandle) (d : ClientDelivery) → Delivers client (d ∷ []) (try_enqueue client d)
unfolding try_enqueue
try_enqueue-Delivers client d = elim (Bool-cases client.is_active) [
  | inr gone ↦ simp (gone, try_enqueue) (cut_at_once client (d ∷ []) (λ h. Bool-clash h.0 gone))
  | inl active ↦ elim (Bool-cases (ltb (length client.queue) client_queue_capacity)) [
    | inl room ↦ subst (Delivers client (d ∷ [])) (enqueued client d active room) whole
    | inr full ↦
        simp (active, full, try_enqueue) (cut_at_once client (d ∷ []) (λ h. ground (arith, h.1)))
  ]
]

pub room_for_both :
    (client : ClientHandle) (xs ys : List ClientDelivery)
    → HasRoom client (length (xs ++ ys))
    → HasRoom client (length xs) × HasRoom (queued client xs) (length ys)
room_for_both client xs ys (active, room) =
    let sum = length-append xs ys in
    let more = length-append client.queue xs in ((active, omega arith), (active, omega arith))

extend :
    (client : ClientHandle) (xs ys : List ClientDelivery) (r : Bool × ClientHandle)
    → Delivers (queued client xs) ys r
    → Delivers client (xs ++ ys) r
extend client xs ys _ whole =
    subst (λ c. Delivers client (xs ++ ys) (true, c)) (sym (queued-append client xs ys)) whole
extend client xs ys _ (cut sent rest e full) =
    subst (λ c. Delivers client (xs ++ ys) (false, c)) (sym (queued-append client xs sent))
      (cut (xs ++ sent) rest (append_assoc xs sent rest ∙ ap (◌++◌ xs) e)
        (λ h. full (room_for_both client xs ys h).1))

pub and_then-Delivers :
    (client : ClientHandle) (xs ys : List ClientDelivery) (r : Bool × ClientHandle)
    (f : ClientHandle → Bool × ClientHandle)
    → Delivers client xs r
    → Delivers (queued client xs) ys (f (queued client xs))
    → Delivers client (xs ++ ys) (and_then r f)
and_then-Delivers client xs ys _ f whole k = extend client xs ys (f (queued client xs)) k
and_then-Delivers client xs ys _ f (cut sent rest e full) k =
    cut sent (rest ++ ys) (sym (append_assoc sent rest ys) ∙ ap (λ t. t ++ ys) e)
      (λ h. full (room_for_both client xs ys h).0)

-- Pieces of output, each with the number of its first byte.
unfoldable pub numbered : (ℕ → List ℕ → ClientDelivery) → ℕ → List (List ℕ) → List ClientDelivery
numbered frame sequence [] = []
numbered frame sequence (piece ∷ pieces) =
    frame sequence piece ∷ numbered frame (sequence + length piece) pieces

-- What the loop of an attach transaction leaves, up to the number that it ends at.
pub record Replays (client : ClientHandle) (frames : List ClientDelivery) (end_ : ℕ)
    (r : Bool × ℕ × ClientHandle) : Type 0 where
  pub delivers : Delivers client frames (r.0, r.2)
  pub ends : r.0 ≡ true → r.1 ≡ end_

module _ (request_id pane lease : ℕ) where
  abbrev frame : ℕ → List ℕ → ClientDelivery
  frame = replay request_id pane lease

  replay_step :
      (client : ClientHandle) (sequence : ℕ) (chunk : List ℕ) (chunks : List (List ℕ))
      (r : Bool × ClientHandle)
      → Delivers client (frame sequence chunk ∷ []) r
      → ((c : ClientHandle)
          → Replays c
              (numbered frame (sequence + length chunk) chunks)
              (sequence + length chunk + length (concat chunks))
              (replay_frames chunks request_id pane lease (sequence + length chunk) c))
      → Replays client
          (frame sequence chunk ∷ numbered frame (sequence + length chunk) chunks)
          (sequence + length chunk + length (concat chunks))
          (if r.0
            then replay_frames chunks request_id pane lease (sequence + length chunk) r.1
            else (false, sequence + length chunk, r.1))
  replay_step client sequence chunk chunks _ whole rest = record {
    delivers =
        extend client (frame sequence chunk ∷ []) (numbered frame (sequence + length chunk) chunks)
          _ (rest (queued client (frame sequence chunk ∷ []))).delivers;
    ends = (rest (queued client (frame sequence chunk ∷ []))).ends;
  }
  replay_step client sequence chunk chunks _ (cut sent left e full) rest = record {
    delivers =
        let others = numbered frame (sequence + length chunk) chunks in
        cut sent (left ++ others) (sym (append_assoc sent left others) ∙ ap (λ t. t ++ others) e)
          (λ h. full (room_for_both client (frame sequence chunk ∷ []) others h).0);
    ends = λ h. absurd (ground arith);
  }

  pub replay_frames-Replays :
      (chunks : List (List ℕ)) (sequence : ℕ) (client : ClientHandle)
      → sequence + length (concat chunks) < u64_limit
      → Replays client
          (numbered frame sequence chunks)
          (sequence + length (concat chunks))
          (replay_frames chunks request_id pane lease sequence client)
  unfolding replay_frames numbered
  replay_frames-Replays [] sequence client h = record {
    delivers = subst (λ c. Delivers client [] (true, c)) (queued-nil client) whole;
    ends = λ e. omega arith;
  }
  replay_frames-Replays (chunk ∷ chunks) sequence client h =
      let more = length-append chunk (concat chunks) in
      let fits : checked_add_bytes sequence (length chunk) ≡ some (sequence + length chunk) =
        ground arith in
      rw (fits, replay_frames)
        (subst
          (λ n. Replays client (numbered frame sequence (chunk ∷ chunks)) n (
            if (try_enqueue client (frame sequence chunk)).0
            then replay_frames chunks request_id pane lease (sequence + length chunk)
                (try_enqueue client (frame sequence chunk)).1
            else (false, sequence + length chunk, (try_enqueue client (frame sequence chunk)).1)))
          (omega arith)
          (replay_step client sequence chunk chunks (try_enqueue client (frame sequence chunk))
            (try_enqueue-Delivers client (frame sequence chunk))
            (λ c. replay_frames-Replays chunks (sequence + length chunk) c (omega arith))))
