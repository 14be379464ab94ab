-- ===== src/Task/Server/Delivery.antt =====
-- The answers of the task server to requests for a chunk.
use zproc.Prelude.{
  if◌then◌else◌, Bool-cases, All, ok, Result-cases, Bytes, bytes_eq, bytes_eq_iff, ◌≡◌, refl, ap,
  ◌∙◌, inl, inr, false, Option, none, some, List, [], ◌∷◌, append_assoc, ◌++◌, map, arith,
}
use zproc.Task.Ids.{ℤ, decode_chunk_id}
use zproc.Task.Server.Keys.{index_eq_iff, IsBytes, decode_chunk_id_inj}
use zproc.Task.Server.{
  result, TaskResultServer, Event, request, chunk_result, Sent, start, drain, step,
}

abbrev pub chunk_id_of : {Ident C : Type 0} → Event Ident C → Bytes
chunk_id_of (request ident k) = k
chunk_id_of (chunk_result k c) = k

module _ {Ident C : Type 0} where
  -- The messages that the steps for one chunk id send, over a sequence of events.
  unfoldable pub answers : Bytes → List (Event Ident C) → TaskResultServer Ident C → Sent Ident C
  answers k [] s = []
  answers k (e ∷ es) s =
      let rest = answers k es (step e s).0 in
      if bytes_eq (chunk_id_of e) k then (step e s).1 ++ rest else rest

  -- The clients that ask for a chunk id, in order, and the results that come in for it.
  unfoldable pub requesters : Bytes → List (Event Ident C) → List Ident
  requesters k [] = []
  requesters k (request ident k' ∷ es) =
      let rest = requesters k es in if bytes_eq k' k then ident ∷ rest else rest
  requesters k (chunk_result k' c ∷ es) = requesters k es

  unfoldable pub results : Bytes → List (Event Ident C) → List C
  results k [] = []
  results k (request ident k' ∷ es) = results k es
  results k (chunk_result k' c ∷ es) =
      let rest = results k es in if bytes_eq k' k then c ∷ rest else rest

  -- What the server holds for one chunk: the waiting clients, or the result and nobody waiting.
  record Holds (k : Bytes) (key : Bytes × ℤ) (o : Option C) (q : List Ident)
      (s : TaskResultServer Ident C) : Type 0 where
    stored : s.result_store key.0 key.1 ≡ o
    waiting : s.pending k ≡ q

  module _ (k : Bytes) (key : Bytes × ℤ) (k_bytes : IsBytes k)
      (decoded : decode_chunk_id k ≡ ok key) where
    -- A step for another chunk id does not touch what is held for `k`.
    step_other :
        (e : Event Ident C) (s : TaskResultServer Ident C) {o : Option C} {q : List Ident}
        → IsBytes (chunk_id_of e)
        → bytes_eq (chunk_id_of e) k ≡ false
        → Holds k key o q s
        → Holds k key o q (step e s).0
    unfolding step
    step_other (request ident k') s e_bytes differs h =
        ground (arith, bytes_eq_iff k' k, bytes_eq_iff k k')
    step_other (chunk_result k' c) s e_bytes differs h = elim (Result-cases (decode_chunk_id k')) [
      | inl (key', e) ↦ ground (
        arith,
        bytes_eq_iff k' k,
        bytes_eq_iff k k',
        bytes_eq_iff key.0 key'.0,
        index_eq_iff key.1 key'.1,
        decode_chunk_id_inj k k' key k_bytes e_bytes decoded,
      )
      | inr (err, e) ↦ ground arith
    ]

    step_request_stored :
        (c : C) (ident : Ident) (s : TaskResultServer Ident C)
        → Holds k key (some c) [] s
        → step (request ident k) s ≡ (s, (ident, result c) ∷ [])
    unfolding step
    step_request_stored c ident s h = ground arith

    step_request_waiting :
        (ident : Ident) (q : List Ident) (s : TaskResultServer Ident C)
        → Holds k key none q s
        → ((step (request ident k) s).1 ≡ [])
          × Holds k key none (ident ∷ q) (step (request ident k) s).0
    unfolding step
    step_request_waiting ident q s h = ground (arith, bytes_eq_iff k k)

    step_chunk_result :
        (c : C) (o : Option C) (q : List Ident) (s : TaskResultServer Ident C)
        → Holds k key o q s
        → ((step (chunk_result k c) s).1 ≡ drain q c)
          × Holds k key (some c) [] (step (chunk_result k c) s).0
    unfolding step
    step_chunk_result c o q s h =
        ground (arith, bytes_eq_iff k k, bytes_eq_iff key.0 key.0, index_eq_iff key.1 key.1)

    -- Once the result is there, each request is answered at once.
    answers-stored :
        (c : C) (es : List (Event Ident C)) (s : TaskResultServer Ident C)
        → All (λ e. IsBytes (chunk_id_of e)) es
        → results k es ≡ []
        → Holds k key (some c) [] s
        → answers k es s ≡ map (λ ident. (ident, result c)) (requesters k es)
    unfolding answers requesters results
    answers-stored c [] s wf none_left h = refl
    answers-stored c (request ident k' ∷ es) s wf none_left h = elim (Bool-cases (bytes_eq k' k)) [
      | inl same ↦
          let e : k' ≡ k = (bytes_eq_iff k' k).0 same in
          rw (same, e, step_request_stored c ident s h)
            (ap (◌∷◌ (ident, result c)) (answers-stored c es s wf.1 none_left h))
      | inr differs ↦ rw differs (
          answers-stored c es (step (request ident k') s).0 wf.1 none_left
            (step_other (request ident k') s wf.0 differs h))
    ]
    answers-stored c (chunk_result k' c' ∷ es) s wf none_left h =
        elim (Bool-cases (bytes_eq k' k)) [
          | inl same ↦ absurd (ground arith)
          | inr differs ↦ rw differs (
              answers-stored c es (step (chunk_result k' c') s).0 wf.1 (ground arith)
                (step_other (chunk_result k' c') s wf.0 differs h))
        ]

    -- While the result is not there, the clients wait, and they are served first come first.
    answers-waiting :
        (c : C) (es : List (Event Ident C)) (q : List Ident) (s : TaskResultServer Ident C)
        → All (λ e. IsBytes (chunk_id_of e)) es
        → results k es ≡ c ∷ []
        → Holds k key none q s
        → answers k es s ≡ drain q c ++ map (λ ident. (ident, result c)) (requesters k es)
    unfolding answers requesters results drain
    answers-waiting c [] q s wf one h = cc
    answers-waiting c (request ident k' ∷ es) q s wf one h = elim (Bool-cases (bytes_eq k' k)) [
      | inl same ↦
          let e : k' ≡ k = (bytes_eq_iff k' k).0 same in
          let (silent, waits) = step_request_waiting ident q s h in
          rw (same, e, silent)
            (answers-waiting c es (ident ∷ q) (step (request ident k) s).0 wf.1 one waits
              ∙ append_assoc (drain q c) ((ident, result c) ∷ []) _)
      | inr differs ↦ rw differs (
          answers-waiting c es q (step (request ident k') s).0 wf.1 one
            (step_other (request ident k') s wf.0 differs h))
    ]
    answers-waiting c (chunk_result k' c' ∷ es) q s wf one h = elim (Bool-cases (bytes_eq k' k)) [
      | inl same ↦
          let e : k' ≡ k = (bytes_eq_iff k' k).0 same in
          let (sends, holds) = step_chunk_result c' none q s h in
          let last : c' ∷ results k es ≡ c ∷ [] = ground arith in
          let first : c' ≡ c = cc last in
          let none_left : results k es ≡ [] = cc last in
          rw (
            same,
            e,
            sends,
            answers-stored c' es (step (chunk_result k c') s).0 wf.1 none_left holds,
            first,
          )
      | inr differs ↦ rw differs (
          answers-waiting c es q (step (chunk_result k' c') s).0 wf.1 (ground arith)
            (step_other (chunk_result k' c') s wf.0 differs h))
    ]

    answers-none :
        (es : List (Event Ident C)) (q : List Ident) (s : TaskResultServer Ident C)
        → All (λ e. IsBytes (chunk_id_of e)) es
        → Holds k key none q s
        → results k es ≡ []
        → answers k es s ≡ []
    unfolding answers results
    answers-none [] q s wf h none_left = refl
    answers-none (request ident k' ∷ es) q s wf h none_left = elim (Bool-cases (bytes_eq k' k)) [
      | inl same ↦
          let e : k' ≡ k = (bytes_eq_iff k' k).0 same in
          let (silent, waits) = step_request_waiting ident q s h in
          rw (same, e, silent)
            (answers-none es (ident ∷ q) (step (request ident k) s).0 wf.1 waits none_left)
      | inr differs ↦ rw differs (
          answers-none es q (step (request ident k') s).0 wf.1
            (step_other (request ident k') s wf.0 differs h) none_left)
    ]
    answers-none (chunk_result k' c ∷ es) q s wf h none_left = elim (Bool-cases (bytes_eq k' k)) [
      | inl same ↦ absurd (ground arith)
      | inr differs ↦ rw differs (
          answers-none es q (step (chunk_result k' c) s).0 wf.1
            (step_other (chunk_result k' c) s wf.0 differs h) (ground arith))
    ]

  -- Whatever order the events come in: if one result comes in for a chunk id, then the messages
  -- that the server sends for this id are that result, once to each request for it, in the order of
  -- the requests, those before the result and those after it. If none comes in, nothing is sent.
  -- The chunk id decodes, and the ids of the events are bytes.
  pub answers_lem :
      (k : Bytes) (key : Bytes × ℤ) (es : List (Event Ident C))
      → IsBytes k
      → decode_chunk_id k ≡ ok key
      → All (λ e. IsBytes (chunk_id_of e)) es
      → ((c : C)
          → results k es ≡ c ∷ []
          → answers k es start ≡ map (λ ident. (ident, result c)) (requesters k es))
        × (results k es ≡ [] → answers k es start ≡ [])
  unfolding drain
  answers_lem k key es k_bytes decoded wf = (
    (λ c one.
        answers-waiting k key k_bytes decoded c es [] start wf one
          (record { stored = refl; waiting = refl })),
    answers-none k key k_bytes decoded es [] start wf (record { stored = refl; waiting = refl }),
  )
