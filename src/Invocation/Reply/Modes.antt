-- ===== src/Invocation/Reply/Modes.antt =====
-- The two ways to answer agree on what is refused, and a busy instance is never a fault of the server.
use chutes_api.Base.{
  ℕ, ◌<◌, ◌≡◌, ◌≢◌, refl, sym, ◌∙◌, ◌⊎◌, inl, inr, Bool, true, false, List, [], ◌∷◌, none, some,
  String, arith,
}
use chutes_api.Invocation.Calls.{
  infra_overload, bad_request, exhausted, no_backend, backend_error, Event, attempting, identified,
  result, succeeded, failed_on, error, Call, Round, World, invoke,
}
use chutes_api.Invocation.Calls.Counting.{count_where, is_limit, is_outage, is_success, IsClosed}
use chutes_api.Invocation.Calls.Course.{invoke-IsServed}
use chutes_api.Invocation.Reply.{
  Status, internal_server_error, Reply, refused, response, streamed, Piece, value, reply,
  reply_once, status_of, stream_trace, stream_plain, stream_rest,
}

reply_once-some : (chunk : String) (es : List Event) → reply_once (some chunk) es ≡ response chunk
unfolding reply_once
reply_once-some chunk [] = refl
reply_once-some chunk (e ∷ es) = reply_once-some chunk es

-- Both refuse, with one status; or both begin with one result.
abbrev pub Agree : Reply → Reply → Type 0
Agree at_once in_stream =
    ((status : Status) × (at_once ≡ refused status) × (in_stream ≡ refused status))
    ⊎ ((chunk : String) × (pieces : List Piece) × (at_once ≡ response chunk)
        × (in_stream ≡ streamed (value chunk ∷ pieces)))

modes-Agree : (es : List Event) → Agree (reply_once none es) (stream_plain es)
unfolding reply_once stream_plain
modes-Agree [] = inl (internal_server_error, refl, refl)
modes-Agree (result chunk ∷ es) = inr (chunk, stream_rest es, reply_once-some chunk es, refl)
modes-Agree (error name ∷ es) = inl (status_of name, refl, refl)
modes-Agree (identified n ∷ es) = modes-Agree es
modes-Agree (attempting id ∷ es) = modes-Agree es
modes-Agree (succeeded id ∷ es) = modes-Agree es
modes-Agree (failed_on id ending ∷ es) = modes-Agree es

-- With no trace asked for, a request is refused as a stream exactly when it is refused at once, with the same
-- status, whatever the events; if it is not refused, the stream begins with what would be the answer at once.
pub reply-Agree : (es : List Event) → Agree (reply false false es) (reply true false es)
unfolding reply
reply-Agree es = modes-Agree es

unblamed :
    (es : List Event)
    → IsClosed es
    → count_where is_success es ≡ 0
    → count_where is_outage es ≡ 0
    → reply_once none es ≢ refused internal_server_error
unfolding reply_once status_of count_where
unblamed [] c s o e = c
unblamed (result chunk ∷ es) c s o e = cc (reply_once-some chunk es)
unblamed (error infra_overload ∷ es) c s o e = cc
unblamed (error bad_request ∷ es) c s o e = cc
unblamed (error exhausted ∷ es) c s o e = omega arith
unblamed (error no_backend ∷ es) c s o e = omega arith
unblamed (error backend_error ∷ es) c s o e = omega arith
unblamed (succeeded id ∷ es) c s o e = omega arith
unblamed (identified n ∷ []) c s o e = cc
unblamed (identified n ∷ f ∷ es) c s o e = unblamed (f ∷ es) c.1 (omega arith) (omega arith) e
unblamed (attempting id ∷ []) c s o e = cc
unblamed (attempting id ∷ f ∷ es) c s o e = unblamed (f ∷ es) c.1 (omega arith) (omega arith) e
unblamed (failed_on id ending ∷ []) c s o e = cc
unblamed (failed_on id ending ∷ f ∷ es) c s o e =
    unblamed (f ∷ es) c.1 (omega arith) (omega arith) e

-- A stream is refused as the answer at once is, and one with a trace only where there is no event.
reply-unblamed :
    (stream include_trace : Bool) (es : List Event)
    → IsClosed es
    → reply_once none es ≢ refused internal_server_error
    → reply stream include_trace es ≢ refused internal_server_error
unfolding reply stream_trace
reply-unblamed stream true [] c at_once h = c
reply-unblamed stream true (e ∷ es) c at_once h = absurd cc
reply-unblamed false false es c at_once h = at_once h
reply-unblamed true false es c at_once h = elim (modes-Agree es) [
  | inl (status, once, in_stream) ↦ at_once (once ∙ (sym in_stream ∙ h))
  | inr (chunk, pieces, once, in_stream) ↦ absurd cc
]

-- An invocation that fails, and for which some instance answered that it is at its limit, is not
-- refused with HTTP 500: neither at once nor as a stream, with or without a trace.
pub invoke-unblamed :
    {A : Type 0} (call : Call) (settle : A → A) (round : ℕ → Round) (w : World A)
    (stream include_trace : Bool)
    → let events = (invoke call settle round w).events in
      0 < count_where is_limit events
      → count_where is_success events ≡ 0
      → reply stream include_trace events ≢ refused internal_server_error
invoke-unblamed call settle round w stream include_trace limited failed =
    let served = invoke-IsServed call settle round w in
    reply-unblamed stream include_trace (invoke call settle round w).events served.0
      (unblamed (invoke call settle round w).events served.0 failed (served.5 limited))
