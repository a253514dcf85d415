-- ===== src/Invocation/Reply.antt =====
-- The end of `_invoke` in api/invocation/router.py: how the events of an invocation become the answer to
-- the request, at once or as a stream.
pub mod Modes
pub mod Samples
use chutes_api.Base.{Bool, true, false, List, [], ◌∷◌, Option, none, some, String, map}
use chutes_api.Invocation.Calls.{
  ErrorName, infra_overload, bad_request, exhausted, no_backend, backend_error, Event, attempting,
  identified, result, succeeded, failed_on, error,
}

-- HTTP 429, 400 and 500.
pub data Status : Type 0 where
  too_many_requests bad_request_400 internal_server_error : Status

-- What a stream yields: an event as it is, with X-Chutes-Trace; the value of a result; or the text
-- that reports an error when the headers have been sent.
pub data Piece : Type 0 where
  raw : Event → Piece
  value : String → Piece
  unhandled : Piece

pub data Reply : Type 0 where
  refused : Status → Reply
  response : String → Reply
  streamed : List Piece → Reply

pub status_of : ErrorName → Status
status_of infra_overload = too_many_requests
status_of bad_request = bad_request_400
status_of exhausted = internal_server_error
status_of no_backend = internal_server_error
status_of backend_error = internal_server_error

-- "Non-streamed (which we actually do stream but we'll just return the first item)". The first argument
-- is the variable `response`.
pub reply_once : Option String → List Event → Reply
unfolding status_of
reply_once none [] = refused internal_server_error
reply_once (some content) [] = response content
reply_once (some content) (e ∷ es) = reply_once (some content) es
reply_once none (result chunk ∷ es) = reply_once (some chunk) es
reply_once none (error name ∷ es) = refused (status_of name)
reply_once none (identified n ∷ es) = reply_once none es
reply_once none (attempting id ∷ es) = reply_once none es
reply_once none (succeeded id ∷ es) = reply_once none es
reply_once none (failed_on id ending ∷ es) = reply_once none es

-- `_buffered_stream_response` after its first chunk, with no trace.
pub stream_rest : List Event → List Piece
stream_rest [] = []
stream_rest (result chunk ∷ es) = value chunk ∷ stream_rest es
stream_rest (error name ∷ es) = unhandled ∷ []
stream_rest (identified n ∷ es) = stream_rest es
stream_rest (attempting id ∷ es) = stream_rest es
stream_rest (succeeded id ∷ es) = stream_rest es
stream_rest (failed_on id ending ∷ es) = stream_rest es

-- `generator.__anext__()` and the answer; a generator that ends at once is an error.
pub stream_plain : List Event → Reply
unfolding status_of stream_rest
stream_plain [] = refused internal_server_error
stream_plain (result chunk ∷ es) = streamed (value chunk ∷ stream_rest es)
stream_plain (error name ∷ es) = refused (status_of name)
stream_plain (identified n ∷ es) = stream_plain es
stream_plain (attempting id ∷ es) = stream_plain es
stream_plain (succeeded id ∷ es) = stream_plain es
stream_plain (failed_on id ending ∷ es) = stream_plain es

stream_trace : List Event → Reply
stream_trace [] = refused internal_server_error
stream_trace (e ∷ es) = streamed (raw e ∷ map raw es)

-- `stream or include_trace`, and else the first item.
pub reply : (stream include_trace : Bool) → List Event → Reply
unfolding reply_once stream_plain stream_trace
reply stream true events = stream_trace events
reply true false events = stream_plain events
reply false false events = reply_once none events
