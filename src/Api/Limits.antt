-- ===== src/Api/Limits.antt =====
-- src/app/api/limits.py: the cap on the body of a request. The application behind the middleware is
-- any one: a tree of the calls that it makes.
pub mod Capped
pub mod Refused
use growtrics_challenge.Common.{
  ℕ, suc, ◌+◌, Bool, true, false, ◌&&◌, not, Option, none, some, List, [], ◌∷◌, ◌++◌, length,
  if◌then◌else◌, ltb,
}
use growtrics_challenge.Common.Split.{strip_prefix}
use growtrics_challenge.Common.Text.{Str, codes, str_eq, decimal}
use growtrics_challenge.Api.{ErrorBody, envelope_for}
use growtrics_challenge.Domain.Errors.{ErrorCode}

abbrev pub body_too_large_status : ℕ
body_too_large_status = 413

abbrev pub capped_methods : List Str
capped_methods = codes "POST" ∷ codes "PUT" ∷ codes "PATCH" ∷ []

abbrev pub capped_path_prefix : Str
capped_path_prefix = codes "/v1"

-- An ASGI scope; a header is a name and a value.
pub record Scope : Type 0 where
  pub kind : Str
  pub method : Str
  pub path : Str
  pub headers : List (Str × Str)

-- What the client sends: a part of the body, or another message.
pub data Message : Type 0 where
  request : Str → Message
  other : Str → Message

-- What goes back to the client: a message of the application, or the refusal, with its status.
pub data Reply : Type 0 where
  message : Str → Reply
  refusal : ℕ → ErrorBody → Reply

-- An application: it returns, lets `_BodyTooLarge` through, raises something else, asks for a message
-- and goes on with it, or with nothing where the call raises `_BodyTooLarge`, or sends a message.
pub data App : Type 0 where
  returned too_large failed : App
  receive : (Option Message → App) → App
  send : Str → App → App

pub data Event : Type 0 where
  received : Option Message → Event
  sent : Reply → Event

-- How the call of an application ended.
pub data End : Type 0 where
  returned too_large failed : End

abbrev is_in : Str → List Str → Bool
is_in s [] = false
is_in s (t ∷ ts) = let rest = is_in s ts in if str_eq s t then true else rest

abbrev has_prefix : Option Str → Bool
has_prefix none = false
has_prefix (some rest) = true

unfoldable pub is_capped : Scope → Bool
unfolding str_eq strip_prefix
is_capped scope =
    str_eq scope.kind (codes "http")
    && is_in scope.method capped_methods
    && has_prefix (strip_prefix capped_path_prefix scope.path)

unfoldable pub rejection : ℕ → Reply
rejection limit = refusal body_too_large_status (
    envelope_for ErrorCode.invalid_request (
      (codes "field", codes "body")
      ∷ (codes "rule", codes "max_bytes")
      ∷ (codes "limit", decimal limit)
      ∷ []))

-- `int(value)`, no answer where it raises; a negative length, which is over no limit, as zero.
abbrev pub IntOf : Type 0
IntOf = Str → Option ℕ

unfoldable pub length_in : IntOf → List (Str × Str) → Option ℕ
length_in int_of [] = none
length_in int_of ((name, value) ∷ headers) =
    let rest = length_in int_of headers in
    if str_eq name (codes "content-length") then int_of value else rest

unfoldable pub declared_length : IntOf → Scope → Option ℕ
unfolding length_in
declared_length int_of scope = length_in int_of scope.headers

abbrev pub over : Option ℕ → ℕ → Bool
over none max_bytes = false
over (some declared) max_bytes = ltb max_bytes declared

-- The variables that the two wrappers share.
pub record Counting : Type 0 where
  pub counted : ℕ
  pub exceeded : Bool
  pub answered : Bool

abbrev pub body_length : Message → ℕ
body_length (request body) = length body
body_length (other kind) = 0

abbrev pub is_request : Message → Bool
is_request (request body) = true
is_request (other kind) = false

-- The messages of the client, by the number of the call of `receive`.
module _ (incoming : ℕ → Message) where
  -- The application with nothing in front of it.
  unfoldable pub run_plain : App → ℕ → List Event × End
  run_plain returned n = ([], returned)
  run_plain too_large n = ([], too_large)
  run_plain failed n = ([], failed)
  run_plain (receive next) n =
      let (events, end) = run_plain (next (some (incoming n))) (suc n) in
      (received (some (incoming n)) ∷ events, end)
  run_plain (send words rest) n =
      let (events, end) = run_plain rest n in (sent (message words) ∷ events, end)

abbrev pub counts : ℕ → Message → Counting → Counting × Option Message
counts max_bytes m s =
    let counted = s.counted + body_length m in
    if not (is_request m)
    then (s, some m)
    else if ltb max_bytes counted
    then (record s { counted = counted; exceeded = true }, none)
    else (record s { counted = counted }, some m)

-- Whatever the application makes of an aborted read is dropped, unless it had started to answer.
abbrev pub is_dropped : Counting → Bool
is_dropped s = s.exceeded && not s.answered

abbrev pub unless_dropped : Bool → Str → List Event → List Event
unless_dropped true words events = events
unless_dropped false words events = sent (message words) ∷ events

abbrev pub answering : Bool → Counting → Counting
answering true s = s
answering false s = record s { answered = true }

-- The two exceptions at the end of a call: `_BodyTooLarge` is suppressed.
abbrev pub suppressed : End → End
suppressed too_large = returned
suppressed end = end

module _ (max_bytes : ℕ) (incoming : ℕ → Message) where
  -- The application with `receive_counting` and `send_unless_exceeded`.
  unfoldable pub run_counting : App → ℕ → Counting → List Event × Counting × End
  run_counting returned n s = ([], s, returned)
  run_counting too_large n s = ([], s, too_large)
  run_counting failed n s = ([], s, failed)
  run_counting (receive next) n s =
      let (t, got) = counts max_bytes (incoming n) s in
      let (events, u, end) = run_counting (next got) (suc n) t in (received got ∷ events, u, end)
  run_counting (send words rest) n s =
      let (events, u, end) = run_counting rest n (answering (is_dropped s) s) in
      (unless_dropped (is_dropped s) words events, u, end)

  unfoldable pub refuse_at_end : List Event → Counting → End → List Event × End
  refuse_at_end events s failed = (events, failed)
  refuse_at_end events s end =
      if is_dropped s
      then (events ++ (sent (rejection max_bytes) ∷ []), returned)
      else (events, returned)

  -- `BodyLimitMiddleware.__call__`
  unfoldable pub limited : IntOf → Scope → App → List Event × End
  unfolding run_plain refuse_at_end run_counting
  limited int_of scope app =
      let (events, s, end) =
        run_counting app 0 (record { counted = 0; exceeded = false; answered = false }) in
      if not (is_capped scope)
      then run_plain incoming app 0
      else if over (declared_length int_of scope) max_bytes
      then (sent (rejection max_bytes) ∷ [], returned)
      else refuse_at_end events s end
