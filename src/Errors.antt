-- ===== src/Errors.antt =====
-- Error values and the policy on them, from smolllm/errors.go: HTTPError, LegError, Disposition,
-- Classify. An error keeps its chain of causes, which errors.Is and errors.As walk.
use smolllm_go.Prelude.{
  ℕ, ◌<◌, ◌≡◌, refl, Bool, true, false, ◌&&◌, ◌||◌, Option, none, some, List, [], ◌∷◌, ◌++◌, ltb,
  ◌==◌, if◌then◌else◌,
}
use smolllm_go.Text.{Text, lit, text_eq, is_empty, trim_space, join, itoa}
use smolllm_go.Call.{PreparedCall, preview_api_key}
pub mod Policy
pub mod Tests

-- What a format verb of fmt.Errorf prints: %s, %q, %d.
pub data Piece : Type 0 where
  str : Text → Piece
  quoted : Text → Piece
  num : ℕ → Piece

abbrev pub Message : Type 0
Message = List Piece

-- HTTPError
pub record HttpError : Type 0 where
  pub status_code : ℕ
  pub body : Text
  pub no_retry : Bool

-- Disposition
pub data Disposition : Type 0 where
  retry advance abort : Disposition

-- Disposition.String
unfoldable pub disposition_name : Disposition → Text
disposition_name retry = lit "retry"
disposition_name advance = lit "advance"
disposition_name abort = lit "abort"

-- The fields of LegError but its cause.
pub record LegInfo : Type 0 where
  pub provider : Text
  pub model : Text
  pub model_name : Text
  pub api_key_hint : Text
  pub retries : ℕ
  pub status_code : ℕ
  pub disposition : Disposition

-- The values behind the interface `error`: the sentinels, an error with a message only, one that
-- wraps a cause between two pieces of text (%w), a leg's failure, and two that errors.Join joins.
pub data Err : Type 0 where
  canceled deadline_exceeded leg_budget_exceeded : Err
  http : HttpError → Err
  plain : Message → Err
  wrap : Message → Err → Message → Err
  leg : LegInfo → Err → Err
  joined : Err → Err → Err

-- LegError
pub record LegError : Type 0 where
  pub info : LegInfo
  pub cause : Err

-- A *LegError as an `error`.
abbrev pub as_err : LegError → Err
as_err l = leg l.info l.cause

-- A function that returns (A, error).
pub data Result {ℓ} (A : Type ℓ) : Type ℓ where
  ok : A → Result A
  err : Err → Result A

infixl 5 ◌>>=◌
abbrev pub ◌>>=◌ {ℓ κ} : {A : Type ℓ} {B : Type κ} → Result A → (A → Result B) → Result B
err failure >>= next = err failure
ok value >>= next = next value

-- fmt.Errorf("prefix: %w", err) on an error result.
abbrev pub context {ℓ} : {A : Type ℓ} → Message → Result A → Result A
context m (ok a) = ok a
context m (err e) = err (wrap m e [])

-- errors.Is(e, context.Canceled), errors.Is(e, context.DeadlineExceeded) and
-- errors.Is(e, ErrLegBudgetExceeded), as one walk over the causes.
unfoldable pub errors_is : (Err → Bool) → Err → Bool
errors_is target canceled = target canceled
errors_is target deadline_exceeded = target deadline_exceeded
errors_is target leg_budget_exceeded = target leg_budget_exceeded
errors_is target (http h) = false
errors_is target (plain m) = false
errors_is target (wrap a e b) = errors_is target e
errors_is target (leg i e) = errors_is target e
errors_is target (joined e f) = errors_is target e || errors_is target f

abbrev pub is_canceled : Err → Bool
is_canceled canceled = true
is_canceled _ = false

abbrev pub is_deadline : Err → Bool
is_deadline deadline_exceeded = true
is_deadline _ = false

abbrev pub is_leg_budget : Err → Bool
is_leg_budget leg_budget_exceeded = true
is_leg_budget _ = false

abbrev pub or_else {ℓ} : {A : Type ℓ} → Option A → Option A → Option A
or_else none b = b
or_else (some a) b = some a

-- errors.As(e, &httpErr)
unfoldable pub as_http : Err → Option HttpError
as_http canceled = none
as_http deadline_exceeded = none
as_http leg_budget_exceeded = none
as_http (http h) = some h
as_http (plain m) = none
as_http (wrap a e b) = as_http e
as_http (leg i e) = as_http e
as_http (joined e f) = or_else (as_http e) (as_http f)

-- errors.As(e, &leg) for a *LegError
unfoldable pub as_leg : Err → Option LegError
as_leg canceled = none
as_leg deadline_exceeded = none
as_leg leg_budget_exceeded = none
as_leg (http h) = none
as_leg (plain m) = none
as_leg (wrap a e b) = as_leg e
as_leg (leg i e) = some (record { info = i; cause = e })
as_leg (joined e f) = or_else (as_leg e) (as_leg f)

-- What encoding/json reads from an error body: `error.param` and `error.code`, each where it is a
-- string. `none` for a body that does not decode.
abbrev pub ErrorDecoder : Type 0
ErrorDecoder = Text → Option (Option Text × Option Text)

-- legLocalParams
abbrev pub leg_local_param : Text → Bool
leg_local_param p = text_eq p (lit "model") || text_eq p (lit "response_format")

-- legLocalCodes
abbrev pub leg_local_code : Text → Bool
leg_local_code c =
    text_eq c (lit "unsupported_parameter")
    || text_eq c (lit "unsupported_value")
    || text_eq c (lit "model_not_found")
    || text_eq c (lit "invalid_api_key")

abbrev pub holds {ℓ} : {A : Type ℓ} → (A → Bool) → Option A → Bool
holds p none = false
holds p (some a) = p a

-- legLocalRejection
unfoldable pub leg_local_rejection : ErrorDecoder → Text → Bool
leg_local_rejection decode body = elim (decode body) [
  | none ↦ false
  | some (param, code) ↦ holds leg_local_param param || holds leg_local_code code
]

-- statusOverloaded
abbrev pub status_overloaded : ℕ
status_overloaded = 529

-- http.StatusBadRequest and http.StatusUnprocessableEntity
abbrev pub is_rejection : ℕ → Bool
is_rejection s = s == 400 || s == 422

abbrev pub is_transient : ℕ → Bool
is_transient s = s == 500 || s == 502 || s == 503 || s == 504 || s == status_overloaded

-- The `switch httpErr.StatusCode` of Classify.
unfoldable pub classify_http : ErrorDecoder → HttpError → Disposition
unfolding leg_local_rejection
classify_http decode h =
    if is_rejection h.status_code
    then if leg_local_rejection decode h.body then advance else abort
    else if is_transient h.status_code
    then if h.no_retry then advance else retry
    else advance

-- Classify of an error that is not nil.
unfoldable pub classify : ErrorDecoder → Err → Disposition
unfolding errors_is as_http classify_http
classify decode e =
    if errors_is is_canceled e || errors_is is_deadline e
    then abort
    else elim (as_http e) [ none ↦ advance | some h ↦ classify_http decode h ]

-- leg.StatusCode
abbrev pub status_of : Option HttpError → ℕ
status_of none = 0
status_of (some h) = h.status_code

-- newLegError
unfoldable pub new_leg_error : ErrorDecoder → Option PreparedCall → Text → ℕ → Err → LegError
unfolding classify preview_api_key
new_leg_error decode none model n e = record {
  info = record {
    provider = [];
    model = trim_space model;
    model_name = [];
    api_key_hint = [];
    retries = n;
    status_code = status_of (as_http e);
    disposition = classify decode e;
  };
  cause = e;
}
new_leg_error decode (some call) model n e = record {
  info = record {
    provider = call.provider.name;
    model = call.model;
    model_name = call.model_name;
    api_key_hint = preview_api_key call.api_key;
    retries = n;
    status_code = status_of (as_http e);
    disposition = classify decode e;
  };
  cause = e;
}

-- asLegError
unfoldable pub as_leg_error : ErrorDecoder → Text → Err → LegError
unfolding as_leg new_leg_error
as_leg_error decode model e = elim (as_leg e) [
  | none ↦ new_leg_error decode none model 0 e
  | some l ↦ l
]

-- joinLegErrors
unfoldable pub join_leg_errors : List Err → Err
join_leg_errors [] = plain (str (lit "no models were attempted") ∷ [])
join_leg_errors (e ∷ []) = e
join_leg_errors (e ∷ f ∷ es) = joined e (join_leg_errors (f ∷ es))

-- The text of an error. `quote` is strconv.Quote, which rests on the tables of Unicode.
module _ (quote : Text → Text) where
  unfoldable pub print_message : Message → Text
  print_message [] = []
  print_message (str s ∷ m) = s ++ print_message m
  print_message (quoted s ∷ m) = quote s ++ print_message m
  print_message (num n ∷ m) = itoa n ++ print_message m

  -- The head of LegError.Error
  unfoldable pub leg_heading : LegInfo → Text
  unfolding print_message
  leg_heading i =
      let shown : Text = if is_empty i.model then lit "<unresolved>" else i.model in
      if ltb 0 i.retries
      then print_message (
          str (lit "leg ")
          ∷ quoted shown
          ∷ str (lit " (retry ")
          ∷ num i.retries
          ∷ str (lit "): ")
          ∷ [])
      else print_message (str (lit "leg ") ∷ quoted shown ∷ str (lit ": ") ∷ [])

  -- error.Error()
  unfoldable pub error_text : Err → Text
  unfolding leg_heading
  error_text canceled = lit "context canceled"
  error_text deadline_exceeded = lit "context deadline exceeded"
  error_text leg_budget_exceeded = lit "leg budget exceeded before the response started"
  error_text (http h) = lit "http error " ++ (itoa h.status_code ++ (lit ": " ++ h.body))
  error_text (plain m) = print_message m
  error_text (wrap a e b) = print_message a ++ (error_text e ++ print_message b)
  error_text (leg i e) = leg_heading i ++ error_text e
  error_text (joined e f) = error_text e ++ (10 ∷ error_text f)
