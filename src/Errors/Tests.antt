-- ===== src/Errors/Tests.antt =====
-- Errors that Classify looks at, and the theorem about one.
use smolllm_go.Prelude.{◌≡◌, false, ◌||◌, none, some, [], ◌∷◌}
use smolllm_go.Text.{lit}
use smolllm_go.Errors.{
  advance, abort, HttpError, Err, http, wrap, str, ErrorDecoder, errors_is, is_canceled,
  is_deadline, as_http, classify,
}
use smolllm_go.Errors.Policy.{CallEnded, HttpPolicy, classify-policy}

abbrev unread : ErrorDecoder
unread t = none

abbrev overloaded : Err
overloaded =
    wrap (str (lit "sending request: ") ∷ [])
      (http (record { status_code = 529; body = []; no_retry = false })) []

classify-policy_example :
    (CallEnded overloaded → classify unread overloaded ≡ abort)
    × ((errors_is is_canceled overloaded || errors_is is_deadline overloaded) ≡ false
        → as_http overloaded ≡ none
        → classify unread overloaded ≡ advance)
    × ((h : HttpError)
        → (errors_is is_canceled overloaded || errors_is is_deadline overloaded) ≡ false
        → as_http overloaded ≡ some h
        → HttpPolicy unread h (classify unread overloaded))
classify-policy_example = classify-policy unread overloaded
