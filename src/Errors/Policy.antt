-- ===== src/Errors/Policy.antt =====
-- What Classify decides, and what a failed leg reports.
use mathlib.Core.Path.{subst}
use smolllm_go.Prelude.{
  ℕ, ◌⊎◌, ◌≡◌, refl, sym, ◌↔◌, Bool, true, false, ◌||◌, none, some, arith, if◌then◌else◌,
}
use smolllm_go.Errors.{
  HttpError, Disposition, retry, advance, abort, Err, ErrorDecoder, errors_is, is_canceled,
  is_deadline, as_http, leg_local_rejection, is_rejection, is_transient, classify_http, classify,
}

-- The call itself ended: the context was cancelled, or its deadline passed.
abbrev pub CallEnded : Err → Type 0
CallEnded e = (errors_is is_canceled e || errors_is is_deadline e) ≡ true

-- What an HTTP error is to the chain, by its status alone and what its body and header say.
abbrev pub Rejects : ℕ → Type 0
Rejects s = (s ≡ 400) ⊎ (s ≡ 422)

-- A server error that may pass: 500, 502, 503, 504, and 529 of an overloaded provider.
abbrev pub Transient : ℕ → Type 0
Transient s = (s ≡ 500) ⊎ (s ≡ 502) ⊎ (s ≡ 503) ⊎ (s ≡ 504) ⊎ (s ≡ 529)

is_rejection_iff : (s : ℕ) → (is_rejection s ≡ true) ↔ Rejects s
is_rejection_iff s = ground arith

is_transient_iff : (s : ℕ) → (is_transient s ≡ true) ↔ Transient s
is_transient_iff s = ground arith

abbrev pub HttpPolicy : ErrorDecoder → HttpError → Disposition → Type 0
HttpPolicy decode h d =
    ((d ≡ abort) ↔ (Rejects h.status_code × (leg_local_rejection decode h.body ≡ false)))
    × ((d ≡ retry) ↔ (Transient h.status_code × (h.no_retry ≡ false)))

-- The tests of classify_http, as Booleans: rejected, local to the leg, transient, no retry.
abbrev decided : Bool → Bool → Bool → Bool → Disposition
decided r l t n =
    if r then if l then advance else abort else if t then if n then advance else retry else advance

decided-policy :
    (r l t n : Bool)
    → (r ≡ true → t ≡ false)
    → ((decided r l t n ≡ abort) ↔ ((r ≡ true) × (l ≡ false)))
      × ((decided r l t n ≡ retry) ↔ ((t ≡ true) × (n ≡ false)))
decided-policy true true t n x = (((λ e. cc), λ (a, b). cc), ((λ e. cc), λ (a, b). cc (x refl, a)))
decided-policy true false t n x =
    (((λ e. (refl, refl)), λ z. refl), ((λ e. cc), λ (a, b). cc (x refl, a)))
decided-policy false l true true x = (((λ e. cc), λ (a, b). cc), ((λ e. cc), λ (a, b). cc))
decided-policy false l true false x = (((λ e. cc), λ (a, b). cc), ((λ e. (refl, refl)), λ z. refl))
decided-policy false l false n x = (((λ e. cc), λ (a, b). cc), ((λ e. cc), λ (a, b). cc))

rejection_excludes : (s : ℕ) → is_rejection s ≡ true → is_transient s ≡ false
rejection_excludes s h = ground arith

classify_http-policy :
    (decode : ErrorDecoder) (h : HttpError) → HttpPolicy decode h (classify_http decode h)
unfolding classify_http
classify_http-policy decode h =
    let (a, b) =
      decided-policy (is_rejection h.status_code) (leg_local_rejection decode h.body)
        (is_transient h.status_code) h.no_retry (rejection_excludes h.status_code) in
    let (f, g) = is_rejection_iff h.status_code in
    let (k, l) = is_transient_iff h.status_code in
    (
      ((λ e. let (x, y) = a.0 e in (f x, y)), λ (x, y). a.1 (g x, y)),
      ((λ e. let (x, y) = b.0 e in (k x, y)), λ (x, y). b.1 (l x, y)),
    )

-- Classify: an error aborts the chain just where the call itself ended, or the provider rejected
-- the request with 400 or 422 for a reason that is not local to the leg; it is retried just where
-- the call goes on, and the status is one of the transient ones and the provider did not forbid a
-- retry. Anything else advances the chain.
pub classify-policy :
    (decode : ErrorDecoder) (e : Err)
    → (CallEnded e → classify decode e ≡ abort)
      × ((errors_is is_canceled e || errors_is is_deadline e) ≡ false
          → as_http e ≡ none
          → classify decode e ≡ advance)
      × ((h : HttpError)
          → (errors_is is_canceled e || errors_is is_deadline e) ≡ false
          → as_http e ≡ some h
          → HttpPolicy decode h (classify decode e))
unfolding classify
classify-policy decode e = (
  λ k. rw (k, classify) refl,
  λ k n. rw (k, n, classify) refl,
  λ h k s.
      subst (HttpPolicy decode h) (sym (rw (k, s, classify) refl)) (classify_http-policy decode h),
)
