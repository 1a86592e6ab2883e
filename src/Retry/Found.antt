-- ===== src/Retry/Found.antt =====
-- Where a result of withRetry of smolllm/retry.go comes from.
use smolllm_go.Prelude.{
  ℕ, zero, suc, ◌≡◌, ap, ◌∙◌, ◌≢◌, inl, inr, Bool, not, ◌&&◌, Option, none, some, ltb, Bool-cases,
}
use smolllm_go.Errors.{Err, Result, ok, err, ErrorDecoder, classify}
use smolllm_go.Retry.{with_retry}
use smolllm_go.Retry.Rounds.{Result-cases, Disposition-cases}

module _ {A S : Type 0} (decode : ErrorDecoder) (waited : ℕ → Bool)
    (fn : ℕ → S → Result A × S) where
  abbrev pub Gives : A → Type 0
  Gives a = (i : ℕ) × (u : S) × ((fn i u).0 ≡ ok a)

  ended : (last : Option Err) (a : A) → elim last [ none ↦ ok none | some e ↦ err e ] ≢ ok (some a)
  ended none a h = cc
  ended (some e) a h = cc

  -- A result of withRetry is the result of an attempt.
  pub with_retry-Gives :
      (left n : ℕ) (last : Option Err) (s : S) (a : A)
      → (with_retry decode waited fn left n last s).1 ≡ ok (some a)
      → Gives a
  unfolding with_retry
  with_retry-Gives zero n last s a h = absurd (ended last a h)
  with_retry-Gives (suc left) n last s a h = elim (Bool-cases (ltb 0 n && not (waited n))) [
    | inl w ↦ absurd (ended last a (rw w at h))
    | inr w ↦ elim (Result-cases (fn n s).0) [
      | inl (b, p) ↦
          let same : ok (some b) ≡ ok (some a) = rw (w, p) at h in
          let e : b ≡ a = cc same in (n, s, p ∙ ap ok e)
      | inr (e, p) ↦ elim (Disposition-cases (classify decode e)) [
        | inl q ↦ with_retry-Gives left (suc n) (some e) (fn n s).1 a (rw (w, p, q) at h)
        | inr (inl q) ↦ cc (rw (w, p, q) at h)
        | inr (inr q) ↦ cc (rw (w, p, q) at h)
      ]
    ]
  ]
