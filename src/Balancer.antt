-- ===== src/Balancer.antt =====
-- smolllm/balancer.go: the least used pair of an API key and a base URL, drawn at random among
-- equals. The draw of rnd.Intn(n) is `v % n` for the value `v` of the random source.
use smolllm_go.Prelude.{
  Elem, Elem-append, get_or, Elem-get_or, ℕ, zero, suc, ◌+◌, ◌-◌, ◌*◌, ◌/◌, ◌%◌, ◌^◌, ◌≤◌, ◌<◌, min,
  ◌≡◌, refl, sym, ap, ◌∙◌, ◌≢◌, ◌↔◌, ◌⊎◌, inl, inr, Bool, true, false, not, ◌&&◌, ◌||◌, Option,
  none, some, List, [], ◌∷◌, ◌++◌, map, append-nil, append_assoc, arith, ltb, leb, ◌==◌,
  if◌then◌else◌, ==_iff, ==_refl, Bool-cases, Option-cases, is_some, length, get_elem?, take, drop,
  length-append, take-append-drop, length-drop, drop-length, length-map, All, All-append,
}
use smolllm_go.Text.{
  Text, lit, text_eq, is_empty, has_prefix, has_suffix, trim_space, trim_left, trim_right,
  trim_suffix, split, join, index, lower_byte, upper_byte, itoa,
}
use smolllm_go.Errors.{
  Piece, str, quoted, num, Message, HttpError, Disposition, retry, advance, abort, LegInfo, Err,
  canceled, deadline_exceeded, leg_budget_exceeded, http, plain, wrap, leg, joined, LegError,
  as_err, Result, ok, err, ◌>>=◌, context, errors_is, is_canceled, is_deadline, is_leg_budget,
  as_http, as_leg, ErrorDecoder, leg_local_rejection, classify_http, classify, new_leg_error,
  as_leg_error, join_leg_errors, error_text,
}
pub mod Pairs
pub mod Choice
pub mod Fairness
pub mod Tests

-- pairKey
pub record PairKey : Type 0 where
  pub key : Text
  pub url : Text

abbrev pub pair_eq : PairKey → PairKey → Bool
pair_eq p q = text_eq p.key q.key && text_eq p.url q.url

-- simpleBalancer. `configured` is whether `rnd` is set; the lock is held across choosePair, which
-- is one step.
pub record Balancer : Type 0 where
  pub usage : List (PairKey × ℕ)
  pub configured : Bool

-- newBalancer
abbrev pub new_balancer : Balancer
new_balancer = record { usage = []; configured = true }

-- b.usage[pair], 0 where the key is missing
unfoldable pub usage_of : List (PairKey × ℕ) → PairKey → ℕ
usage_of [] p = 0
usage_of ((q, n) ∷ m) p = if pair_eq q p then n else usage_of m p

-- b.usage[pair]++
unfoldable pub bump : List (PairKey × ℕ) → PairKey → List (PairKey × ℕ)
bump [] p = (p, 1) ∷ []
bump ((q, n) ∷ m) p = if pair_eq q p then (q, n + 1) ∷ m else (q, n) ∷ bump m p

-- The loop over the parts of parseList.
unfoldable pub trimmed_entries : List Text → Result (List Text)
trimmed_entries [] = ok []
trimmed_entries (item ∷ items) =
    let value = trim_space item in
    if is_empty value
    then err (plain (str (lit "list contains empty entry") ∷ []))
    else do rest ← trimmed_entries items; ok (value ∷ rest)

-- parseList
unfoldable pub parse_list : Text → Result (List Text)
unfolding trimmed_entries split trim_space
parse_list items =
    if is_empty (trim_space items)
    then err (plain (str (lit "value must not be empty") ∷ []))
    else trimmed_entries (split b',' items)

abbrev pub with_url : Text → Text → PairKey
with_url url key = record { key = key; url = url }

abbrev pub with_key : Text → Text → PairKey
with_key key url = record { key = key; url = url }

-- The loop over `i` where the counts match.
unfoldable pub zip_pairs : List Text → List Text → List PairKey
zip_pairs [] urls = []
zip_pairs (k ∷ ks) [] = []
zip_pairs (k ∷ ks) (u ∷ us) = record { key = k; url = u } ∷ zip_pairs ks us

-- The `switch` of buildPairs.
unfoldable pub pair_up : List Text → List Text → Result (List PairKey)
unfolding zip_pairs
pair_up keys (u ∷ []) = ok (map (with_url u) keys)
pair_up (k ∷ []) urls = ok (map (with_key k) urls)
pair_up keys urls =
    if length keys == length urls
    then ok (zip_pairs keys urls)
    else err (plain (str (lit "when using multiple keys and URLs, counts must match") ∷ []))

-- buildPairs
unfoldable pub build_pairs : Text → Text → Result (List PairKey)
unfolding parse_list pair_up
build_pairs keys urls = do
  key_list ← context (str (lit "API keys: ") ∷ []) (parse_list keys)
  url_list ← context (str (lit "base URLs: ") ∷ []) (parse_list urls)
  pair_up key_list url_list

-- validateKeyURLPairs
unfoldable pub validate_key_url_pairs : Text → Text → Result (Unit {0})
unfolding build_pairs
validate_key_url_pairs keys urls = do pairs ← build_pairs keys urls; ok tt

-- One round of the loop over the pairs: `minUsage`, where `none` is -1, and `least`.
abbrev pub least_step : ℕ → PairKey → Option ℕ → List PairKey → Option ℕ × List PairKey
least_step u p none least = (some u, p ∷ [])
least_step u p (some m) least =
    if ltb u m
    then (some u, p ∷ [])
    else if u == m
    then (some m, least ++ (p ∷ []))
    else (some m, least)

unfoldable pub least_from : (PairKey → ℕ) → Option ℕ → List PairKey → List PairKey → List PairKey
least_from usage least_usage least [] = least
least_from usage least_usage least (p ∷ ps) =
    let (m, l) = least_step (usage p) p least_usage least in least_from usage m l ps

-- The draw, and what it does to the balancer.
unfoldable pub pick : Balancer → List PairKey → ℕ → Result (Text × Text) × Balancer
unfolding bump
pick b [] v = (err (plain (str (lit "no eligible key/url pair") ∷ [])), b)
pick b (p ∷ ps) v =
    let chosen = get_or (p ∷ ps) (v % length (p ∷ ps)) p in
    if b.configured
    then (ok (chosen.key, chosen.url), record b { usage = bump b.usage chosen })
    else (err (plain (str (lit "random source not configured") ∷ [])), b)

abbrev pub choose_among : Balancer → ℕ → Result (List PairKey) → Result (Text × Text) × Balancer
choose_among b v (err e) = (err e, b)
choose_among b v (ok pairs) = pick b (least_from (usage_of b.usage) none [] pairs) v

-- choosePair, with the value `v` of the random source
unfoldable pub choose_pair : Balancer → Text → Text → ℕ → Result (Text × Text) × Balancer
unfolding build_pairs pick least_from usage_of
choose_pair b keys urls v = choose_among b v (build_pairs keys urls)
