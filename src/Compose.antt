-- ===== src/Compose.antt =====
-- composeMessages of smolllm/request.go: the messages of a request body, with images.
use smolllm_go.Prelude.{
  Elem, Elem-append, get_or, Elem-get_or, ℕ, zero, suc, ◌+◌, ◌-◌, ◌*◌, ◌/◌, ◌%◌, ◌^◌, ◌≤◌, ◌<◌, min,
  ◌≡◌, refl, sym, ap, ◌∙◌, ◌≢◌, ◌↔◌, ◌⊎◌, inl, inr, Bool, true, false, not, ◌&&◌, ◌||◌, Option,
  none, some, List, [], ◌∷◌, ◌++◌, map, append-nil, append_assoc, arith, ltb, leb, ◌==◌,
  if◌then◌else◌, ==_iff, ==_refl, Bool-cases, Option-cases, is_some, length, get_elem?, take, drop,
  length-append, take-append-drop, length-drop, drop-length, length-map, All, All-append,
}
use smolllm_go.Text.{
  rev, Text, lit, text_eq, is_empty, has_prefix, has_suffix, trim_space, trim_left, trim_right,
  trim_suffix, split, join, index, lower_byte, upper_byte, itoa,
}
use smolllm_go.Errors.{Err, plain, wrap, str, quoted, num, Result, ok, err, ◌>>=◌, context}
use smolllm_go.Options.{is_blank}
use smolllm_go.Exchange.{same_fold}
use smolllm_go.Request.{
  Message, Request, Content, nothing, words, parts, Part, text_part, image_part, user, message_role,
  ensure_role, validate, system_message,
}
pub mod Shape
pub mod Tests

-- What the images need of the standard library: os.ReadFile, mime.TypeByExtension,
-- http.DetectContentType and the encoder of base64.
pub record Files : Type 0 where
  pub read : Text → Result Text
  pub type_by_extension : Text → Text
  pub detect : Text → Text
  pub base64 : Text → Text

-- filepath.Ext over the reversed path, on what was read so far
unfoldable pub extension_from : Text → Text → Text
extension_from [] acc = []
extension_from (c ∷ s) acc =
    let rest = extension_from s (c ∷ acc) in
    if c == b'/' then [] else if c == b'.' then c ∷ acc else rest

abbrev pub extension : Text → Text
extension path = extension_from (rev path) []

abbrev pub detected : Files → Text → Text
detected f content =
    let kind = f.detect (take 512 content) in
    if text_eq kind (lit "application/octet-stream") then [] else kind

-- mimeTypeFor
unfoldable pub mime_type_for : Files → Text → Text → Text
unfolding extension_from
mime_type_for f path content =
    let ext = map lower_byte (extension path) in
    if not (is_empty ext) && not (is_empty (f.type_by_extension ext))
    then f.type_by_extension ext
    else if is_empty content
    then []
    else detected f content

-- imagePathToData behind the file that was read
unfoldable pub data_url : Files → Text → Text → Result Text
unfolding mime_type_for
data_url f path content =
    let kind = mime_type_for f path content in
    if is_empty kind
    then err (plain (str (lit "unable to determine mime type for ") ∷ quoted path ∷ []))
    else ok (lit "data:" ++ (kind ++ (lit ";base64," ++ f.base64 content)))

-- imagePathToData
unfoldable pub image_path_to_data : Files → Text → Result Text
unfolding data_url trim_space has_prefix
image_path_to_data f path =
    let trimmed = trim_space path in
    if is_empty trimmed
    then err (plain (str (lit "image path cannot be empty") ∷ []))
    else if has_prefix (lit "data:") trimmed
    then ok trimmed
    else context (str (lit "read image ") ∷ quoted trimmed ∷ str (lit ": ") ∷ []) (f.read trimmed)
      >>= data_url f trimmed

-- The loop over the image paths.
unfoldable pub image_urls : Files → List Text → Result (List Text)
unfolding image_path_to_data
image_urls f [] = ok []
image_urls f (path ∷ paths) = do
  url ← image_path_to_data f path
  urls ← image_urls f paths
  ok (url ∷ urls)

-- messageTextContent; the text of an error leaves out the type that it prints with %T
abbrev pub message_text_content : Content → Result Text
message_text_content nothing = err (plain (str (lit "content missing") ∷ []))
message_text_content (words t) = ok t
message_text_content (parts ps) = err (plain (str (lit "content has type") ∷ []))

-- A user message of a text and images.
abbrev pub image_message : Text → List Text → Message
image_message t urls = record {
  arm = user;
  role = some (lit "user");
  content = parts (text_part t ∷ map image_part urls);
  tool_calls = 0;
  function_call = false;
}

-- strings.EqualFold on a role, where there is one
abbrev pub played : Text → Option Text → Bool
played role none = false
played role (some r) = same_fold r role

abbrev pub plays : Text → Message → Bool
plays role m = played role (message_role m)

-- The loop that counts the user messages.
unfoldable pub user_count : List Message → ℕ
unfolding message_role
user_count [] = 0
user_count (m ∷ ms) = (if plays (lit "user") m then 1 else 0) + user_count ms

-- What a turn of the loop adds for a message beside images, by the text that it says.
abbrev pub with_images : Files → List Text → Result Text → Result Message
with_images f paths t = do
  said ← context (str (lit "image paths require textual content: ") ∷ []) t
  urls ← image_urls f paths
  ok (image_message said urls)

abbrev pub roleless : ℕ → Err
roleless i = plain (str (lit "request message #") ∷ num i ∷ str (lit " must include role") ∷ [])

-- A turn of the loop of composeMessages where there are images, by whether the message has a role
-- and whether that is `system` or `user`.
abbrev pub image_turn : Files → List Text → ℕ → Message → Bool → Bool → Bool → Result Message
image_turn f paths i m false is_system is_user = err (roleless i)
image_turn f paths i m true true is_user = ok (ensure_role m)
image_turn f paths i m true false true = with_images f paths (message_text_content m.content)
image_turn f paths i m true false false =
    err (plain (str (lit "image paths require user role") ∷ []))

-- A turn of the loop of composeMessages where there are no images.
abbrev pub plain_turn : ℕ → Message → Bool → Result Message
plain_turn i m false = err (roleless i)
plain_turn i m true = ok (ensure_role m)

unfoldable pub compose_turn : Files → List Text → ℕ → Message → Result Message
unfolding image_urls message_role ensure_role
compose_turn f [] i m = plain_turn i m (is_some (message_role m))
compose_turn f (p ∷ ps) i m =
    image_turn f (p ∷ ps) i m (is_some (message_role m)) (plays (lit "system") m)
      (plays (lit "user") m)

-- The loop of composeMessages.
unfoldable pub compose_loop : Files → List Text → ℕ → List Message → Result (List Message)
unfolding compose_turn
compose_loop f paths i [] = ok []
compose_loop f paths i (m ∷ ms) = do
  out ← compose_turn f paths i m
  rest ← compose_loop f paths (suc i) ms
  ok (out ∷ rest)

-- The system prompt in front, where it is not blank.
abbrev pub system_prefix : Request → List Message
system_prefix r = if is_blank r.system_prompt then [] else system_message r.system_prompt ∷ []

abbrev pub has_images : List Text → Bool
has_images [] = false
has_images (p ∷ ps) = true

-- composeMessages of a valid request, by whether its images find no message to stand at.
abbrev pub compose_valid : Files → Request → List Text → Bool → Result (List Message)
compose_valid f r paths true = err (
    plain
      (str (lit "image paths require exactly one user message (system messages are allowed)") ∷ []))
compose_valid f r paths false =
    compose_loop f paths 0 r.messages >>= (λ out. ok (system_prefix r ++ out))

-- composeMessages behind what Validate says of the request
abbrev pub compose_checked : Files → Request → List Text → Option Err → Result (List Message)
compose_checked f r paths (some e) = err e
compose_checked f r paths none =
    compose_valid f r paths (has_images paths && not (user_count r.messages == 1))

-- composeMessages
unfoldable pub compose_messages : Files → Request → List Text → Result (List Message)
unfolding validate user_count compose_loop trim_space
compose_messages f r paths = compose_checked f r paths (validate r)
