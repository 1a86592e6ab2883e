-- ===== src/Compose/Tests.antt =====
-- Images beside a request, and the theorems about the messages that they make.
use smolllm_go.Prelude.{◌≡◌, refl, none, [], ◌∷◌, ◌++◌, List}
use smolllm_go.Text.{Text, lit}
use smolllm_go.Errors.{ok}
use smolllm_go.Request.{Message, Request, message_error, validate, system_message, user_message}
use smolllm_go.Compose.{Files, image_message, compose_messages, system_prefix}
use smolllm_go.Compose.Shape.{
  AllWithRole, Prompted, OneIllustrated, compose_messages-plain, compose_messages-illustrated,
}

-- A file system where each file holds its own name.
abbrev files : Files
files = record {
  read = λ p. ok p;
  type_by_extension = λ e. lit "image/png";
  detect = λ c. [];
  base64 = λ c. lit "AA==";
}

abbrev question : Request
question = record {
  system_prompt = lit "Be brief.";
  messages = system_message (lit "Answer in French.") ∷ user_message (lit "What is this?") ∷ [];
}

abbrev inline_image : Text
inline_image = lit "data:image/png;base64,BB=="

abbrev illustrated : List Message
illustrated =
    system_message (lit "Be brief.")
    ∷ system_message (lit "Answer in French.")
    ∷ image_message (lit "What is this?") (inline_image ∷ lit "data:image/png;base64,AA==" ∷ [])
    ∷ []

illustrated_run :
    compose_messages files question (inline_image ∷ lit "cat.png" ∷ []) ≡ ok illustrated
unfolding compose_messages message_error
illustrated_run = refl

abbrev plain_messages : List Message
plain_messages =
    system_message (lit "Be brief.")
    ∷ system_message (lit "Answer in French.")
    ∷ user_message (lit "What is this?")
    ∷ []

plain_run : compose_messages files question [] ≡ ok plain_messages
unfolding compose_messages message_error
plain_run = refl

compose_messages-plain_example :
    (validate question ≡ none)
    × ((xs : List Message) × Prompted question.system_prompt xs plain_messages
        × AllWithRole question.messages xs)
compose_messages-plain_example = compose_messages-plain files question plain_messages plain_run

compose_messages-illustrated_example :
    (validate question ≡ none)
    × ((ms : List Message) × (illustrated ≡ system_prefix question ++ ms)
        × OneIllustrated files inline_image (lit "cat.png" ∷ []) question.messages ms)
compose_messages-illustrated_example =
    compose_messages-illustrated files question inline_image (lit "cat.png" ∷ []) illustrated
      illustrated_run
