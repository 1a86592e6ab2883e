-- ===== src/Request/Tests.antt =====
-- A request, and the theorem about it.
use smolllm_go.Text.{lit}
use smolllm_go.Prelude.{◌≡◌, ◌≢◌, ◌↔◌, false, none, [], ◌∷◌, All}
use smolllm_go.Request.{Request, words, user, validate}
use smolllm_go.Request.Validation.{Valid, validate-Valid}

abbrev question : Request
question = record {
  system_prompt = [];
  messages =
      record {
        arm = user;
        role = none;
        content = words (lit "hi");
        tool_calls = 0;
        function_call = false;
      }
      ∷ [];
}

validate-Valid_example :
    (validate question ≡ none) ↔ ((question.messages ≢ []) × All Valid question.messages)
validate-Valid_example = validate-Valid question
