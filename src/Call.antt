-- ===== src/Call.antt =====
-- The prepared call of smolllm/transport.go and the provider that it names.
use smolllm_go.Prelude.{ℕ, ◌-◌, List, ◌++◌, leb, if◌then◌else◌, length, take, drop}
use smolllm_go.Text.{Text, lit}

-- provider
pub record Provider : Type 0 where
  pub name : Text
  pub base_url : Text

-- preparedCall
pub record PreparedCall : Type 0 where
  pub url : Text
  pub body : Text
  pub provider : Provider
  pub model : Text
  pub model_name : Text
  pub api_key : Text
  pub headers : List (Text × Text)
  pub input_tokens : ℕ

-- previewAPIKey
unfoldable pub preview_api_key : Text → Text
preview_api_key key =
    if leb (length key) 9 then key else take 5 key ++ (lit "..." ++ drop (length key - 4) key)
