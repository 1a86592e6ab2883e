-- ===== src/Backticks/Tests.antt =====
-- A fenced block, and the theorem about it.
use smolllm_go.Prelude.{◌≡◌, refl, ◌∷◌, ◌++◌}
use smolllm_go.Text.{lit}
use smolllm_go.Backticks.{fence, strip_backticks}
use smolllm_go.Backticks.Fences.{strip_backticks-body}

strip_test : strip_backticks (fence ++ (lit "go" ++ (10 ∷ (lit "x" ++ (10 ∷ fence))))) ≡ lit "x"
unfolding strip_backticks
strip_test = refl

strip_backticks-body_example :
    strip_backticks (fence ++ (lit "go" ++ (10 ∷ (lit "x" ++ (10 ∷ fence))))) ≡ lit "x"
strip_backticks-body_example = strip_backticks-body (lit "go") (lit "x") (refl, (refl, tt))
