-- ===== src/Options/Maps.antt =====
-- Laws of the maps.
use smolllm_go.Prelude.{◌≡◌, refl, some, [], ◌∷◌, arith, if◌then◌else◌}
use smolllm_go.Text.{Text, text_eq}
use smolllm_go.Text.Laws.{text_eq_iff}
use smolllm_go.Options.{Dict, lookup, put}

module _ {V : Type 0} where
  pub lookup-put :
      (k j : Text) (v : V) (m : Dict V)
      → lookup j (put k v m) ≡ (if text_eq k j then some v else lookup j m)
  unfolding lookup put
  lookup-put k j v [] = refl
  lookup-put k j v ((i, w) ∷ m) =
      ground (arith, text_eq_iff k j, text_eq_iff i k, text_eq_iff i j, lookup-put k j v m)
