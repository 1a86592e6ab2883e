-- ===== src/ThinkFilter/Tests.antt =====
-- Runs of the filter, and the theorems about it at concrete inputs.
use smolllm_go.Prelude.{◌≡◌, refl, false, List, [], ◌∷◌, map, arith}
use smolllm_go.Text.{Text, lit}
use smolllm_go.ThinkFilter.{Delta, new_filter, feed_loop}
use smolllm_go.ThinkFilter.Scan.{scan}
use smolllm_go.ThinkFilter.Loop.{flat, feed_loop-scan}
use smolllm_go.ThinkFilter.Streaming.{
  drain, text_chunk, sort_text, whole, total, ◌+Δ◌, drain-sort_text, drain-reasoning,
}

abbrev pieces : List Text
pieces = lit "a<th" ∷ lit "ink>be</thi" ∷ lit "nk>c<" ∷ []

pieces_sorted : sort_text (whole pieces) ≡ record { content = lit "ac<"; reasoning = lit "be" }
unfolding sort_text
pieces_sorted = refl

drain-sort_text_example : drain new_filter (map text_chunk pieces) ≡ sort_text (whole pieces)
drain-sort_text_example = drain-sort_text pieces

feed_loop-scan_example : flat (feed_loop 40 false (whole pieces)) ≡ scan 0 false (whole pieces)
feed_loop-scan_example = feed_loop-scan 40 false (whole pieces) (omega arith)

abbrev thought : Delta
thought = record { content = []; reasoning = lit "r" }

drain-reasoning_example :
    drain
      (record { inside_think = false; buffer = lit "1<"; disabled = false })
      (thought ∷ text_chunk (lit "2") ∷ [])
    ≡ thought +Δ total (text_chunk (lit "2") ∷ []) +Δ record { content = lit "1<"; reasoning = [] }
drain-reasoning_example = drain-reasoning (lit "1<") thought (text_chunk (lit "2") ∷ []) (λ e. cc)
