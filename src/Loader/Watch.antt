-- ===== src/Loader/Watch.antt =====
-- cmd/agent/main.go `watchStatus`: the agent that notices a stop, composed with the Worker.
pub mod Stop
use cloudflare_r2_bench.Base.{
  Bool, true, false, ◌||◌, List, [], ◌∷◌, Text, codes, text_eq, if◌then◌else◌,
}
use cloudflare_r2_bench.Loader.{Result, success, failure}

-- The `switch` on the status.
unfoldable pub ends_load : Text → Bool
ends_load status =
    text_eq status (codes "STOPPING")
    || text_eq status (codes "STOPPED")
    || text_eq status (codes "FAILED")
    || text_eq status (codes "COMPLETED")

-- `watchStatus`, by the results of its checks in order: whether the load is cancelled.
unfoldable pub watch_status : List (Result Text) → Bool
unfolding ends_load
watch_status [] = false
watch_status (failure why ∷ checks) = watch_status checks
watch_status (success status ∷ checks) =
    let later = watch_status checks in if ends_load status then true else later
