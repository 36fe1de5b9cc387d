-- ===== src/Auth.antt =====
-- Token checks: src/agents.ts `verify_agent_token`, src/orchestrator.ts `require_admin` and
-- `verify_internal_request`.
pub mod Compare
pub mod Checks
use Prim.Native.Nat.{bit_or, bit_xor}
use cloudflare_r2_bench.Base.{
  ℕ, Bool, true, false, not, ◌||◌, Option, none, some, [], ◌∷◌, Text, codes, length, ◌==◌,
  if◌then◌else◌,
}
use cloudflare_r2_bench.Js.Number.{or_default}
use cloudflare_r2_bench.Env.{Env}
use cloudflare_r2_bench.Types.{SpawnStatusRequest}
use cloudflare_r2_bench.Db.Prog.{Prog, done, throw, unauthorized}

-- The loop `diff |= expected.charCodeAt(i) ^ presented.charCodeAt(i)` over the positions of
-- `expected`; past the end of `presented` the code unit is NaN, which `^` takes for 0.
pub diff_from : ℕ → Text → Text → ℕ
diff_from diff [] presented = diff
diff_from diff (e ∷ expected) [] = diff_from (bit_or diff (bit_xor e 0)) expected []
diff_from diff (e ∷ expected) (p ∷ presented) =
    diff_from (bit_or diff (bit_xor e p)) expected presented

-- `!s` is true of a missing string and of the empty one.
abbrev pub is_falsy : Option Text → Bool
is_falsy none = true
is_falsy (some []) = true
is_falsy (some (_ ∷ _)) = false

token_matches : Text → Text → Bool
token_matches expected presented =
    if not (length presented == length expected) then false else diff_from 0 expected presented == 0

unfoldable pub verify_agent_token : Env → Option Text → Bool
unfolding token_matches diff_from
verify_agent_token env presented =
    if is_falsy env.agent_token || is_falsy presented
    then false
    else token_matches (or_default env.agent_token []) (or_default presented [])

-- The presented token is the header's, or else the query's, or else empty.
unfoldable pub require_admin : Env → Option Text → Option Text → Prog (Unit {0})
unfolding diff_from
require_admin env header query =
    let expected = or_default env.admin_token [] in
    let presented = or_default header (or_default query []) in
    let refused = throw (unauthorized (codes "missing or invalid admin token")) in
    if is_falsy env.admin_token
    then done tt
    else if not (length presented == length expected)
    then refused
    else if not (diff_from 0 expected presented == 0)
    then refused
    else done tt

unfoldable pub verify_internal_request : Env → SpawnStatusRequest → Prog (Unit {0})
verify_internal_request env request =
    if is_falsy request.spawn_id
      || is_falsy request.job_id
      || not (verify_agent_token env request.token)
    then throw (unauthorized (codes "invalid agent callback token"))
    else done tt
