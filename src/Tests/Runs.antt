-- ===== src/Tests/Runs.antt =====
-- Runs at inputs that can be followed in the source.
use cloudflare_r2_bench.Base.{◌≡◌, refl, false, [], ◌∷◌, codes, text_eq, decimal, map}
use cloudflare_r2_bench.Js.Number.{nan, fraction}
use cloudflare_r2_bench.Js.Parse.{string_to_number}
use cloudflare_r2_bench.Db.{Spawn}
use cloudflare_r2_bench.Agents.{rps_for_slot}
use cloudflare_r2_bench.Schedule.Safety.{db_after}
use cloudflare_r2_bench.Tests.Everything.{everything}
use cloudflare_r2_bench.Tests.Fixtures.{env, half_staffed, calls, schedule}

parse_decimal : string_to_number (codes " 12.5 ") ≡ fraction false 125 9
unfolding string_to_number text_eq
parse_decimal = refl

parse_words : string_to_number (codes "a lot") ≡ nan
unfolding string_to_number text_eq
parse_words = refl

decimal_512 : decimal 512 ≡ codes "512"
unfolding decimal
decimal_512 = refl

share_of_ten : rps_for_slot 10 3 0 ≡ 4
unfolding rps_for_slot
share_of_ten = refl

-- One of the two agents that poll at once gets the last slot.
last_slot :
    map (λ (s : Spawn). s.agent_id) (db_after env calls schedule half_staffed).spawns
    ≡ codes "a" ∷ codes "c" ∷ []
unfolding everything
last_slot = refl
