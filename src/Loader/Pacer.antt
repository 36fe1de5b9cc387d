-- ===== src/Loader/Pacer.antt =====
-- cmd/agent/runner.go `startPacer`: the tokens that limit the rate of an agent, and the number of its
-- workers. The credit is a `float64`, with its rounding (`Loader.Double`).
pub mod Rate
use cloudflare_r2_bench.Loader.Double.{one, nearest_ratio, nearest}
use cloudflare_r2_bench.Base.{
  ℕ, zero, suc, ◌+◌, ◌-◌, ◌*◌, ◌/◌, ◌%◌, List, [], ◌∷◌, ltb, leb, if◌then◌else◌,
}

-- A second by `tickInterval`, of 5 ms.
abbrev pub ticks_per_second : ℕ
ticks_per_second = 200

-- `perTick`: the rate as a `float64`, divided by 200.
unfoldable pub per_tick : ℕ → ℕ
per_tick rps = nearest_ratio (nearest (rps * one)) ticks_per_second

-- The buffer of the channel: the tokens of four ticks, one at least.
unfoldable pub capacity : ℕ → ℕ
unfolding per_tick
capacity rps = let tokens = nearest (4 * per_tick rps) / one in if ltb tokens 1 then 1 else tokens

-- The credit, the tokens in the channel, and all tokens sent so far.
pub record Pacer : Type 0 where
  pub credit : ℕ
  pub queued : ℕ
  pub sent : ℕ

abbrev pub new_pacer : Pacer
new_pacer = record { credit = 0; queued = 0; sent = 0 }

-- The inner loop: a full channel drops the rest of the tokens, and the credit with them.
unfoldable pub emit_tokens : ℕ → ℕ → Pacer → Pacer
emit_tokens zero room p = p
emit_tokens (suc n) room p =
    let more = emit_tokens n room (record p { queued = suc p.queued; sent = suc p.sent }) in
    if ltb p.queued room then more else record p { credit = 0 }

-- A tick of the timer, at one moment: the credit grows, and its whole part is emitted and taken off it.
unfoldable pub pace_tick : ℕ → Pacer → Pacer
unfolding per_tick capacity emit_tokens
pace_tick rps p =
    let credit = nearest (p.credit + per_tick rps) in
    let emit = credit / one in
    emit_tokens emit (capacity rps) (record p { credit = nearest (credit - nearest (emit * one)) })

-- A worker takes a token, if there is one.
abbrev pub take_token : Pacer → Pacer
take_token p = record p { queued = p.queued - 1 }

pub data PacerEvent : Type 0 where
  tick take : PacerEvent

unfoldable pub pace : ℕ → List PacerEvent → Pacer → Pacer
pace rps [] p = p
pace rps (tick ∷ events) p = pace rps events (pace_tick rps p)
pace rps (take ∷ events) p = pace rps events (take_token p)

-- The number of workers of `Run`: as many as told, at most MAX_WORKERS, which also stands for none.
unfoldable pub run_workers : ℕ → ℕ → ℕ
run_workers max_workers told =
    if leb told 0 then max_workers else if ltb max_workers told then max_workers else told
