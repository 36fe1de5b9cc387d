-- ===== src/Loader/Pacer/Rate.antt =====
-- cmd/agent/runner.go `startPacer`: how many tokens are sent.
use cloudflare_r2_bench.Base.{
  ltb, ℕ, zero, suc, ◌+◌, ◌*◌, ◌/◌, ◌%◌, ◌^◌, ◌-◌, ◌≤◌, ◌<◌, ◌≡◌, refl, List, [], ◌∷◌, ◌==◌, ==_iff,
  &&-eq-true, ◌&&◌, Bool, true, false, Bool-cases, ◌⊎◌, inl, inr, arith,
}
use native.Mathlib.Nat.{
  mul-le-mul_right, le_of_mul-le-mul_right, mod-lt, div-add-mod, div-lt_iff_lt-mul,
}
use cloudflare_r2_bench.Loader.Double.{one, nearest, IsNear, nearest_ratio-IsNear, one_large}
use cloudflare_r2_bench.Loader.Pacer.{
  Pacer, new_pacer, per_tick, capacity, emit_tokens, pace_tick, take_token, PacerEvent, tick, take,
  pace,
}

emit_tokens_bounds :
    (n room : ℕ) (p : Pacer)
    → p.queued ≤ room
    → let q = emit_tokens n room p in
      (q.queued ≤ room) × (q.credit ≤ p.credit) × (q.sent ≤ p.sent + n)
unfolding emit_tokens
emit_tokens_bounds zero room p h = (h, omega arith, omega arith)
emit_tokens_bounds (suc n) room p h =
    ground
      (arith, emit_tokens_bounds n room (record p { queued = suc p.queued; sent = suc p.sent }))

emit_tokens_all :
    (n room : ℕ) (p : Pacer)
    → p.queued + n ≤ room
    → let q = emit_tokens n room p in (q.credit ≡ p.credit) × (q.sent ≡ p.sent + n)
unfolding emit_tokens
emit_tokens_all zero room p h = (refl, omega arith)
emit_tokens_all (suc n) room p h =
    ground (arith, emit_tokens_all n room (record p { queued = suc p.queued; sent = suc p.sent }))

-- Credit stays below two tokens, and the errors of one tick below a part in 2 ^ 29 of a token.
near_one :
    (n x limit : ℕ)
    → IsNear 1 n x
    → n ≤ 5010 * limit
    → 2 ^ 60 ≤ limit
    → (2 ^ 40 * x ≤ 2 ^ 40 * n + limit) × (2 ^ 40 * n ≤ 2 ^ 40 * x + limit)
near_one n x limit near small large =
    (omega (arith, near.above, small, large), omega (arith, near.below, small, large))

near_whole :
    (n x limit : ℕ)
    → IsNear 1 n x
    → n ≤ 1_000_000 * limit
    → 2 ^ 60 ≤ limit
    → (2 ^ 33 * x ≤ 2 ^ 33 * n + limit) × (2 ^ 33 * n ≤ 2 ^ 33 * x + limit)
near_whole n x limit near small large =
    (omega (arith, near.above, small, large), omega (arith, near.below, small, large))

near_share :
    (n x limit : ℕ)
    → IsNear 200 n x
    → n ≤ 1_000_001 * limit
    → 2 ^ 60 ≤ limit
    → (2 ^ 32 * (200 * x) ≤ 2 ^ 32 * n + limit) × (2 ^ 32 * n ≤ 2 ^ 32 * (200 * x) + limit)
near_share n x limit near small large =
    (omega (arith, near.above, small, large), omega (arith, near.below, small, large))

-- The rate of a tick, for at most a million requests a second.
per_tick_bounds :
    (rps : ℕ)
    → rps ≤ 1_000_000
    → (2 ^ 31 * (200 * per_tick rps) ≤ 2 ^ 31 * (rps * one) + one)
      × (2 ^ 31 * (rps * one) ≤ 2 ^ 31 * (200 * per_tick rps) + one)
      × (per_tick rps ≤ 5001 * one)
unfolding per_tick
per_tick_bounds rps few =
    let small = mul-le-mul_right one few in
    let (above, below) =
      near_whole (rps * one) _ one (nearest_ratio-IsNear (rps * one) 1 (omega arith)) small
        one_large in
    let (above', below') =
      near_share (nearest (rps * one)) _ one
        (nearest_ratio-IsNear (nearest (rps * one)) 200 (omega arith)) (omega (arith, above, small))
        one_large in
    (
      omega (arith, above, above'),
      omega (arith, below, below'),
      omega (arith, above, above', small),
    )

less_or_more : (a b : ℕ) → (a < b) ⊎ (b ≤ a)
less_or_more a b = elim (Bool-cases (ltb a b)) [
  | inl e ↦ inl (ground arith)
  | inr e ↦ inr (ground arith)
]

quotient_below : (c y limit : ℕ) → 0 < limit → c < y * limit → c / limit < y
quotient_below c y limit pos low = (div-lt_iff_lt-mul pos).1 low

quotient_small : (c limit : ℕ) → c < 2 * limit → c / limit ≤ 1
quotient_small c limit low = omega (arith, quotient_below c 2 limit (omega (arith, low)) low)

quotient_mono : (c d limit : ℕ) → 0 < limit → c ≤ d → c / limit ≤ d / limit
quotient_mono c d limit pos low =
    let rest : limit * (d / limit) + d % limit ≡ d = div-add-mod d limit in
    let part : d % limit < limit = mod-lt d pos in
    omega (arith, quotient_below c (suc (d / limit)) limit pos (omega (arith, low, rest, part)))

-- A tick, before its tokens are sent: the credit with the rate, the tokens, and the credit left.
abbrev grown : ℕ → ℕ → ℕ
grown rps credit = nearest (credit + per_tick rps)

abbrev emitted : ℕ → ℕ → ℕ
emitted rps credit = grown rps credit / one

abbrev kept : ℕ → ℕ → ℕ
kept rps credit = nearest (grown rps credit - nearest (emitted rps credit * one))

-- With the credit below two, the tokens and the credit left are those of the rate, up to a part in
-- 2 ^ 29 of a token.
tick_errors :
    (rps credit : ℕ)
    → rps ≤ 1_000_000
    → credit < 2 * one
    → (2 ^ 29 * (200 * (emitted rps credit * one + kept rps credit))
        ≤ 2 ^ 29 * (200 * credit + rps * one) + one)
      × (2 ^ 29 * (200 * credit + rps * one)
          ≤ 2 ^ 29 * (200 * (emitted rps credit * one + kept rps credit)) + one)
      × (2 ^ 39 * kept rps credit ≤ 2 ^ 39 * one + one)
tick_errors rps credit few low =
    let (rate_above, rate_below, rate) = per_tick_bounds rps few in
    let c = grown rps credit in
    let whole = emitted rps credit * one in
    let back = nearest whole in
    let rest : one * (c / one) + c % one ≡ c = div-add-mod c one in
    let part : c % one < one = mod-lt c (omega (arith, one_large)) in
    let fits : whole ≤ c = omega (arith, rest) in
    let tight : c < whole + one = omega (arith, rest, part) in
    let (up, down) =
      near_one (credit + per_tick rps) c one (nearest_ratio-IsNear _ 1 (omega arith))
        (omega (arith, low, rate)) one_large in
    let (up', down') =
      near_one whole back one (nearest_ratio-IsNear whole 1 (omega arith))
        (omega (arith, fits, up, low, rate)) one_large in
    let (up'', down'') =
      near_one (c - back) (kept rps credit) one (nearest_ratio-IsNear (c - back) 1 (omega arith))
        (omega (arith, up, low, rate)) one_large in
    (
      omega (arith, rate_above, up, up', up'', down, down', down'', fits),
      omega (arith, rate_below, up, up', up'', down, down', down'', fits),
      omega (arith, up', up'', down', tight),
    )

capacity_least : (rps : ℕ) → 1 ≤ capacity rps
unfolding capacity
capacity_least rps = ground arith

capacity_four : (rps : ℕ) → nearest (4 * per_tick rps) / one ≤ capacity rps
unfolding capacity
capacity_four rps = ground arith

-- An empty channel has room for the tokens of a tick.
capacity_enough :
    (rps credit : ℕ)
    → rps ≤ 1_000_000
    → 2 ^ 39 * credit ≤ 2 ^ 39 * one + one
    → emitted rps credit ≤ capacity rps
capacity_enough rps credit few low =
    let (_, _, rate) = per_tick_bounds rps few in
    let c = grown rps credit in
    let (up, _) =
      near_one (credit + per_tick rps) c one (nearest_ratio-IsNear _ 1 (omega arith))
        (omega (arith, low, rate)) one_large in
    let (_, down) =
      near_whole (4 * per_tick rps) (nearest (4 * per_tick rps)) one
        (nearest_ratio-IsNear _ 1 (omega arith)) (omega (arith, rate)) one_large in
    elim (less_or_more (2 * per_tick rps) one) [
      | inl slow ↦
          omega (arith, capacity_least rps, quotient_small c one (omega (arith, up, low, slow)))
      | inr fast ↦ omega (
        arith,
        capacity_four rps,
        quotient_mono c (nearest (4 * per_tick rps)) one (omega (arith, one_large))
            (omega (arith, up, low, down, fast)),
      )
    ]

-- The ticks among some events, and whether the workers have emptied the channel at each of them.
abbrev pub ticks : List PacerEvent → ℕ
ticks [] = 0
ticks (tick ∷ events) = suc (ticks events)
ticks (take ∷ events) = ticks events

abbrev pub is_drained : ℕ → List PacerEvent → Pacer → Bool
is_drained rps [] p = true
is_drained rps (tick ∷ events) p = (p.queued == 0) && is_drained rps events (pace_tick rps p)
is_drained rps (take ∷ events) p = is_drained rps events (take_token p)

-- What one tick does to the tokens, counted with the credit in parts of a token.
abbrev worth : Pacer → ℕ
worth p = 200 * (p.sent * one + p.credit)

tick_bounds :
    (rps : ℕ) (p : Pacer)
    → rps ≤ 1_000_000
    → p.queued ≤ capacity rps
    → p.credit < 2 * one
    → let q = pace_tick rps p in
      (q.queued ≤ capacity rps)
      × (2 ^ 39 * q.credit ≤ 2 ^ 39 * one + one)
      × (2 ^ 29 * worth q ≤ 2 ^ 29 * (worth p + rps * one) + one)
unfolding pace_tick
tick_bounds rps p few h low =
    let (above, _, left) = tick_errors rps p.credit few low in
    let (full, credit, sent) =
      emit_tokens_bounds (emitted rps p.credit) (capacity rps)
        (record p { credit = kept rps p.credit }) h in
    let scaled_sent = mul-le-mul_right one sent in
    (full, omega (arith, credit, left), omega (arith, above, credit, scaled_sent))

tick_exact :
    (rps : ℕ) (p : Pacer)
    → rps ≤ 1_000_000
    → p.queued ≡ 0
    → 2 ^ 39 * p.credit ≤ 2 ^ 39 * one + one
    → let q = pace_tick rps p in 2 ^ 29 * (worth p + rps * one) ≤ 2 ^ 29 * worth q + one
unfolding pace_tick
tick_exact rps p few empty low =
    let (_, below, _) = tick_errors rps p.credit few (omega (arith, low, one_large)) in
    let (credit, sent) =
      emit_tokens_all (emitted rps p.credit) (capacity rps)
        (record p { credit = kept rps p.credit })
        (omega (arith, capacity_enough rps p.credit few low)) in
    rw (credit, sent) (omega (arith, below))

pace_from :
    (rps : ℕ) (events : List PacerEvent) (p : Pacer)
    → rps ≤ 1_000_000
    → p.queued ≤ capacity rps
    → 2 ^ 39 * p.credit ≤ 2 ^ 39 * one + one
    → let q = pace rps events p in
      (q.queued ≤ capacity rps)
      × (2 ^ 29 * worth q ≤ 2 ^ 29 * (worth p + ticks events * (rps * one)) + ticks events * one)
unfolding pace
pace_from rps [] p few h low = (h, omega arith)
pace_from rps (tick ∷ events) p few h low =
    let (full, low', sent) = tick_bounds rps p few h (omega (arith, low, one_large)) in
    let (full', sent') = pace_from rps events (pace_tick rps p) few full low' in
    (full', omega (arith, sent, sent'))
pace_from rps (take ∷ events) p few h low =
    let (full', sent') = pace_from rps events (take_token p) few (omega (arith, h)) low in
    (full', omega (arith, sent'))

pace_exact :
    (rps : ℕ) (events : List PacerEvent) (p : Pacer)
    → rps ≤ 1_000_000
    → p.queued ≤ capacity rps
    → 2 ^ 39 * p.credit ≤ 2 ^ 39 * one + one
    → is_drained rps events p ≡ true
    → let q = pace rps events p in
      (2 ^ 39 * q.credit ≤ 2 ^ 39 * one + one)
      × (2 ^ 29 * (worth p + ticks events * (rps * one)) ≤ 2 ^ 29 * worth q + ticks events * one)
unfolding pace
pace_exact rps [] p few h low drained = (low, omega arith)
pace_exact rps (tick ∷ events) p few h low drained =
    let (empty, later) =
      &&-eq-true (p.queued == 0) (is_drained rps events (pace_tick rps p)) drained in
    let (full, credit, _) = tick_bounds rps p few h (omega (arith, low, one_large)) in
    let now = tick_exact rps p few ((==_iff p.queued 0).0 empty) low in
    let (credit', sent') = pace_exact rps events (pace_tick rps p) few full credit later in
    (credit', omega (arith, now, sent'))
pace_exact rps (take ∷ events) p few h low drained =
    let (credit', sent') =
      pace_exact rps events (take_token p) few (omega (arith, h)) low drained in
    (credit', omega (arith, sent'))

-- From parts of a token to tokens.
most :
    (sent rps n credit limit : ℕ)
    → n ≤ 10 ^ 11
    → 0 < limit
    → 2 ^ 29 * (200 * (sent * limit + credit)) ≤ 2 ^ 29 * (n * (rps * limit)) + n * limit
    → 200 * sent ≤ n * rps + 200
most sent rps n credit limit few pos h =
    let cut : 2 ^ 29 * (200 * sent) * limit ≤ (2 ^ 29 * (n * rps) + n) * limit = omega (arith, h) in
    omega (arith, le_of_mul-le-mul_right cut pos, few)

least :
    (sent rps n credit limit : ℕ)
    → n ≤ 10 ^ 11
    → 0 < limit
    → 2 ^ 39 * credit ≤ 2 ^ 39 * limit + limit
    → 2 ^ 29 * (n * (rps * limit)) ≤ 2 ^ 29 * (200 * (sent * limit + credit)) + n * limit
    → n * rps ≤ 200 * sent + 401
least sent rps n credit limit few pos low h =
    let cut : 2 ^ 68 * (n * rps) * limit
        ≤ (2 ^ 68 * (200 * sent) + 2 ^ 29 * (200 * (2 ^ 39 + 1)) + 2 ^ 39 * n) * limit =
      omega (arith, h, low) in
    omega (arith, le_of_mul-le-mul_right cut pos, few)

-- For a rate of at most a million and at most 10 ^ 11 ticks of 5 ms, about 15 years, in any sequence
-- of ticks and of tokens taken by workers, and with the rounding of the credit: the channel is never
-- above its capacity, and the tokens sent are at most one more than the rate times the seconds of the
-- ticks. They are less than three fewer, unless some tick finds tokens of an earlier one in the
-- channel.
pub pace_rate :
    (rps : ℕ) (events : List PacerEvent)
    → rps ≤ 1_000_000
    → ticks events ≤ 10 ^ 11
    → let q = pace rps events new_pacer in
      (q.queued ≤ capacity rps)
      × (200 * q.sent ≤ ticks events * rps + 200)
      × ((is_drained rps events new_pacer ≡ false) ⊎ (ticks events * rps < 200 * (q.sent + 3)))
pace_rate rps events few short =
    let q = pace rps events new_pacer in
    let pos : 0 < one = omega (arith, one_large) in
    let (full, above) = pace_from rps events new_pacer few (omega arith) (omega arith) in
    (
      full,
      most q.sent rps (ticks events) q.credit one short pos (omega (arith, above)),
      elim (Bool-cases (is_drained rps events new_pacer)) [
        | inr behind ↦ inl behind
        | inl drained ↦
            let (credit, below) =
              pace_exact rps events new_pacer few (omega arith) (omega arith) drained in
            inr (
              omega (
                arith,
                least q.sent rps (ticks events) q.credit one short pos credit
                    (omega (arith, below)),
              ))
      ],
    )
