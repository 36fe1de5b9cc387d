-- ===== src/Agents/Shares.antt =====
-- How `rps_for_slot` divides a target among the slots.
use Prim.Native.Nat.{min}
use native.Mathlib.Nat.{div-add-mod, mod-lt}
use cloudflare_r2_bench.Base.{ℕ, zero, suc, ◌+◌, ◌*◌, ◌/◌, ◌%◌, ◌≤◌, ◌<◌, ◌≡◌, ◌⊎◌, inl, inr, arith}
use native.Mathlib.Decide.{dec_lt}
use cloudflare_r2_bench.Agents.{rps_for_slot}

-- The rates of the slots below `n`, added up.
unfoldable pub shares_below : ℕ → ℕ → ℕ → ℕ
shares_below target agents zero = 0
shares_below target agents (suc n) = shares_below target agents n + rps_for_slot target agents n

share_cases :
    (target agents slot : ℕ)
    → 0 < agents
    → ((slot < target % agents) × (rps_for_slot target agents slot ≡ target / agents + 1))
      ⊎ ((target % agents ≤ slot) × (rps_for_slot target agents slot ≡ target / agents))
unfolding rps_for_slot
share_cases target agents slot h = ground arith

shares_below_lem :
    (target agents n : ℕ)
    → 0 < agents
    → shares_below target agents n ≡ n * (target / agents) + min n (target % agents)
unfolding shares_below
shares_below_lem target agents zero h = omega arith
shares_below_lem target agents (suc n) h =
    omega (arith, shares_below_lem target agents n h, share_cases target agents n h)

-- With at least one agent, the rates that `rps_for_slot` gives to the slots 0 to agents - 1 add up
-- to the target exactly.
pub shares_below_total :
    (target agents : ℕ) → 0 < agents → shares_below target agents agents ≡ target
shares_below_total target agents h =
    omega
      (arith, shares_below_lem target agents agents h, div-add-mod target agents, mod-lt target h)

one-le-div : (target agents : ℕ) → 0 < agents → agents ≤ target → 1 ≤ target / agents
one-le-div target agents h enough = grind (arith, div-add-mod target agents, mod-lt target h)

-- With at least one agent, two slots differ by at most one request per second, an earlier slot never
-- gets less than a later one, and every slot gets at least one unless the target is below the number
-- of agents.
pub rps_for_slot_fair :
    (target agents i j : ℕ)
    → 0 < agents
    → i ≤ j
    → (rps_for_slot target agents j ≤ rps_for_slot target agents i)
      × (rps_for_slot target agents i ≤ rps_for_slot target agents j + 1)
      × ((target < agents) ⊎ (1 ≤ rps_for_slot target agents j))
rps_for_slot_fair target agents i j h le = (
  omega (arith, share_cases target agents i h, share_cases target agents j h),
  omega (arith, share_cases target agents i h, share_cases target agents j h),
  elim (dec_lt target agents) [
    | yes few ↦ inl few
    | no many ↦
        inr (omega (arith, share_cases target agents j h, one-le-div target agents h (omega arith)))
  ],
)
