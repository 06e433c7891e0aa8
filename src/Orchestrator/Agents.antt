-- ===== src/Orchestrator/Agents.antt =====
-- internal/cycle/orchestrator.go: which agent RunOnce calls.
use rallish.Prelude.{
  ℕ, ◌+◌, ◌*◌, ◌/◌, ◌%◌, ◌<◌, ◌≡◌, ap, ◌∙◌, some, Text, arith, length, get_elem?, get_elem?_defined,
  if◌then◌else◌,
}
use native.Mathlib.Nat.{add-mul-div_right, div-eq_of_lt, mod-lt}
use rallish.Prelude.Int.{ℤ, pos, negsuc, leb_ℤ, pos_part}
use rallish.Contract.Ledger.{OrchestratorConfig}
use rallish.Contract.CycleState.{CycleState}
use rallish.Cycle.Turn.{reset_every, agent_index}

reset_every-positive : (cfg : OrchestratorConfig) → 0 < reset_every cfg
reset_every-positive cfg = positive cfg.reset_every
  where
    positive : (z : ℤ) → 0 < (if leb_ℤ z (pos 0) then 3 else pos_part z)
    positive (pos n) = ground arith
    positive (negsuc n) = ground arith

-- With agents configured, RunOnce has an agent in every cycle, and the agents take turns in their order:
-- the cycles from q·resetEvery on, resetEvery of them, are done by agent q modulo their number, where a
-- resetEvery that is not positive stands for 3.
pub agent_index-rotation :
    (cfg : OrchestratorConfig) (state : CycleState) (q r : ℕ)
    → 0 < length cfg.agents
    → r < reset_every cfg
    → state.completed_cycles ≡ q * reset_every cfg + r
    → (agent_index cfg state ≡ q % length cfg.agents)
      × ((name : Text) × (get_elem? cfg.agents (agent_index cfg state) ≡ some name))
unfolding agent_index
agent_index-rotation cfg state q r agents small e =
    let k = reset_every cfg in
    let turn : state.completed_cycles / k ≡ q =
      ap (λ (c : ℕ). c / k) (e ∙ swap (q * k) r)
      ∙ add-mul-div_right r q (reset_every-positive cfg)
      ∙ ap (λ (d : ℕ). d + q) (div-eq_of_lt small)
      ∙ from_zero q in
    (
      ap (λ (d : ℕ). d % length cfg.agents) turn,
      get_elem?_defined cfg.agents (agent_index cfg state)
          (mod-lt (state.completed_cycles / k) agents),
    )
  where
    swap : (a b : ℕ) → a + b ≡ b + a
    swap a b = omega arith

    from_zero : (a : ℕ) → 0 + a ≡ a
    from_zero a = omega arith
