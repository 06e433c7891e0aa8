-- ===== src/Contract/Phases.antt =====
-- pkg/contract/cycle.go: the phases of a cycle, with ParseCyclePhase and Next. `none` is
-- ErrInvalidCyclePhase.
use rallish.Prelude.{Option, none, some, Text, codes, if◌then◌else◌, str_eq}

-- A Go string type: `other` is any text but those of the constants.
pub data CyclePhase : Type 0 where
  preflight audit philosophy polish commit handoff halted : CyclePhase
  other : Text → CyclePhase

abbrev pub cycle_phase_text : CyclePhase → Text
cycle_phase_text preflight = codes "preflight"
cycle_phase_text audit = codes "audit"
cycle_phase_text philosophy = codes "philosophy"
cycle_phase_text polish = codes "polish"
cycle_phase_text commit = codes "commit"
cycle_phase_text handoff = codes "handoff"
cycle_phase_text halted = codes "halted"
cycle_phase_text (other t) = t

abbrev is_phase : CyclePhase → Text → Option CyclePhase → Option CyclePhase
is_phase p s otherwise = if str_eq s (cycle_phase_text p) then some p else otherwise

unfoldable pub parse_cycle_phase : Text → Option CyclePhase
unfolding str_eq
parse_cycle_phase s = is_phase preflight s (
    is_phase audit s (
      is_phase philosophy s
        (is_phase polish s (is_phase commit s (is_phase handoff s (is_phase halted s none))))))

abbrev pub next : CyclePhase → CyclePhase
next preflight = audit
next audit = philosophy
next philosophy = polish
next polish = commit
next commit = handoff
next handoff = halted
next halted = halted
next (other t) = halted
