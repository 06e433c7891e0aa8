-- ===== src/Tests/StateCodec.antt =====
-- The tests' marshaller of cycle states.
use rallish.Prelude.{
  ℕ, ◌≡◌, refl, ap, Bool, true, false, Option, none, some, List, [], ◌∷◌, Text, get_elem?,
}
use rallish.Contract.Turns.{Violation, ViolationCheck, ClaimCheck, GateReport}
use rallish.Contract.Phases.{CyclePhase, preflight, audit, philosophy, polish, commit, handoff}
use rallish.Contract.CycleState.{CycleState}
use rallish.Cycle.Halt.{
  HaltReason, self_audit_violation, ssh_auth_failed, max_cycles_reached, gate_failure,
  user_requested, preflight_failed, success, stuck, budget_exceeded, unparseable_turn,
}
use rallish.StateFile.{StateJson, zero_state}
use rallish.Tests.Codec.{
  Codec, nat_codec, iso_codec, pair_codec, list_codec, text_codec, option_codec, int_codec,
  bool_codec, read, read-put,
}

abbrev pub known_phases : List CyclePhase
known_phases = preflight ∷ audit ∷ philosophy ∷ polish ∷ commit ∷ handoff ∷ CyclePhase.halted ∷ []

abbrev pub phase_of : ℕ × Text → CyclePhase
phase_of (n, t) = elim (get_elem? known_phases n) [ some p ↦ p | none ↦ CyclePhase.other t ]

abbrev pub phase_code : CyclePhase → ℕ × Text
phase_code preflight = (0, [])
phase_code audit = (1, [])
phase_code philosophy = (2, [])
phase_code polish = (3, [])
phase_code commit = (4, [])
phase_code handoff = (5, [])
phase_code CyclePhase.halted = (6, [])
phase_code (CyclePhase.other t) = (7, t)

pub phase_of-phase_code : (p : CyclePhase) → phase_of (phase_code p) ≡ p
phase_of-phase_code preflight = refl
phase_of-phase_code audit = refl
phase_of-phase_code philosophy = refl
phase_of-phase_code polish = refl
phase_of-phase_code commit = refl
phase_of-phase_code handoff = refl
phase_of-phase_code CyclePhase.halted = refl
phase_of-phase_code (CyclePhase.other t) = refl

abbrev pub phase_codec : Codec CyclePhase
phase_codec = iso_codec (pair_codec nat_codec text_codec) phase_of phase_code phase_of-phase_code

abbrev pub known_reasons : List HaltReason
known_reasons =
    self_audit_violation ∷ ssh_auth_failed ∷ max_cycles_reached ∷ gate_failure ∷ user_requested
    ∷ preflight_failed ∷ success ∷ stuck ∷ budget_exceeded ∷ unparseable_turn ∷ []

abbrev pub reason_of : ℕ → HaltReason
reason_of n = elim (get_elem? known_reasons n) [ some r ↦ r | none ↦ stuck ]

abbrev pub reason_code : HaltReason → ℕ
reason_code self_audit_violation = 0
reason_code ssh_auth_failed = 1
reason_code max_cycles_reached = 2
reason_code gate_failure = 3
reason_code user_requested = 4
reason_code preflight_failed = 5
reason_code success = 6
reason_code stuck = 7
reason_code budget_exceeded = 8
reason_code unparseable_turn = 9

pub reason_of-reason_code : (r : HaltReason) → reason_of (reason_code r) ≡ r
reason_of-reason_code self_audit_violation = refl
reason_of-reason_code ssh_auth_failed = refl
reason_of-reason_code max_cycles_reached = refl
reason_of-reason_code gate_failure = refl
reason_of-reason_code user_requested = refl
reason_of-reason_code preflight_failed = refl
reason_of-reason_code success = refl
reason_of-reason_code stuck = refl
reason_of-reason_code budget_exceeded = refl
reason_of-reason_code unparseable_turn = refl

abbrev pub reason_codec : Codec HaltReason
reason_codec = iso_codec nat_codec reason_of reason_code reason_of-reason_code

abbrev pub check_codec : Codec ViolationCheck
check_codec =
    iso_codec (pair_codec text_codec text_codec)
      (λ (command', expected'). record { command = command'; expected = expected' })
      (λ (r : ViolationCheck). (r.command, r.expected)) (λ r. refl)

abbrev pub violation_codec : Codec Violation
violation_codec =
    iso_codec
      (pair_codec text_codec (
        pair_codec int_codec
          (pair_codec text_codec (pair_codec text_codec (option_codec check_codec)))))
      (λ (file', (line', (type', (message', check')))). record {
        file = file';
        line = line';
        type = type';
        message = message';
        check = check';
      })
      (λ (r : Violation). (r.file, (r.line, (r.type, (r.message, r.check))))) (λ r. refl)

abbrev pub claim_codec : Codec ClaimCheck
claim_codec =
    iso_codec (pair_codec violation_codec bool_codec)
      (λ (violation', verified'). record { violation = violation'; verified = verified' })
      (λ (r : ClaimCheck). (r.violation, r.verified)) (λ r. refl)

abbrev pub report_codec : Codec GateReport
report_codec =
    iso_codec
      (pair_codec text_codec (
        pair_codec bool_codec (
          pair_codec int_codec (
            pair_codec text_codec (
              pair_codec text_codec
                (pair_codec (list_codec violation_codec) (list_codec claim_codec)))))))
      (λ (gate', (passed', (duration_ms', (stdout', (stderr', (violations', claim_checks')))))).
        record {
          gate = gate';
          passed = passed';
          duration_ms = duration_ms';
          stdout = stdout';
          stderr = stderr';
          violations = violations';
          claim_checks = claim_checks';
        })
      (λ (r : GateReport). (
        r.gate,
        (r.passed, (r.duration_ms, (r.stdout, (r.stderr, (r.violations, r.claim_checks))))),
      ))
      (λ r. refl)

abbrev pub state_codec : Codec CycleState
state_codec =
    iso_codec
      (pair_codec text_codec (
        pair_codec phase_codec (
          pair_codec nat_codec (
            pair_codec int_codec (
              pair_codec text_codec (
                pair_codec text_codec (
                  pair_codec (list_codec text_codec) (
                    pair_codec (list_codec text_codec) (
                      pair_codec text_codec (
                        pair_codec text_codec (
                          pair_codec (list_codec violation_codec) (
                            pair_codec text_codec (
                              pair_codec bool_codec (
                                pair_codec (option_codec reason_codec) (
                                  pair_codec int_codec (
                                    pair_codec int_codec (
                                      pair_codec (list_codec report_codec) (
                                        pair_codec text_codec (
                                          pair_codec bool_codec
                                            (pair_codec int_codec int_codec))))))))))))))))))))
      (λ (
        id',
        (
          phase',
          (
            completed_cycles',
            (
              max_cycles',
              (
                branch',
                (
                  baseline_sha',
                  (
                    pending_files',
                    (
                      local_gates',
                      (
                        audit_cmd',
                        (
                          polish_test_cmd',
                          (
                            violations_found',
                            (
                              next_cycle_goal',
                              (
                                halted',
                                (
                                  halt_reason',
                                  (
                                    created_at',
                                    (
                                      updated_at',
                                      (
                                        history',
                                        (
                                          last_failed_gate',
                                          (auto_goal', (max_duration_minutes', started_at')),
                                        ),
                                      ),
                                    ),
                                  ),
                                ),
                              ),
                            ),
                          ),
                        ),
                      ),
                    ),
                  ),
                ),
              ),
            ),
          ),
        ),
      ).
        record {
          id = id';
          phase = phase';
          completed_cycles = completed_cycles';
          max_cycles = max_cycles';
          branch = branch';
          baseline_sha = baseline_sha';
          pending_files = pending_files';
          local_gates = local_gates';
          audit_cmd = audit_cmd';
          polish_test_cmd = polish_test_cmd';
          violations_found = violations_found';
          next_cycle_goal = next_cycle_goal';
          halted = halted';
          halt_reason = halt_reason';
          created_at = created_at';
          updated_at = updated_at';
          history = history';
          last_failed_gate = last_failed_gate';
          auto_goal = auto_goal';
          max_duration_minutes = max_duration_minutes';
          started_at = started_at';
        })
      (λ (r : CycleState). (
        r.id,
        (
          r.phase,
          (
            r.completed_cycles,
            (
              r.max_cycles,
              (
                r.branch,
                (
                  r.baseline_sha,
                  (
                    r.pending_files,
                    (
                      r.local_gates,
                      (
                        r.audit_cmd,
                        (
                          r.polish_test_cmd,
                          (
                            r.violations_found,
                            (
                              r.next_cycle_goal,
                              (
                                r.halted,
                                (
                                  r.halt_reason,
                                  (
                                    r.created_at,
                                    (
                                      r.updated_at,
                                      (
                                        r.history,
                                        (
                                          r.last_failed_gate,
                                          (r.auto_goal, (r.max_duration_minutes, r.started_at)),
                                        ),
                                      ),
                                    ),
                                  ),
                                ),
                              ),
                            ),
                          ),
                        ),
                      ),
                    ),
                  ),
                ),
              ),
            ),
          ),
        ),
      ))
      (λ r. refl)

abbrev pub fill : Option CycleState → CycleState → CycleState × Bool
fill none s = (s, false)
fill (some t) s = (t, true)

abbrev pub state_json : StateJson
state_json = record {
  marshal_indent = λ s. some (b'{' ∷ state_codec.put s);
  unmarshal = λ text s. fill (read state_codec text) s;
  clean = λ s. s;
  clean-counts = λ s. (refl, refl);
  is_utf8 = λ s. true;
  clean-is_utf8 = λ s u. refl;
  unmarshal-marshal_indent =
      λ s text m. ap (λ o. fill o zero_state) (read-put state_codec s text m);
}
