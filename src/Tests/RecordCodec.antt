-- ===== src/Tests/RecordCodec.antt =====
-- The tests' marshaller of turn records.
use rallish.Prelude.{
  ℕ, ◌≡◌, ◌≢◌, refl, ap, true, none, some, some-injective, List, [], ◌∷◌, ◌++◌, Text, get_elem?,
  arith, All-append,
}
use rallish.Contract.Json.{newline}
use rallish.Contract.Turns.{HandoffIntent, SelfEval, Usage, TurnResponse}
use rallish.Contract.Requests.{ExitCondition, LastTurn, Task, TurnRequest}
use rallish.Cycle.Budget.{Budget}
use rallish.Session.Records.{TurnRecord}
use rallish.Session.Store.{trim_return}
use rallish.Session.Replays.{RecordJson}
use rallish.Tests.Codec.{
  Codec, nat_codec, iso_codec, pair_codec, list_codec, text_codec, option_codec, int_codec,
  bool_codec, read,
}
use rallish.Tests.EntryCodec.{brace, nonempty, contract_codec}
use rallish.Tests.StateCodec.{violation_codec}

abbrev intent_list : List HandoffIntent
intent_list = HandoffIntent.continue ∷ HandoffIntent.cross_check ∷ []

abbrev intent_of : ℕ × Text → HandoffIntent
intent_of (n, t) = elim (get_elem? intent_list n) [ some v ↦ v | none ↦ HandoffIntent.other t ]

abbrev intent_code : HandoffIntent → ℕ × Text
intent_code HandoffIntent.continue = (0, [])
intent_code HandoffIntent.cross_check = (1, [])
intent_code (HandoffIntent.other t) = (2, t)

pub intent_of-intent_code : (v : HandoffIntent) → intent_of (intent_code v) ≡ v
intent_of-intent_code HandoffIntent.continue = refl
intent_of-intent_code HandoffIntent.cross_check = refl
intent_of-intent_code (HandoffIntent.other t) = refl

abbrev intent_codec : Codec HandoffIntent
intent_codec =
    iso_codec (pair_codec nat_codec text_codec) intent_of intent_code intent_of-intent_code

abbrev self_eval_list : List SelfEval
self_eval_list = SelfEval.confident ∷ SelfEval.uncertain ∷ SelfEval.blocked ∷ []

abbrev self_eval_of : ℕ × Text → SelfEval
self_eval_of (n, t) = elim (get_elem? self_eval_list n) [ some v ↦ v | none ↦ SelfEval.other t ]

abbrev self_eval_code : SelfEval → ℕ × Text
self_eval_code SelfEval.confident = (0, [])
self_eval_code SelfEval.uncertain = (1, [])
self_eval_code SelfEval.blocked = (2, [])
self_eval_code (SelfEval.other t) = (3, t)

pub self_eval_of-self_eval_code : (v : SelfEval) → self_eval_of (self_eval_code v) ≡ v
self_eval_of-self_eval_code SelfEval.confident = refl
self_eval_of-self_eval_code SelfEval.uncertain = refl
self_eval_of-self_eval_code SelfEval.blocked = refl
self_eval_of-self_eval_code (SelfEval.other t) = refl

abbrev self_eval_codec : Codec SelfEval
self_eval_codec =
    iso_codec (pair_codec nat_codec text_codec) self_eval_of self_eval_code
      self_eval_of-self_eval_code

abbrev condition_list : List ExitCondition
condition_list =
    ExitCondition.all_artifacts_compile ∷ ExitCondition.tests_pass ∷ ExitCondition.reviewer_approved
    ∷ ExitCondition.turns_exhausted ∷ ExitCondition.tokens_exhausted ∷ ExitCondition.deadline_passed
    ∷ ExitCondition.human_signal ∷ ExitCondition.dry_rounds ∷ ExitCondition.stuck ∷ []

abbrev condition_of : ℕ × Text → ExitCondition
condition_of (n, t) = elim (get_elem? condition_list n) [
  | some v ↦ v
  | none ↦ ExitCondition.other t
]

abbrev condition_code : ExitCondition → ℕ × Text
condition_code ExitCondition.all_artifacts_compile = (0, [])
condition_code ExitCondition.tests_pass = (1, [])
condition_code ExitCondition.reviewer_approved = (2, [])
condition_code ExitCondition.turns_exhausted = (3, [])
condition_code ExitCondition.tokens_exhausted = (4, [])
condition_code ExitCondition.deadline_passed = (5, [])
condition_code ExitCondition.human_signal = (6, [])
condition_code ExitCondition.dry_rounds = (7, [])
condition_code ExitCondition.stuck = (8, [])
condition_code (ExitCondition.other t) = (9, t)

pub condition_of-condition_code : (v : ExitCondition) → condition_of (condition_code v) ≡ v
condition_of-condition_code ExitCondition.all_artifacts_compile = refl
condition_of-condition_code ExitCondition.tests_pass = refl
condition_of-condition_code ExitCondition.reviewer_approved = refl
condition_of-condition_code ExitCondition.turns_exhausted = refl
condition_of-condition_code ExitCondition.tokens_exhausted = refl
condition_of-condition_code ExitCondition.deadline_passed = refl
condition_of-condition_code ExitCondition.human_signal = refl
condition_of-condition_code ExitCondition.dry_rounds = refl
condition_of-condition_code ExitCondition.stuck = refl
condition_of-condition_code (ExitCondition.other t) = refl

abbrev condition_codec : Codec ExitCondition
condition_codec =
    iso_codec (pair_codec nat_codec text_codec) condition_of condition_code
      condition_of-condition_code

abbrev usage_codec : Codec Usage
usage_codec =
    iso_codec (pair_codec int_codec (pair_codec int_codec (int_codec)))
      (λ (tokens_in', (tokens_out', ms')). record {
        tokens_in = tokens_in';
        tokens_out = tokens_out';
        ms = ms';
      })
      (λ (r : Usage). (r.tokens_in, (r.tokens_out, r.ms))) (λ r. refl)

abbrev budget_codec : Codec Budget
budget_codec =
    iso_codec (pair_codec int_codec (pair_codec int_codec (pair_codec int_codec (int_codec))))
      (λ (tokens_left', (turns_left', (deadline_ms', dry_rounds_threshold'))). record {
        tokens_left = tokens_left';
        turns_left = turns_left';
        deadline_ms = deadline_ms';
        dry_rounds_threshold = dry_rounds_threshold';
      })
      (λ (r : Budget). (r.tokens_left, (r.turns_left, (r.deadline_ms, r.dry_rounds_threshold))))
      (λ r. refl)

abbrev task_codec : Codec Task
task_codec =
    iso_codec (pair_codec text_codec (pair_codec text_codec (text_codec)))
      (λ (title', (body', repo_root')). record {
        title = title';
        body = body';
        repo_root = repo_root';
      })
      (λ (r : Task). (r.title, (r.body, r.repo_root))) (λ r. refl)

abbrev last_turn_codec : Codec LastTurn
last_turn_codec =
    iso_codec
      (pair_codec text_codec (
        pair_codec text_codec (
          pair_codec text_codec (
            pair_codec (list_codec text_codec) (
              pair_codec self_eval_codec
                (pair_codec intent_codec ((list_codec violation_codec))))))))
      (λ (from', (runtime', (summary', (artifacts', (self_eval', (intent', claims')))))). record {
        from = from';
        runtime = runtime';
        summary = summary';
        artifacts = artifacts';
        self_eval = self_eval';
        intent = intent';
        claims = claims';
      })
      (λ (r : LastTurn).
        (r.from, (r.runtime, (r.summary, (r.artifacts, (r.self_eval, (r.intent, r.claims)))))))
      (λ r. refl)

abbrev request_codec : Codec TurnRequest
request_codec =
    iso_codec
      (pair_codec text_codec (
        pair_codec int_codec (
          pair_codec text_codec (
            pair_codec text_codec (
              pair_codec text_codec (
                pair_codec budget_codec (
                  pair_codec text_codec (
                    pair_codec text_codec (
                      pair_codec (option_codec last_turn_codec) (
                        pair_codec task_codec (
                          pair_codec (option_codec contract_codec)
                            ((list_codec condition_codec)))))))))))))
      (λ (
        session',
        (
          turn',
          (
            role',
            (
              runtime_hint',
              (
                model_hint',
                (
                  budget',
                  (scratch_path', (scratch', (last_turn', (task', (work_contract', exit_when'))))),
                ),
              ),
            ),
          ),
        ),
      ).
        record {
          session = session';
          turn = turn';
          role = role';
          runtime_hint = runtime_hint';
          model_hint = model_hint';
          budget = budget';
          scratch_path = scratch_path';
          scratch = scratch';
          last_turn = last_turn';
          task = task';
          work_contract = work_contract';
          exit_when = exit_when';
        })
      (λ (r : TurnRequest). (
        r.session,
        (
          r.turn,
          (
            r.role,
            (
              r.runtime_hint,
              (
                r.model_hint,
                (
                  r.budget,
                  (
                    r.scratch_path,
                    (r.scratch, (r.last_turn, (r.task, (r.work_contract, r.exit_when)))),
                  ),
                ),
              ),
            ),
          ),
        ),
      ))
      (λ r. refl)

abbrev response_codec : Codec TurnResponse
response_codec =
    iso_codec
      (pair_codec bool_codec (
        pair_codec text_codec (
          pair_codec intent_codec (
            pair_codec text_codec (
              pair_codec (list_codec text_codec) (
                pair_codec self_eval_codec (
                  pair_codec text_codec
                    (pair_codec (option_codec usage_codec) ((list_codec violation_codec))))))))))
      (λ (
        done',
        (
          handoff_to',
          (
            handoff_intent',
            (summary', (artifacts', (self_eval', (notes_for_human', (usage', claims'))))),
          ),
        ),
      ).
        record {
          done = done';
          handoff_to = handoff_to';
          handoff_intent = handoff_intent';
          summary = summary';
          artifacts = artifacts';
          self_eval = self_eval';
          notes_for_human = notes_for_human';
          usage = usage';
          claims = claims';
        })
      (λ (r : TurnResponse). (
        r.done,
        (
          r.handoff_to,
          (
            r.handoff_intent,
            (r.summary, (r.artifacts, (r.self_eval, (r.notes_for_human, (r.usage, r.claims))))),
          ),
        ),
      ))
      (λ r. refl)

abbrev record_codec : Codec TurnRecord
record_codec =
    iso_codec
      (pair_codec int_codec (pair_codec int_codec (pair_codec request_codec (response_codec))))
      (λ (turn', (time', (req', resp'))). record {
        turn = turn';
        time = time';
        req = req';
        resp = resp';
      })
      (λ (r : TurnRecord). (r.turn, (r.time, (r.req, r.resp)))) (λ r. refl)

pub trim_return-braced : (t : Text) → trim_return (t ++ b'}' ∷ []) ≡ t ++ b'}' ∷ []
trim_return-braced [] = refl
trim_return-braced (c ∷ []) = refl
trim_return-braced (c ∷ d ∷ t) = ap (◌∷◌ c) (trim_return-braced (d ∷ t))

pub closing : b'}' ≢ newline
closing e = absurd (omega arith)

abbrev pub record_json : RecordJson
record_json = record {
  json = record {
    marshal = λ rec. some (b'{' ∷ (record_codec.put rec ++ b'}' ∷ []));
    unmarshal = read record_codec;
    is_utf8 = λ rec. true;
    unmarshal-marshal =
        λ rec text u m. rw (← (some-injective m), record_codec.get-put rec (b'}' ∷ [])) refl;
  };
  marshal_one_line = λ rec line m. rw (← (some-injective m)) (
    (
      brace,
      All-append (λ c. c ≢ newline) (record_codec.put rec) (b'}' ∷ []) (record_codec.clean rec)
          (closing, tt),
    ),
    trim_return-braced (b'{' ∷ record_codec.put rec),
    nonempty,
  );
}
