-- ===== src/Tests/EntryCodec.antt =====
-- The tests' marshaller of ledger entries.
use rallish.Prelude.{
  ℕ, List, get_elem?, none, ◌≡◌, ◌≢◌, refl, some, [], ◌∷◌, Text, arith, some-injective,
}
use rallish.Contract.Ledger.{
  LedgerEventType, cycle_created, agent_turn, gate_passed, gate_failed, handoff_created,
  cycle_halted, cycle_completed, validation_green, action_denied, secret_flagged, gates_pinned,
  gate_tampered, tooluse_decision, claim_registered, claim_verified, claim_falsified,
  OrchestratorConfig, WorkContract, HarnessLedgerEntry,
}
use rallish.Contract.Json.{EntryJson, newline}
use rallish.Tests.Codec.{
  Codec, nat_codec, iso_codec, pair_codec, list_codec, text_codec, option_codec, int_codec,
  bool_codec, codec_json,
}

abbrev pub known_types : List LedgerEventType
known_types =
    cycle_created ∷ agent_turn ∷ gate_passed ∷ gate_failed ∷ handoff_created ∷ cycle_halted
    ∷ cycle_completed ∷ validation_green ∷ action_denied ∷ secret_flagged ∷ gates_pinned
    ∷ gate_tampered ∷ tooluse_decision ∷ claim_registered ∷ claim_verified ∷ claim_falsified ∷ []

abbrev pub type_of : ℕ × Text → LedgerEventType
type_of (n, t) = elim (get_elem? known_types n) [ some typ ↦ typ | none ↦ LedgerEventType.other t ]

abbrev pub code_of : LedgerEventType → ℕ × Text
code_of cycle_created = (0, [])
code_of agent_turn = (1, [])
code_of gate_passed = (2, [])
code_of gate_failed = (3, [])
code_of handoff_created = (4, [])
code_of cycle_halted = (5, [])
code_of cycle_completed = (6, [])
code_of validation_green = (7, [])
code_of action_denied = (8, [])
code_of secret_flagged = (9, [])
code_of gates_pinned = (10, [])
code_of gate_tampered = (11, [])
code_of tooluse_decision = (12, [])
code_of claim_registered = (13, [])
code_of claim_verified = (14, [])
code_of claim_falsified = (15, [])
code_of (LedgerEventType.other t) = (16, t)

pub type_of-code_of : (t : LedgerEventType) → type_of (code_of t) ≡ t
type_of-code_of cycle_created = refl
type_of-code_of agent_turn = refl
type_of-code_of gate_passed = refl
type_of-code_of gate_failed = refl
type_of-code_of handoff_created = refl
type_of-code_of cycle_halted = refl
type_of-code_of cycle_completed = refl
type_of-code_of validation_green = refl
type_of-code_of action_denied = refl
type_of-code_of secret_flagged = refl
type_of-code_of gates_pinned = refl
type_of-code_of gate_tampered = refl
type_of-code_of tooluse_decision = refl
type_of-code_of claim_registered = refl
type_of-code_of claim_verified = refl
type_of-code_of claim_falsified = refl
type_of-code_of (LedgerEventType.other t) = refl

abbrev pub type_codec : Codec LedgerEventType
type_codec = iso_codec (pair_codec nat_codec text_codec) type_of code_of type_of-code_of

abbrev pub config_codec : Codec OrchestratorConfig
config_codec =
    iso_codec
      (pair_codec (list_codec text_codec) (
        pair_codec text_codec
          (pair_codec int_codec (pair_codec text_codec (pair_codec text_codec int_codec)))))
      (λ (agents, (pattern, (reset_every, (repo_url, (working_dir, max_lifetime_turns))))). record {
        agents = agents;
        pattern = pattern;
        reset_every = reset_every;
        repo_url = repo_url;
        working_dir = working_dir;
        max_lifetime_turns = max_lifetime_turns;
      })
      (λ (r : OrchestratorConfig). (
        r.agents,
        (r.pattern, (r.reset_every, (r.repo_url, (r.working_dir, r.max_lifetime_turns)))),
      ))
      (λ r. refl)

abbrev pub contract_codec : Codec WorkContract
contract_codec =
    iso_codec
      (pair_codec text_codec (
        pair_codec text_codec (
          pair_codec text_codec (
            pair_codec (list_codec text_codec) (
              pair_codec (list_codec text_codec) (
                pair_codec int_codec
                  (pair_codec int_codec (pair_codec bool_codec (option_codec config_codec)))))))))
      (λ (
        objective,
        (
          repo_root,
          (
            branch,
            (
              pending_files,
              (local_gates, (max_cycles, (max_duration_minutes, (auto_goal, orchestrator)))),
            ),
          ),
        ),
      ).
        record {
          objective = objective;
          repo_root = repo_root;
          branch = branch;
          pending_files = pending_files;
          local_gates = local_gates;
          max_cycles = max_cycles;
          max_duration_minutes = max_duration_minutes;
          auto_goal = auto_goal;
          orchestrator = orchestrator;
        })
      (λ (r : WorkContract). (
        r.objective,
        (
          r.repo_root,
          (
            r.branch,
            (
              r.pending_files,
              (
                r.local_gates,
                (r.max_cycles, (r.max_duration_minutes, (r.auto_goal, r.orchestrator))),
              ),
            ),
          ),
        ),
      ))
      (λ r. refl)

abbrev pub entry_codec : Codec HarnessLedgerEntry
entry_codec =
    iso_codec
      (pair_codec text_codec (
        pair_codec int_codec (
          pair_codec text_codec (
            pair_codec type_codec (
              pair_codec text_codec (
                pair_codec text_codec (
                  pair_codec text_codec (
                    pair_codec text_codec (
                      pair_codec (list_codec text_codec) (
                        pair_codec (option_codec contract_codec)
                          (pair_codec text_codec text_codec)))))))))))
      (λ (
        schema_version,
        (
          at,
          (
            cycle_id,
            (
              type,
              (agent, (handoff_to, (gate, (summary, (files, (work_contract, (prev_hash, hash))))))),
            ),
          ),
        ),
      ).
        record {
          schema_version = schema_version;
          at = at;
          cycle_id = cycle_id;
          type = type;
          agent = agent;
          handoff_to = handoff_to;
          gate = gate;
          summary = summary;
          files = files;
          work_contract = work_contract;
          prev_hash = prev_hash;
          hash = hash;
        })
      (λ (r : HarnessLedgerEntry). (
        r.schema_version,
        (
          r.at,
          (
            r.cycle_id,
            (
              r.type,
              (
                r.agent,
                (
                  r.handoff_to,
                  (r.gate, (r.summary, (r.files, (r.work_contract, (r.prev_hash, r.hash))))),
                ),
              ),
            ),
          ),
        ),
      ))
      (λ r. refl)

pub brace : b'{' ≢ newline
brace e = absurd (omega arith)

pub nonempty : {c : ℕ} {s : Text} → c ∷ s ≢ []
nonempty e = cc

abbrev pub entry_json : EntryJson
entry_json = record {
  json = codec_json entry_codec;
  marshal_one_line = λ e line m. rw (← (some-injective m)) ((brace, entry_codec.clean e), nonempty);
  is_utf8-hashes = λ e prev hash p q u. refl;
}
