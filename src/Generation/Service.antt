-- ===== src/Generation/Service.antt =====
-- `RunGeneration` of src/app/generation/service.py: a brief goes out, a document comes back.
use growtrics_challenge.Common.{◌≡◌}
use growtrics_challenge.Common.Text.{Str}
use growtrics_challenge.Domain.Briefs.{BriefBundle}
use growtrics_challenge.Domain.Contracts.{OutputContract, contract_for}
use growtrics_challenge.Domain.Enums.{ProfileId}
use growtrics_challenge.Domain.Json.{Json}
use growtrics_challenge.Domain.Records.{BriefRecord, JobConstraints}
use growtrics_challenge.Effects.{Result}
use growtrics_challenge.Effects.Exec.{pure, lift, ◌>>=◌}
use growtrics_challenge.Orchestration.Ports.{GenerationOutcome}
use growtrics_challenge.Storage.State.{World, Action}

-- The request that a backend is handed; its limits, which the backend alone reads, are left out.
pub record WorkerRequest : Type 0 where
  pub session_id : Str
  pub trace_id : Str
  pub bundle : BriefBundle
  pub contract : OutputContract

-- The backend, a remote worker that may answer anything or raise, and writes neither tables nor
-- objects of ours.
pub record Backend : Type 0 where
  pub answer : WorkerRequest → Action Json
  pub answer_database : (r : WorkerRequest) (w : World) → (answer r w).1.database ≡ w.database
  pub answer_objects : (r : WorkerRequest) (w : World) → (answer r w).1.objects ≡ w.objects

-- How a stored brief becomes the files that a worker receives; intake has it.
abbrev pub BundleRenderer : Type 0
BundleRenderer = BriefRecord → OutputContract → ProfileId → Result BriefBundle

abbrev pub request_of : Str → Str → BriefBundle → OutputContract → WorkerRequest
request_of session_id trace_id bundle contract = record {
  session_id = session_id;
  trace_id = trace_id;
  bundle = bundle;
  contract = contract;
}

module _ (render : BundleRenderer) (b : Backend) where
  unfoldable pub generate :
      Str → Str → BriefRecord → JobConstraints → ProfileId → Action GenerationOutcome
  generate session_id trace_id brief constraints profile = do
    contract ← lift (contract_for profile)
    bundle ← lift (render brief contract profile)
    answer ← b.answer (request_of session_id trace_id bundle contract)
    pure (record { session_id = session_id; document = answer })
