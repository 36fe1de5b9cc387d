-- ===== src/Types.antt =====
-- src/types.ts: the job and spawn statuses, and the bodies of requests and responses. A field that
-- is optional, or that a body may lack, is an `Option`; `none` is JavaScript's `undefined`.
use cloudflare_r2_bench.Base.{
  ℕ, ◌≡◌, refl, Bool, true, false, Option, List, [], ◌∷◌, Text, codes, any_row,
}
use cloudflare_r2_bench.Js.Number.{Number}

pub data Status : Type 0 where
  queued running stopping completed stopped failed : Status

-- The spelling of a status in the database and in responses.
unfoldable pub status_text : Status → Text
status_text queued = codes "QUEUED"
status_text running = codes "RUNNING"
status_text stopping = codes "STOPPING"
status_text completed = codes "COMPLETED"
status_text stopped = codes "STOPPED"
status_text failed = codes "FAILED"

abbrev pub status_eq : Status → Status → Bool
status_eq queued queued = true
status_eq running running = true
status_eq stopping stopping = true
status_eq completed completed = true
status_eq stopped stopped = true
status_eq failed failed = true
status_eq _ _ = false

-- `STATUS IN (…)`.
abbrev pub status_in : Status → List Status → Bool
status_in s statuses = any_row (status_eq s) statuses

abbrev pub terminal_statuses : List Status
terminal_statuses = completed ∷ stopped ∷ failed ∷ []

abbrev pub active_statuses : List Status
active_statuses = queued ∷ running ∷ []

pub record JobStartRequest : Type 0 where
  pub target_rps : Option Number
  pub agents : Option Number
  pub workers_per_agent : Option Number
  pub duration : Option Number
  pub start_delay_seconds : Option Number
  pub unthrottled : Option Bool

pub record JobStartResponse : Type 0 where
  pub status : Text
  pub message : Text
  pub job_request : JobStartRequest
  pub job_id : Option Text

pub record AgentPollRequest : Type 0 where
  pub token : Option Text
  pub agent_id : Option Text
  pub region : Option Text

pub record RunAssignment : Type 0 where
  pub job_id : Text
  pub spawn_id : Text
  pub target_rps : ℕ
  pub workers : ℕ
  pub start_at_epoch_ms : ℕ
  pub stop_at_epoch_ms : ℕ
  pub unthrottled : Bool

-- `action` is the constructor; a response is idle, perhaps with a message, or carries a whole
-- assignment.
pub data AgentPollResponse : Type 0 where
  idle : Option Text → AgentPollResponse
  run : RunAssignment → AgentPollResponse

pub record WatchRequest : Type 0 where
  pub job_id : Option Text

pub record SpawnStatusRequest : Type 0 where
  pub token : Option Text
  pub spawn_id : Option Text
  pub job_id : Option Text

pub record SpawnMetricsReport : Type 0 where
  pub request : SpawnStatusRequest
  pub tick_number : Number
  pub latency : Number
  pub rps : Number
  pub error_m1_rate : Option Number
  pub count : Number
  pub avg_latency : Number
  pub actual_rps : Number
  pub total_count : Number
  pub p50 : Option Number
  pub p95 : Option Number
  pub p99 : Option Number
  pub bytes : Option Number
  pub status_4xx : Option Number
  pub status_5xx : Option Number

pub record SpawnCompletionReport : Type 0 where
  pub request : SpawnStatusRequest
  pub error : Option Text

pub record JobSummary : Type 0 where
  pub job_id : Text
  pub status : Text
  pub rps : ℕ
  pub concurrency : ℕ
  pub duration : ℕ
  pub created_at : ℕ
  pub updated_at : ℕ

pub status_eq_sound : (s t : Status) → status_eq s t ≡ true → s ≡ t
status_eq_sound queued queued h = refl
status_eq_sound running running h = refl
status_eq_sound stopping stopping h = refl
status_eq_sound completed completed h = refl
status_eq_sound stopped stopped h = refl
status_eq_sound failed failed h = refl
status_eq_sound _ _ h = cc
