-- ===== src/Persist/Record.antt =====
-- persist/wal.rs, lines 1 to 290: what a record of the log says. A Canonical Input Log has two
-- kinds of record: the submission of an action, and the outcome of one step.
use arkhe_kernel.Prelude.{ℕ, zero, suc, Option, [], ◌∷◌}
use arkhe_kernel.Abi.{EntityId, InstanceId, Principal, Tick, TypeCode, Bytes}
use arkhe_kernel.State.Scheduler.Key.{ScheduledActionId}

-- a `[u8; 32]`
abbrev pub Hash : Type 0
Hash = Bytes

-- `[0u8; 32]`
abbrev pub zeros : ℕ → Bytes
zeros zero = []
zeros (suc n) = 0 ∷ zeros n

abbrev pub zero_hash : Hash
zero_hash = zeros 32

pub data SkipReason : Type 0 where
  unregistered deser_failed : SkipReason

pub data StepVerdict : Type 0 where
  committed auth_denied : StepVerdict
  -- denied
  budget_partial : ℕ → StepVerdict
  -- reason
  skipped : SkipReason → StepVerdict

pub record Submit : Type 0 where
  pub seq : ℕ
  pub instance_id : InstanceId
  pub principal : Principal
  pub actor : Option EntityId
  pub caps_at_submit : ℕ
  pub at : Tick
  pub action_type_code : TypeCode
  pub action_bytes : Bytes
  pub allocated_id : ScheduledActionId

pub record Step : Type 0 where
  pub seq : ℕ
  pub instance_id : InstanceId
  pub popped_id : ScheduledActionId
  pub now : Tick
  pub session_caps : ℕ
  pub verdict : StepVerdict
  pub post_state_digest : Hash

pub data WalRecordContent : Type 0 where
  submit : Submit → WalRecordContent
  step : Step → WalRecordContent

pub data WalRecordKind : Type 0 where
  submit step : WalRecordKind

pub record WalRecord : Type 0 where
  pub content : WalRecordContent
  pub prev_chain_hash : Hash
  pub this_chain_hash : Hash
  pub signature : Option Bytes
  pub signature_pqc : Option Bytes

-- `WalRecord::seq`
unfoldable pub seq : WalRecord → ℕ
seq r = elim r.content [ submit s ↦ s.seq | step s ↦ s.seq ]

-- `WalRecord::kind`
unfoldable pub kind : WalRecord → WalRecordKind
kind r = elim r.content [ submit s ↦ WalRecordKind.submit | step s ↦ WalRecordKind.step ]
