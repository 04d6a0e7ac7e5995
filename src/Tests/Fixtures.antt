-- ===== src/Tests/Fixtures.antt =====
-- Concrete kernels, logs and algorithms for the tests.
use arkhe_kernel.Prelude.{true, none, some, [], ◌∷◌, Checked, panic, done}
use arkhe_kernel.Abi.{unauthenticated, system}
use arkhe_kernel.State.Op
use arkhe_kernel.State.Config.{InstanceConfig, reject}
use arkhe_kernel.State.Scheduler.{ScheduledEntry}
use arkhe_kernel.State.Instance
use arkhe_kernel.State.Instance.{Instance}
use arkhe_kernel.Persist.Record.{zeros, zero_hash}
use arkhe_kernel.Persist.Signature.{Crypto, SignatureClass}
use arkhe_kernel.Runtime.Step.{StateHashing}
use arkhe_kernel.Runtime.Registry.{ActionDyn}
use arkhe_kernel.Runtime.Kernel.{Kernel, Submission, create_instance, submit, new_with_wal_signed}

-- fixed-size outputs, and verifiers that accept them
abbrev pub plain_crypto : Crypto
plain_crypto = record {
  encode_body = λ content prev. some prev;
  derive_key = λ context ikm. ikm;
  keyed_hash = λ key message. zeros 32;
  ed25519_public = λ sk. zero_hash;
  ed25519_sign = λ sk message. zeros 64;
  ed25519_parses = λ key. true;
  ed25519_verify = λ key message sig. true;
  mldsa_public = λ sk. zeros 1952;
  mldsa_sign = λ sk message. some (zeros 3309);
  mldsa_verify = λ key message sig. true;
}

abbrev pub plain_hashing : StateHashing
plain_hashing = record { encode_snapshot = λ s. none; hash = λ b. zero_hash }

abbrev pub small_config : InstanceConfig
small_config = record {
  default_caps = 0;
  max_entities = 2;
  max_scheduled = 3;
  max_inbox_per_route = 1;
  memory_budget_bytes = 100;
  parent = none;
  quota_reduction = reject;
}

abbrev pub small_instance : Instance
small_instance = Instance.new 1 small_config

-- a spawn that a caller without rights submits, and one of the system
abbrev pub spawn_all : ActionDyn
spawn_all context = Op.spawn_entity 7 system ∷ Op.spawn_entity 8 system ∷ []

abbrev pub guest_entry : ScheduledEntry
guest_entry = record {
  id = 1;
  at = 0;
  actor = none;
  principal = unauthenticated;
  action_type_code = 5;
  action_bytes = [];
  caps_ceiling = 0;
}

abbrev pub system_entry : ScheduledEntry
system_entry = record guest_entry { principal = system; caps_ceiling = 18446744073709551615 }

abbrev pub first_submission : Submission
first_submission = record {
  principal = system;
  actor = none;
  caps = 1;
  at = 0;
  action_type_code = 5;
  action_bytes = [];
}

abbrev pub kernel_of {ℓ} : {A : Type ℓ} → Kernel → Checked (A × Kernel) → Kernel
kernel_of k panic = k
kernel_of k (done (a, l)) = l

-- signed logs, one instance, one submission
abbrev pub empty_kernel : Kernel
empty_kernel = new_with_wal_signed plain_crypto zero_hash zero_hash (SignatureClass.hybrid [] [])

abbrev pub one_instance : Kernel
one_instance = kernel_of empty_kernel (create_instance empty_kernel small_config)

abbrev pub one_action : Kernel
one_action = kernel_of one_instance (submit plain_crypto one_instance 1 first_submission)
