-- ===== src/State/Scheduler/Key.antt =====
-- The key of the ready queue: tick first, then the sequence number, then the id.
use Prim.Native.Nat.Ordering.{lt, eq}
use arkhe_kernel.Prelude.{ℕ, Ordering, compare, ◌≡◌, arith}
use arkhe_kernel.Order.{Ord, flip, then_with}
use arkhe_kernel.Abi.{Tick}

-- the number behind a `ScheduledActionId` (a `NonZeroU64` in the source)
abbrev pub ScheduledActionId : Type 0
ScheduledActionId = ℕ

pub record SchedKey : Type 0 where
  pub at : Tick
  pub seq : ℕ
  pub id : ScheduledActionId

-- the derived `Ord`
abbrev pub cmp_key : SchedKey → SchedKey → Ordering
cmp_key a b = then_with (compare a.at b.at) (then_with (compare a.seq b.seq) (compare a.id b.id))

pub cmp_key_self : (a : SchedKey) → cmp_key a a ≡ eq
cmp_key_self a = ground arith

pub eq_of_cmp_key : (a b : SchedKey) → cmp_key a b ≡ eq → a ≡ b
eq_of_cmp_key a b h = ground arith

pub cmp_key-flip : (a b : SchedKey) → cmp_key b a ≡ flip (cmp_key a b)
cmp_key-flip a b = ground arith

pub cmp_key_trans : (a b c : SchedKey) → cmp_key a b ≡ lt → cmp_key b c ≡ lt → cmp_key a c ≡ lt
cmp_key_trans a b c p q = ground arith

instance unfoldable pub sched_key_ord : Ord SchedKey
sched_key_ord = record {
  cmp = cmp_key;
  cmp_self = cmp_key_self;
  eq_of_cmp = eq_of_cmp_key;
  cmp_flip = cmp_key-flip;
  cmp_trans = cmp_key_trans;
}
