-- ===== src/State/Ledger.antt =====
-- state/ledger.rs: the resource accounting of one instance
pub mod Cascade
pub mod Balance
use arkhe_kernel.Prelude.{
  ℕ, Bool, true, false, not, Option, none, some, List, [], ◌∷◌, sat_add64, sat_sub, u32_max, min,
  leb, ◌==◌, ◌-◌, ◌+◌, length, if◌then◌else◌,
}
use arkhe_kernel.Order.{nat_ord, pair_ord}
use arkhe_kernel.BTreeMap
use arkhe_kernel.BTreeMap.{BTreeMap, BTreeSet}
use arkhe_kernel.Abi.{EntityId, TypeCode}

abbrev pub ComponentKey : Type 0
ComponentKey = EntityId × TypeCode

pub record ResourceLedger : Type 0 where
  pub entities : BTreeSet EntityId
  pub component_sizes : BTreeMap ComponentKey ℕ
  pub total_bytes : ℕ

abbrev pub new : ResourceLedger
new = record { entities = []; component_sizes = []; total_bytes = 0 }

-- `u32::try_from(len).unwrap_or(u32::MAX)`
unfoldable pub total_entities : ResourceLedger → ℕ
total_entities l = min (length l.entities) u32_max

unfoldable pub component_size : ResourceLedger → EntityId → TypeCode → Option ℕ
component_size l entity tc = BTreeMap.get (entity, tc) l.component_sizes

-- the keys of `range((id, 0)..=(id, u32::MAX))`, in ascending order
unfoldable pub keys_of {ℓ} : {V : Type ℓ} → EntityId → BTreeMap ComponentKey V → List ComponentKey
keys_of id [] = []
keys_of id ((k, size) ∷ m) =
    let rest = keys_of id m in
    if k.0 == id then (if leb k.1 u32_max then k ∷ rest else rest) else rest

-- the fold of `entity_bytes` over the same range
bytes_of : EntityId → ℕ → BTreeMap ComponentKey ℕ → ℕ
bytes_of id acc [] = acc
bytes_of id acc ((k, size) ∷ m) =
    bytes_of id (if k.0 == id then (if leb k.1 u32_max then sat_add64 acc size else acc) else acc) m

unfoldable pub entity_bytes : ResourceLedger → EntityId → ℕ
unfolding bytes_of
entity_bytes l id = bytes_of id 0 l.component_sizes

count_type : TypeCode → BTreeMap ComponentKey ℕ → ℕ
count_type tc [] = 0
count_type tc ((k, size) ∷ m) = (if k.1 == tc then 1 else 0) + count_type tc m

unfoldable pub type_count : ResourceLedger → TypeCode → ℕ
unfolding count_type
type_count l tc = min (count_type tc l.component_sizes) u32_max

unfoldable pub add_entity : ResourceLedger → EntityId → Bool × ResourceLedger
add_entity l id = (
  not (BTreeMap.contains id l.entities),
  record l { entities = BTreeMap.insert id tt l.entities },
)

-- the loop of `remove_entity`: the bytes freed, and the ledger without these components
pub drop_components : List ComponentKey → ℕ → ResourceLedger → ℕ × ResourceLedger
drop_components [] freed l = (freed, l)
drop_components (k ∷ ks) freed l = elim (BTreeMap.get k l.component_sizes) [
  | none ↦ drop_components ks freed l
  | some size ↦ drop_components ks (sat_add64 freed size) (record l {
    component_sizes = BTreeMap.remove k l.component_sizes;
    total_bytes = sat_sub l.total_bytes size;
  })
]

unfoldable pub remove_entity : ResourceLedger → EntityId → ℕ × ResourceLedger
unfolding drop_components
remove_entity l id =
    if not (BTreeMap.contains id l.entities)
    then (0, l)
    else drop_components (keys_of id l.component_sizes) 0
        (record l { entities = BTreeMap.remove id l.entities })

-- `total_bytes` after a component of size `old`, if there was one, is replaced by one of `size`
pub adjusted : ℕ → Option ℕ → ℕ → ℕ
adjusted total none size = sat_add64 total size
adjusted total (some old) size =
    if leb old size then sat_add64 total (size - old) else sat_sub total (old - size)

unfoldable pub add_component : ResourceLedger → EntityId → TypeCode → ℕ → Bool × ResourceLedger
unfolding adjusted
add_component l entity tc size = if not (BTreeMap.contains entity l.entities) then (false, l) else (
  true,
  record l {
    component_sizes = BTreeMap.insert (entity, tc) size l.component_sizes;
    total_bytes = adjusted l.total_bytes (BTreeMap.get (entity, tc) l.component_sizes) size;
  },
)

-- what is left of `total_bytes` when a stored size, if any, goes
pub without : ℕ → Option ℕ → ℕ
without total none = total
without total (some old) = sat_sub total old

-- The size that the caller names is ignored.
unfoldable pub remove_component : ResourceLedger → EntityId → TypeCode → ℕ → Bool × ResourceLedger
unfolding without
remove_component l entity tc size =
    if not (BTreeMap.contains entity l.entities) then (false, l) else (
      true,
      record l {
        component_sizes = BTreeMap.remove (entity, tc) l.component_sizes;
        total_bytes = without l.total_bytes (BTreeMap.get (entity, tc) l.component_sizes);
      },
    )
