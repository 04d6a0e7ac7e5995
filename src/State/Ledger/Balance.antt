-- ===== src/State/Ledger/Balance.antt =====
-- When a ledger balances, and the operations on it (state/ledger.rs): `total_bytes` against the sum
-- of the stored sizes, and the stored sizes against the live entities.
use arkhe_kernel.State.Ledger.Cascade.{
  among, among-keys_of, get-drop_components, entities-drop_components, drop_components-Conserves,
}
use arkhe_kernel.Prelude.{
  ℕ, ◌+◌, ◌≤◌, ◌≡◌, ◌≢◌, refl, true, sym, ◌∙◌, if◌then◌else◌, Option-cases, none, some, u64_max,
  u32_max, unwrap_or, arith, Bool-cases, inl, inr,
}
use arkhe_kernel.Order.{nat_ord, pair_ord, eq_of_eqb}
use arkhe_kernel.BTreeMap
use arkhe_kernel.BTreeMap.Lookup.{get-insert, get-remove}
use arkhe_kernel.BTreeMap.Sorted.{IsSorted, insert-IsSorted, remove-IsSorted}
use arkhe_kernel.BTreeMap.Size.{total, total-insert, total-remove}
use arkhe_kernel.Abi.{EntityId, TypeCode}
use arkhe_kernel.State.Ledger.{
  ResourceLedger, ComponentKey, new, add_entity, remove_entity, add_component, remove_component,
  component_size, keys_of, drop_components,
}

pub record IsBalanced (l : ResourceLedger) : Type 0 where
  pub sorted : IsSorted l.component_sizes
  pub exact : l.total_bytes ≡ total l.component_sizes
  pub bounded : l.total_bytes ≤ u64_max
  pub live :
      (k : ComponentKey) (size : ℕ)
      → BTreeMap.get k l.component_sizes ≡ some size
      → BTreeMap.contains k.0 l.entities ≡ true
  pub typed :
      (k : ComponentKey) (size : ℕ) → BTreeMap.get k l.component_sizes ≡ some size → k.1 ≤ u32_max

pub new-IsBalanced : IsBalanced new
unfolding BTreeMap.get
new-IsBalanced = record {
  sorted = tt;
  exact = refl;
  bounded = omega arith;
  live = λ k size h. absurd (cc);
  typed = λ k size h. absurd (cc);
}

pub add_entity-IsBalanced :
    (l : ResourceLedger) (id : EntityId) → IsBalanced l → IsBalanced (add_entity l id).1
unfolding add_entity BTreeMap.contains
add_entity-IsBalanced l id b = record {
  sorted = b.sorted;
  exact = b.exact;
  bounded = b.bounded;
  live = λ k size h. ground (arith, get-insert k.0 id tt l.entities, b.live k size h);
  typed = b.typed;
}

-- the size that is stored under a key, 0 for none
abbrev pub stored : ResourceLedger → EntityId → TypeCode → ℕ
stored l entity tc = unwrap_or 0 (component_size l entity tc)

-- Setting a component keeps the ledger balanced if the sizes still fit in 64 bits, and the type code
-- in 32.
pub add_component-IsBalanced :
    (l : ResourceLedger) (entity : EntityId) (tc : TypeCode) (size : ℕ)
    → tc ≤ u32_max
    → l.total_bytes + size ≤ u64_max + stored l entity tc
    → IsBalanced l
    → IsBalanced (add_component l entity tc size).1
unfolding add_component component_size
add_component-IsBalanced l entity tc size typed fits b =
    elim (Bool-cases (BTreeMap.contains entity l.entities)) [
      | inr unknown ↦ rw (unknown, add_component) b
      | inl known ↦
          rw (known, add_component)
            (record {
              sorted = insert-IsSorted (entity, tc) size l.component_sizes b.sorted;
              exact =
                  ground
                    (arith, total-insert (entity, tc) size l.component_sizes b.sorted, b.exact);
              bounded = ground (arith, b.bounded);
              live = λ k s h. ground (
                arith,
                get-insert k (entity, tc) size l.component_sizes,
                eq_of_eqb k (entity, tc),
                b.live k s,
              );
              typed = λ k s h. ground (
                arith,
                get-insert k (entity, tc) size l.component_sizes,
                eq_of_eqb k (entity, tc),
                b.typed k s,
              );
            })
    ]

-- Removing a component keeps the ledger balanced, whatever size the op claims.
pub remove_component-IsBalanced :
    (l : ResourceLedger) (entity : EntityId) (tc : TypeCode) (size : ℕ)
    → IsBalanced l
    → IsBalanced (remove_component l entity tc size).1
unfolding remove_component component_size
remove_component-IsBalanced l entity tc size b =
    elim (Bool-cases (BTreeMap.contains entity l.entities)) [
      | inr unknown ↦ rw (unknown, remove_component) b
      | inl known ↦
          rw (known, remove_component)
            (record {
              sorted = remove-IsSorted (entity, tc) l.component_sizes b.sorted;
              exact = ground (arith, total-remove (entity, tc) l.component_sizes b.sorted, b.exact);
              bounded = ground (arith, b.bounded);
              live =
                  λ k s h. ground (arith, get-remove k (entity, tc) l.component_sizes, b.live k s);
              typed =
                  λ k s h. ground (arith, get-remove k (entity, tc) l.component_sizes, b.typed k s);
            })
    ]

-- A component that the cascade leaves belongs to another entity.
survivor :
    (l : ResourceLedger) (id : EntityId) (k : ComponentKey) (size : ℕ)
    → IsBalanced l
    → (if among k (keys_of id l.component_sizes) then none else BTreeMap.get k l.component_sizes)
      ≡ some size
    → (BTreeMap.get k l.component_sizes ≡ some size) × (k.0 ≢ id)
survivor l id k size b h = (
  ground arith,
  λ same.
      ground (arith, among-keys_of k size id l.component_sizes (ground arith) same, b.typed k size),
)

module _ (l : ResourceLedger) (id : EntityId) (b : IsBalanced l) where
  abbrev started : ResourceLedger
  started = record l { entities = BTreeMap.remove id l.entities }

  abbrev cascaded : ResourceLedger
  cascaded = (drop_components (keys_of id l.component_sizes) 0 started).1

  cascade_lookup :
      (k : ComponentKey) (size : ℕ)
      → BTreeMap.get k (drop_components (keys_of id l.component_sizes) 0 started).1.component_sizes
        ≡ some size
      → (BTreeMap.get k l.component_sizes ≡ some size) × (k.0 ≢ id)
  cascade_lookup k size h =
      survivor l id k size b
        (sym (get-drop_components k (keys_of id l.component_sizes) 0 started) ∙ h)

  cascade-IsBalanced : IsBalanced (drop_components (keys_of id l.component_sizes) 0 started).1
  unfolding BTreeMap.contains
  cascade-IsBalanced =
      let kept =
        drop_components-Conserves (keys_of id l.component_sizes) 0 started b.sorted b.exact in
      record {
        sorted = kept.0;
        exact = kept.1;
        bounded = omega (arith, kept.2, b.bounded);
        live = λ k size h. rw (entities-drop_components (keys_of id l.component_sizes) 0 started) (
            ground (
              arith,
              get-remove k.0 id l.entities,
              cascade_lookup k size h,
              b.live k size,
              eq_of_eqb k.0 id,
            ));
        typed = λ k size h. b.typed k size (cascade_lookup k size h).0;
      }

  -- Removing an entity, its components included, keeps the ledger balanced.
  pub remove_entity-IsBalanced : IsBalanced (remove_entity l id).1
  unfolding remove_entity
  remove_entity-IsBalanced = elim (Bool-cases (BTreeMap.contains id l.entities)) [
    | inr unknown ↦ rw (unknown, remove_entity) b
    | inl known ↦ rw (known, remove_entity) cascade-IsBalanced
  ]

  -- On a balanced ledger `remove_entity` returns exactly the bytes that the total loses, and no
  -- component of the entity is left.
  pub remove_entity_frees :
      ((remove_entity l id).0 + (remove_entity l id).1.total_bytes ≡ l.total_bytes)
      × ((tc : TypeCode) → component_size (remove_entity l id).1 id tc ≡ none)
  unfolding remove_entity component_size
  remove_entity_frees = elim (Bool-cases (BTreeMap.contains id l.entities)) [
    | inr unknown ↦
        rw (unknown, remove_entity)
          (
            omega arith,
            λ tc. elim (Option-cases (BTreeMap.get (id, tc) l.component_sizes)) [
              | inl e ↦ e
              | inr (size, e) ↦ absurd (cc (unknown, b.live (id, tc) size e))
            ],
          )
    | inl known ↦
        rw (known, remove_entity)
          (
            omega (
              arith,
              (drop_components-Conserves (keys_of id l.component_sizes) 0 started b.sorted
                    b.exact).3
                  (omega (arith, b.bounded)),
            ),
            λ tc. elim (Option-cases (component_size cascaded id tc)) [
              | inl e ↦ e
              | inr (size, e) ↦ absurd ((cascade_lookup (id, tc) size e).1 refl)
            ],
          )
  ]
