-- ===== src/Schema/Valid.antt =====
-- crates/tracedb-schema/src/lib.rs: which tables the validation accepts.
use tracedb.Base.{
  ◌≡◌, ◌≢◌, ◌⊎◌, ◌↔◌, inl, inr, Text, text_eq, text_eq_iff, trim, Bool, true, false, not, List, [],
  ◌∷◌, any, All, is_empty, refl, arith, Result, ok, err, ensure, ◌>>◌, Bool-cases,
}
use tracedb.Schema.Descriptor.{
  LogicalType, ColumnDescriptor, FeatureDescriptor, TableDescriptor, has_dimensions,
  check_vector_columns, is_column, check_sources, check_features, validate_table,
}

-- Some column is such.
abbrev pub Has : (ColumnDescriptor → Type 0) → List ColumnDescriptor → Type 0
Has P [] = ⊥
Has P (c ∷ columns) = P c ⊎ Has P columns

abbrev pub HasColumn : List ColumnDescriptor → Text → Type 0
HasColumn columns name = Has (λ c. c.name ≡ name) columns

-- A vector has a dimension at least.
abbrev pub IsSized : LogicalType → Type 0
IsSized (LogicalType.vector _ dimensions _) = dimensions ≢ 0
IsSized _ = Unit

abbrev pub IsDerived : List ColumnDescriptor → FeatureDescriptor → Type 0
IsDerived columns f = HasColumn columns f.target_column × All (HasColumn columns) f.source_columns

pub record IsValidTable (table : TableDescriptor) : Type 0 where
  pub named : trim table.name ≢ []
  pub identified : Has (λ c. c.primary ≡ true) table.columns
  pub owned : Has (λ c. c.tenant ≡ true) table.columns
  pub sized : All (λ c. IsSized c.logical_type) table.columns
  pub derived : All (IsDerived table.columns) table.features

any-Has :
    (p : ColumnDescriptor → Bool) (P : ColumnDescriptor → Type 0)
    → ((c : ColumnDescriptor) → (p c ≡ true) ↔ P c)
    → (columns : List ColumnDescriptor) → (any p columns ≡ true) ↔ Has P columns
any-Has p P means [] = (λ h. absurd (cc), λ h. elim h [ ])
any-Has p P means (c ∷ columns) =
    let rest = any-Has p P means columns in
    (
      λ h. elim (Bool-cases (p c)) [
        | inl here ↦ inl ((means c).0 here)
        | inr other ↦ inr (rest.0 (rw other at h))
      ],
      λ h. elim h [
        | inl here ↦ rw ((means c).1 here) refl
        | inr there ↦ ground (arith, rest.1 there)
      ],
    )

is_column-HasColumn :
    (columns : List ColumnDescriptor) (name : Text)
    → (is_column columns name ≡ true) ↔ HasColumn columns name
is_column-HasColumn columns name =
    any-Has (λ c. text_eq c.name name) (λ c. c.name ≡ name) (λ c. text_eq_iff c.name name) columns

-- A check ahead of the rest.
ensure_then :
    {P Q : Type 0} (b : Bool) (e : Text) (r : Result Text Unit)
    → (b ≡ true) ↔ P
    → (r ≡ ok tt) ↔ Q
    → ((ensure b e >> r) ≡ ok tt) ↔ (P × Q)
ensure_then true e r p q = (λ h. (p.0 refl, q.0 h), λ h. q.1 h.1)
ensure_then false e r p q = (λ h. absurd (cc), λ h. absurd (cc (p.1 h.0)))

then_iff :
    {P Q : Type 0} (m r : Result Text Unit)
    → (m ≡ ok tt) ↔ P
    → (r ≡ ok tt) ↔ Q
    → ((m >> r) ≡ ok tt) ↔ (P × Q)
then_iff (ok _) r p q = (λ h. (p.0 refl, q.0 h), λ h. q.1 h.1)
then_iff (err e) r p q = (λ h. absurd (cc), λ h. absurd (cc (p.1 h.0)))

not_empty : (t : Text) → (not (is_empty t) ≡ true) ↔ (t ≢ [])
not_empty [] = (λ h. absurd (cc), λ h. absurd (h refl))
not_empty (c ∷ t) = (λ _ p. cc, λ _. refl)

has_dimensions-IsSized : (t : LogicalType) → (has_dimensions t ≡ true) ↔ IsSized t
has_dimensions-IsSized (LogicalType.vector _ dimensions _) = ground arith
has_dimensions-IsSized _ = (λ _. tt, λ _. refl)

check_vector_columns_iff :
    (columns : List ColumnDescriptor)
    → (check_vector_columns columns ≡ ok tt) ↔ All (λ c. IsSized c.logical_type) columns
unfolding check_vector_columns
check_vector_columns_iff [] = (λ _. tt, λ _. refl)
check_vector_columns_iff (c ∷ columns) =
    ensure_then (has_dimensions c.logical_type) _ (check_vector_columns columns)
      (has_dimensions-IsSized c.logical_type) (check_vector_columns_iff columns)

check_sources_iff :
    (columns : List ColumnDescriptor) (name : Text) (sources : List Text)
    → (check_sources columns name sources ≡ ok tt) ↔ All (HasColumn columns) sources
unfolding check_sources
check_sources_iff columns name [] = (λ _. tt, λ _. refl)
check_sources_iff columns name (source ∷ sources) =
    ensure_then (is_column columns source) _ (check_sources columns name sources)
      (is_column-HasColumn columns source) (check_sources_iff columns name sources)

check_features_iff :
    (columns : List ColumnDescriptor) (features : List FeatureDescriptor)
    → (check_features columns features ≡ ok tt) ↔ All (IsDerived columns) features
unfolding check_features
check_features_iff columns [] = (λ _. tt, λ _. refl)
check_features_iff columns (f ∷ features) =
    let all =
      ensure_then (is_column columns f.target_column) _
        (check_sources columns f.name f.source_columns >> check_features columns features)
        (is_column-HasColumn columns f.target_column)
        (then_iff _ _ (check_sources_iff columns f.name f.source_columns)
          (check_features_iff columns features)) in
    (λ h. (((all.0 h).0, (all.0 h).1.0), (all.0 h).1.1), λ h. all.1 (h.0.0, (h.0.1, h.1)))

-- The validation accepts a table exactly when its trimmed name is not empty, it has a primary column
-- and a tenant column, every vector column has a dimension at least, and the target and all sources
-- of every feature are columns.
pub validate_table_iff :
    (table : TableDescriptor) → (validate_table table ≡ ok tt) ↔ IsValidTable table
unfolding validate_table
validate_table_iff table =
    let all = ensure_then (not (is_empty (trim table.name))) _ _ (not_empty (trim table.name)) (
      ensure_then (any (λ c. c.primary) table.columns) _ _
        (any-Has (λ c. c.primary) (λ c. c.primary ≡ true) (λ c. (λ h. h, λ h. h)) table.columns)
        (ensure_then (any (λ c. c.tenant) table.columns) _ _
          (any-Has (λ c. c.tenant) (λ c. c.tenant ≡ true) (λ c. (λ h. h, λ h. h)) table.columns)
          (then_iff _ _ (check_vector_columns_iff table.columns)
            (check_features_iff table.columns table.features)))) in
    (
      λ h.
          let found = all.0 h in
          record {
            named = found.0;
            identified = found.1.0;
            owned = found.1.1.0;
            sized = found.1.1.1.0;
            derived = found.1.1.1.1;
          },
      λ h. all.1 (h.named, (h.identified, (h.owned, (h.sized, h.derived)))),
    )
