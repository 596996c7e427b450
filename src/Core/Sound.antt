-- ===== src/Core/Sound.antt =====
-- crates/tracedb-core/src/lib.rs: what a schema that `TableSchema::validate` lets through is like.
use tracedb.Base.{
  ◌≢◌, ℕ, Text, codes, trim, starts_with, Gives-check, Gives-then, Gives-ensure, Gives-map, text_eq,
  text_eq_iff, Bool, true, false, not, List, [], ◌∷◌, ◌≡◌, refl, arith, All, ◌==◌, is_empty, ok,
  Gives, Gives-bind, Gives-ok,
}
use tracedb.Base.Map
use tracedb.Base.Map.{TextSet}
use tracedb.Core.Types.{TableSchema, VectorColumnSchema}
use tracedb.Core.Schema.{
  validate_schema, validate_schema_identifier, validate_vector_columns, validate_column_set,
  validate_scalars, validate_texts, validate_sources, reject_identity_overlap,
  reject_reserved_result_column, is_graphql_safe_identifier,
}

-- The names are in none of the columns seen, and differ.
abbrev IsUnseen : TextSet → List VectorColumnSchema → Type 0
IsUnseen names [] = Unit
IsUnseen names (v ∷ vectors) =
    (Map.contains_key v.name names ≡ false) × IsUnseen (Map.insert v.name tt names) vectors

-- No two vector columns have one name.
abbrev pub AreDistinct : List VectorColumnSchema → Type 0
AreDistinct [] = Unit
AreDistinct (v ∷ vectors) = All (λ w. w.name ≢ v.name) vectors × AreDistinct vectors

-- A vector column has dimensions and sources and is none of the identity columns.
abbrev pub IsSoundVector : Text → Text → VectorColumnSchema → Type 0
IsSoundVector primary tenant v =
    (v.name ≢ primary) × (v.name ≢ tenant) × (v.dimensions ≢ 0) × (v.source_columns ≢ [])

abbrev pub IsSound : TableSchema → Type 0
IsSound schema =
    (schema.primary_id_column ≢ schema.tenant_id_column)
    × All (IsSoundVector schema.primary_id_column schema.tenant_id_column) schema.vector_columns
    × AreDistinct schema.vector_columns

not_inserted :
    (k n : Text) (names : TextSet)
    → Map.contains_key k (Map.insert n tt names) ≡ false
    → (Map.contains_key k names ≡ false) × (k ≢ n)
not_inserted k n names h = ground (arith, Map.get-insert k n tt names, text_eq_iff k n)

All-map :
    {A : Type 0} (P Q : A → Type 0) (xs : List A) → ((x : A) → P x → Q x) → All P xs → All Q xs
All-map P Q [] f h = tt
All-map P Q (x ∷ xs) f h = (f x h.0, All-map P Q xs f h.1)

IsUnseen-All :
    (names : TextSet) (vectors : List VectorColumnSchema)
    → IsUnseen names vectors
    → All (λ w. Map.contains_key w.name names ≡ false) vectors
IsUnseen-All names [] h = tt
IsUnseen-All names (v ∷ vectors) h = (
  h.0,
  All-map _ _ vectors (λ w unseen. (not_inserted w.name v.name names unseen).0)
      (IsUnseen-All (Map.insert v.name tt names) vectors h.1),
)

IsUnseen-AreDistinct :
    (names : TextSet) (vectors : List VectorColumnSchema)
    → IsUnseen names vectors
    → AreDistinct vectors
IsUnseen-AreDistinct names [] h = tt
IsUnseen-AreDistinct names (v ∷ vectors) h = (
  All-map _ _ vectors (λ w unseen. (not_inserted w.name v.name names unseen).1)
      (IsUnseen-All (Map.insert v.name tt names) vectors h.1),
  IsUnseen-AreDistinct (Map.insert v.name tt names) vectors h.1,
)

not-true : (b : Bool) → not b ≡ true → b ≡ false
not-true true h = cc
not-true false h = refl

different : (s t : Text) → not (text_eq s t) ≡ true → s ≢ t
different s t h = ground (arith, text_eq_iff s t)

identifier-same :
    (name context : Text) → Gives (λ t. t ≡ name) (validate_schema_identifier name context)
unfolding validate_schema_identifier
identifier-same name context =
    Gives-check (λ t. t ≡ name) (not (is_empty (trim name))) _ _
      λ _.
        Gives-check (λ t. t ≡ name) (text_eq (trim name) name) _ _
          λ same.
            Gives-check (λ t. t ≡ name) (not (starts_with (trim name) (codes "__"))) _ _
              λ _.
                Gives-check (λ t. t ≡ name) (is_graphql_safe_identifier (trim name)) _ _
                  λ _. (text_eq_iff (trim name) name).0 same

overlap-different :
    (column identity kind column_kind : Text)
    → Gives (λ _. column ≢ identity) (reject_identity_overlap column identity kind column_kind)
unfolding reject_identity_overlap
overlap-different column identity kind column_kind =
    Gives-ensure (not (text_eq column identity)) _ (different column identity)

zero-not : (n : ℕ) → not (n == 0) ≡ true → n ≢ 0
zero-not n h = ground arith

empty-not : (xs : List Text) → not (is_empty xs) ≡ true → xs ≢ []
empty-not xs h = ground arith

added :
    (primary tenant name : Text) (v : VectorColumnSchema) (vectors : List VectorColumnSchema)
    (names : TextSet)
    → name ≡ v.name
    → Map.contains_key name names ≡ false
    → name ≢ primary
    → name ≢ tenant
    → v.dimensions ≢ 0
    → v.source_columns ≢ []
    → All (IsSoundVector primary tenant) vectors × IsUnseen (Map.insert name tt names) vectors
    → All (IsSoundVector primary tenant) (v ∷ vectors) × IsUnseen names (v ∷ vectors)
added primary tenant name v vectors names named unseen not_primary not_tenant sized sourced
      (sound, others) =
    (
      ((rw (← named) not_primary, rw (← named) not_tenant, sized, sourced), sound),
      (rw (← named) unseen, rw (← named) others),
    )

vectors_sound :
    (primary tenant : Text) (scalars texts : TextSet) (vectors : List VectorColumnSchema)
    (names : TextSet)
    → Gives
        (λ _. All (IsSoundVector primary tenant) vectors × IsUnseen names vectors)
        (validate_vector_columns primary tenant scalars texts vectors names)
unfolding validate_vector_columns
vectors_sound primary tenant scalars texts [] names = (tt, tt)
vectors_sound primary tenant scalars texts (v ∷ vectors) names =
    let P : Unit → Type 0 =
      λ _. All (IsSoundVector primary tenant) (v ∷ vectors) × IsUnseen names (v ∷ vectors) in
    Gives-then P (λ t. t ≡ v.name) (validate_schema_identifier v.name _) _
      (identifier-same v.name _)
      λ name named. Gives-check P (not (Map.contains_key name names)) _ _ λ unseen.
        Gives-bind P (reject_reserved_result_column name) _ λ _ _.
          Gives-then P (λ _. name ≢ primary) (reject_identity_overlap name primary _ _) _
            (overlap-different name primary _ _)
            λ _ not_primary.
              Gives-then P (λ _. name ≢ tenant) (reject_identity_overlap name tenant _ _) _
                (overlap-different name tenant _ _)
                λ _ not_tenant. Gives-check P (not (Map.contains_key name scalars)) _ _ λ _.
                  Gives-check P (not (Map.contains_key name texts)) _ _ λ _.
                    Gives-check P (not (v.dimensions == 0)) _ _ λ sized.
                      Gives-check P (not (is_empty v.source_columns)) _ _ λ sourced.
                        Gives-bind P (validate_sources name _ v.source_columns Map.empty) _ λ _ _.
                          Gives-map _ P
                            (validate_vector_columns primary tenant scalars texts vectors
                              (Map.insert name tt names))
                            (λ _ rest.
                              added primary tenant name v vectors names named (not-true _ unseen)
                                not_primary not_tenant (zero-not _ sized) (empty-not _ sourced)
                                rest)
                            (vectors_sound primary tenant scalars texts vectors
                              (Map.insert name tt names))

validate-IsSound : (schema : TableSchema) → Gives (λ _. IsSound schema) (validate_schema schema)
unfolding validate_schema
validate-IsSound schema =
    let P : Unit → Type 0 = λ _. IsSound schema in
    Gives-bind P (validate_schema_identifier schema.name _) _ λ _ _.
      Gives-then P (λ t. t ≡ schema.primary_id_column)
        (validate_schema_identifier schema.primary_id_column _) _
        (identifier-same schema.primary_id_column _)
        λ primary is_primary.
          Gives-then P (λ t. t ≡ schema.tenant_id_column)
            (validate_schema_identifier schema.tenant_id_column _) _
            (identifier-same schema.tenant_id_column _)
            λ tenant is_tenant. Gives-check P (not (text_eq primary tenant)) _ _ λ distinct.
              Gives-bind P (validate_column_set schema.scalar_columns _) _ λ scalars _.
                Gives-bind P (validate_scalars primary tenant scalars) _ λ _ _.
                  Gives-bind P (validate_column_set schema.text_indexed_columns _) _ λ texts _.
                    Gives-bind P (validate_texts primary tenant scalars texts) _ λ _ _.
                      Gives-map _ P
                        (validate_vector_columns primary tenant scalars texts schema.vector_columns
                          Map.empty)
                        (λ _ (sound, unseen). (
                          rw (← is_primary, ← is_tenant) (different primary tenant distinct),
                          rw (← is_primary, ← is_tenant) sound,
                          IsUnseen-AreDistinct Map.empty schema.vector_columns unseen,
                        ))
                        (vectors_sound primary tenant scalars texts schema.vector_columns Map.empty)

-- A schema that `validate` lets through has an id column that is not its tenant column, and vector
-- columns with different names, each with dimensions and sources and none of them an identity
-- column.
pub validate_schema-IsSound :
    (schema : TableSchema) → validate_schema schema ≡ ok tt → IsSound schema
validate_schema-IsSound schema valid =
    Gives-ok (λ _. IsSound schema) (validate_schema schema) tt (validate-IsSound schema) valid
