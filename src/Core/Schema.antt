-- ===== src/Core/Schema.antt =====
-- crates/tracedb-core/src/lib.rs: `TableSchema::validate` and its checks.
use tracedb.Base.{
  ℕ, Text, codes, text_eq, trim, starts_with, Bool, false, not, ◌&&◌, ◌||◌, List, [], ◌∷◌, ◌++◌,
  ◌==◌, leb, is_empty, any, all, Result, ok, ensure, ◌>>=◌, ◌>>◌,
}
use tracedb.Base.Map
use tracedb.Base.Map.{TextSet}
use tracedb.Core.Error.{TraceDbError, invalid_schema}
use tracedb.Core.Types.{TableSchema, VectorColumnSchema}

-- `set.contains(..)`.
unfoldable pub one_of : Text → List Text → Bool
one_of name names = any (λ given. text_eq given name) names

abbrev pub is_ascii_alphabetic : ℕ → Bool
is_ascii_alphabetic c = (leb 97 c && leb c 122) || (leb 65 c && leb c 90)

abbrev pub is_ascii_alphanumeric : ℕ → Bool
is_ascii_alphanumeric c = is_ascii_alphabetic c || (leb 48 c && leb c 57)

-- The underscore is code point 95.
unfoldable pub is_graphql_safe_identifier : Text → Bool
is_graphql_safe_identifier [] = false
is_graphql_safe_identifier (first ∷ chars) =
    (first == 95 || is_ascii_alphabetic first)
    && all (λ ch. ch == 95 || is_ascii_alphanumeric ch) chars

unfoldable pub validate_schema_identifier : Text → Text → Result TraceDbError Text
validate_schema_identifier name context = do
  let trimmed = trim name
  ensure (not (is_empty trimmed)) (invalid_schema (context ++ codes " cannot be empty"))
  ensure (text_eq trimmed name) (
      invalid_schema (
        context
        ++ (codes " " ++ (trimmed ++ codes " must not have leading or trailing whitespace"))))
  ensure (not (starts_with trimmed (codes "__"))) (
      invalid_schema
        (context ++ (codes " " ++ (trimmed ++ codes " is reserved for GraphQL introspection"))))
  ensure (is_graphql_safe_identifier trimmed) (
      invalid_schema
        (context ++ (codes " " ++ (trimmed ++ codes " is not a GraphQL-safe identifier"))))
  ok trimmed

unfoldable pub reject_reserved_result_column : Text → Result TraceDbError Unit
reject_reserved_result_column column =
    ensure
      (not (
        one_of column
          (codes "record_id" ∷ codes "version_id" ∷ codes "fields" ∷ codes "score" ∷ [])))
      (invalid_schema
        (codes "column " ++ (column ++ codes " is reserved for TraceDB result metadata")))

unfoldable pub both : Text → Text → Text → TraceDbError
both column first second = invalid_schema (
    codes "column "
    ++ (column ++ (codes " cannot be both " ++ (first ++ (codes " and " ++ second)))))

unfoldable pub reject_identity_overlap : Text → Text → Text → Text → Result TraceDbError Unit
unfolding both
reject_identity_overlap column identity_column identity_kind column_kind =
    ensure (not (text_eq column identity_column)) (both column identity_kind column_kind)

-- The loop of `validate_column_set`, which has seen the columns `seen`.
unfoldable pub validate_columns : Text → List Text → TextSet → Result TraceDbError TextSet
validate_columns kind [] seen = ok seen
validate_columns kind (given ∷ columns) seen = do
  column ← validate_schema_identifier given kind
  reject_reserved_result_column column
  ensure (not (Map.contains_key column seen))
      (invalid_schema (codes "duplicate " ++ (kind ++ (codes " " ++ column))))
  validate_columns kind columns (Map.insert column tt seen)

unfoldable pub validate_column_set : List Text → Text → Result TraceDbError TextSet
validate_column_set columns kind = validate_columns kind columns Map.empty

-- The loop over the scalar columns.
unfoldable pub validate_scalars : Text → Text → TextSet → Result TraceDbError Unit
validate_scalars primary tenant [] = ok tt
validate_scalars primary tenant ((column, _) ∷ columns) = do
  reject_identity_overlap column primary (codes "primary id") (codes "scalar")
  reject_identity_overlap column tenant (codes "tenant id") (codes "scalar")
  validate_scalars primary tenant columns

-- The loop over the text indexed columns.
unfoldable pub validate_texts : Text → Text → TextSet → TextSet → Result TraceDbError Unit
unfolding both
validate_texts primary tenant scalars [] = ok tt
validate_texts primary tenant scalars ((column, _) ∷ columns) = do
  reject_identity_overlap column primary (codes "primary id") (codes "text indexed")
  reject_identity_overlap column tenant (codes "tenant id") (codes "text indexed")
  ensure (not (Map.contains_key column scalars))
      (both column (codes "scalar") (codes "text indexed"))
  validate_texts primary tenant scalars columns

unfoldable pub declared_source_columns : Text → Text → TextSet → TextSet → TextSet
declared_source_columns primary tenant scalars texts =
    Map.extend (Map.extend (Map.insert tenant tt (Map.insert primary tt Map.empty)) scalars) texts

-- The loop over the source columns of one vector column.
unfoldable pub validate_sources : Text → TextSet → List Text → TextSet → Result TraceDbError Unit
validate_sources vector_name declared [] seen = ok tt
validate_sources vector_name declared (given ∷ sources) seen = do
  source ← validate_schema_identifier given (codes "vector source column")
  ensure (not (Map.contains_key source seen)) (
      invalid_schema
        (codes "duplicate vector column " ++ (vector_name ++ (codes " source column " ++ source))))
  ensure (Map.contains_key source declared) (
      invalid_schema (
        codes "vector column "
        ++ (vector_name ++ (codes " source column " ++ (source ++ codes " is not declared")))))
  validate_sources vector_name declared sources (Map.insert source tt seen)

-- The loop over the vector columns, which has seen the names `names`.
unfoldable pub validate_vector_columns :
    Text → Text → TextSet → TextSet → List VectorColumnSchema → TextSet → Result TraceDbError Unit
unfolding both
validate_vector_columns primary tenant scalars texts [] names = ok tt
validate_vector_columns primary tenant scalars texts (vector ∷ vectors) names = do
  name ← validate_schema_identifier vector.name (codes "vector column name")
  ensure (not (Map.contains_key name names))
      (invalid_schema (codes "duplicate vector column " ++ name))
  reject_reserved_result_column name
  reject_identity_overlap name primary (codes "primary id") (codes "vector")
  reject_identity_overlap name tenant (codes "tenant id") (codes "vector")
  ensure (not (Map.contains_key name scalars)) (both name (codes "scalar") (codes "vector"))
  ensure (not (Map.contains_key name texts)) (both name (codes "text indexed") (codes "vector"))
  ensure (not (vector.dimensions == 0))
      (invalid_schema (codes "vector column " ++ (name ++ codes " must have dimensions")))
  ensure (not (is_empty vector.source_columns))
      (invalid_schema (codes "vector column " ++ (name ++ codes " must declare source columns")))
  validate_sources name (declared_source_columns primary tenant scalars texts) vector.source_columns
      Map.empty
  validate_vector_columns primary tenant scalars texts vectors (Map.insert name tt names)

-- `TableSchema::validate`.
unfoldable pub validate_schema : TableSchema → Result TraceDbError Unit
validate_schema schema = do
  validate_schema_identifier schema.name (codes "table name")
  primary ← validate_schema_identifier schema.primary_id_column (codes "primary id column")
  tenant ← validate_schema_identifier schema.tenant_id_column (codes "tenant id column")
  ensure (not (text_eq primary tenant))
      (invalid_schema (codes "primary id column and tenant id column must be distinct"))
  scalars ← validate_column_set schema.scalar_columns (codes "scalar column")
  validate_scalars primary tenant scalars
  texts ← validate_column_set schema.text_indexed_columns (codes "text indexed column")
  validate_texts primary tenant scalars texts
  validate_vector_columns primary tenant scalars texts schema.vector_columns Map.empty
