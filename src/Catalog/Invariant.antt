-- ===== src/Catalog/Invariant.antt =====
-- crates/tracedb-catalog/src/lib.rs: the entries of any catalog that calls have built.
use tracedb.Base.{
  Text, text_eq_iff, true, Option, Bool-cases, inl, inr, some, List, [], ◌∷◌, ◌≡◌, arith,
}
use tracedb.Base.Map
use tracedb.Catalog.Entries.{
  Catalog, DatabaseCatalogEntry, BranchCatalogEntry, CatalogCall, empty_catalog, create_database,
  create_branch, branch, database_entry, branch_entry, catalog_after, creating_database,
  creating_branch,
}

-- An entry stands under its own id, and the database of a branch is there.
pub record IsCatalog (c : Catalog) : Type 0 where
  pub own_database :
      (k : Text) (e : DatabaseCatalogEntry) → Map.get k c.databases ≡ some e → e.database_id ≡ k
  pub own_branch : (k : Text) (e : BranchCatalogEntry) → branch k c ≡ some e → e.branch_id ≡ k
  pub has_database :
      (k : Text) (e : BranchCatalogEntry)
      → branch k c ≡ some e
      → Map.contains_key e.database_id c.databases ≡ true

create_database-IsCatalog :
    (org_id project_id name region : Text) (c : Catalog)
    → IsCatalog c
    → IsCatalog (create_database org_id project_id name region c).1
unfolding create_database branch
create_database-IsCatalog org_id project_id name region c h =
    let entry = database_entry org_id project_id name region in
    record {
      own_database = λ k e found. ground (
        arith,
        Map.get-insert k entry.database_id entry c.databases,
        text_eq_iff k entry.database_id,
        h.own_database k e,
      );
      own_branch = h.own_branch;
      has_database = λ k e found. ground (
        arith,
        Map.get-insert e.database_id entry.database_id entry c.databases,
        h.has_database k e found,
      );
    }

create_branch-IsCatalog :
    (database_id branch_name : Text) (parent_branch_id : Option Text) (c : Catalog)
    → IsCatalog c
    → IsCatalog (create_branch database_id branch_name parent_branch_id c).1
unfolding create_branch branch
create_branch-IsCatalog database_id branch_name parent_branch_id c h =
    let entry = branch_entry database_id branch_name parent_branch_id in
    elim (Bool-cases (Map.contains_key database_id c.databases)) [
      | inr unknown ↦ rw (unknown, create_branch) h
      | inl known ↦
          rw (known, create_branch)
            (record {
              own_database = h.own_database;
              own_branch = λ k e found. ground (
                arith,
                Map.get-insert k entry.branch_id entry c.branches,
                text_eq_iff k entry.branch_id,
                h.own_branch k e,
              );
              has_database = λ k e found.
                  ground
                    (arith, Map.get-insert k entry.branch_id entry c.branches, h.has_database k e);
            })
    ]

catalog_after-keeps :
    (calls : List CatalogCall) (c : Catalog) → IsCatalog c → IsCatalog (catalog_after calls c)
unfolding catalog_after
catalog_after-keeps [] c h = h
catalog_after-keeps (creating_database org_id project_id name region ∷ calls) c h =
    catalog_after-keeps calls _ (create_database-IsCatalog org_id project_id name region c h)
catalog_after-keeps (creating_branch database_id branch_name parent_branch_id ∷ calls) c h =
    catalog_after-keeps calls _
      (create_branch-IsCatalog database_id branch_name parent_branch_id c h)

-- After any calls on an empty catalog, every database and every branch stands under its own id, and
-- the database of every branch is in the catalog.
pub catalog_after-IsCatalog :
    (calls : List CatalogCall) → IsCatalog (catalog_after calls empty_catalog)
unfolding branch Map.get
catalog_after-IsCatalog calls = catalog_after-keeps calls empty_catalog (record {
  own_database = λ k e found. cc;
  own_branch = λ k e found. cc;
  has_database = λ k e found. cc;
})
