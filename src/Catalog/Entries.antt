-- ===== src/Catalog/Entries.antt =====
-- crates/tracedb-catalog/src/lib.rs: the catalog and the operations that change it. `load` and `save`
-- are files and serde_json.
use tracedb.Base.{Text, codes, Option, List, [], ◌∷◌, ◌++◌, if◌then◌else◌, Result, ok, err}
use tracedb.Base.Map
use tracedb.Base.Map.{Map}

pub data BranchState : Type 0 where
  active idle warming background_only suspended : BranchState

pub record DatabaseCatalogEntry : Type 0 where
  pub org_id : Text
  pub project_id : Text
  pub database_id : Text
  pub name : Text
  pub region : Text
  pub endpoint : Text

pub record BranchCatalogEntry : Type 0 where
  pub database_id : Text
  pub branch_id : Text
  pub parent_branch_id : Option Text
  pub state : BranchState
  pub endpoint : Text

pub record Catalog : Type 0 where
  pub databases : Map DatabaseCatalogEntry
  pub branches : Map BranchCatalogEntry

abbrev pub empty_catalog : Catalog
empty_catalog = record { databases = Map.empty; branches = Map.empty }

abbrev pub database_entry : Text → Text → Text → Text → DatabaseCatalogEntry
database_entry org_id project_id name region = record {
  org_id = org_id;
  project_id = project_id;
  database_id = codes "db_" ++ name;
  name = name;
  region = region;
  endpoint = codes "https://" ++ ((codes "db_" ++ name) ++ codes ".tracedb.local");
}

unfoldable pub create_database :
    Text → Text → Text → Text → Catalog → Result Text DatabaseCatalogEntry × Catalog
create_database org_id project_id name region c =
    let entry = database_entry org_id project_id name region in
    (ok entry, record c { databases = Map.insert entry.database_id entry c.databases })

abbrev pub branch_entry : Text → Text → Option Text → BranchCatalogEntry
branch_entry database_id branch_name parent_branch_id = record {
  database_id = database_id;
  branch_id = database_id ++ (codes ":" ++ branch_name);
  parent_branch_id = parent_branch_id;
  state = BranchState.active;
  endpoint = codes "https://" ++ (database_id ++ (codes ".tracedb.local/" ++ branch_name));
}

unfoldable pub create_branch :
    Text → Text → Option Text → Catalog → Result Text BranchCatalogEntry × Catalog
create_branch database_id branch_name parent_branch_id c =
    let entry = branch_entry database_id branch_name parent_branch_id in
    if Map.contains_key database_id c.databases
    then (ok entry, record c { branches = Map.insert entry.branch_id entry c.branches })
    else (err (codes "unknown database " ++ database_id), c)

unfoldable pub branch : Text → Catalog → Option BranchCatalogEntry
branch branch_id c = Map.get branch_id c.branches

-- A call that changes the catalog, and calls one after the other.
pub data CatalogCall : Type 0 where
  creating_database : Text → Text → Text → Text → CatalogCall
  creating_branch : Text → Text → Option Text → CatalogCall

unfoldable pub catalog_after : List CatalogCall → Catalog → Catalog
catalog_after [] c = c
catalog_after (creating_database org_id project_id name region ∷ calls) c =
    catalog_after calls (create_database org_id project_id name region c).1
catalog_after (creating_branch database_id branch_name parent_branch_id ∷ calls) c =
    catalog_after calls (create_branch database_id branch_name parent_branch_id c).1
