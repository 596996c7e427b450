-- ===== src/Catalog/Tests.antt =====
-- Runs of the catalog on a database, a branch of it and a branch of none.
use tracedb.Base.{codes, none, [], ◌∷◌, List}
use tracedb.Catalog.Entries.{
  CatalogCall, creating_database, creating_branch, catalog_after, empty_catalog,
}
use tracedb.Catalog.Invariant.{IsCatalog, catalog_after-IsCatalog}

abbrev calls : List CatalogCall
calls =
    creating_database (codes "o") (codes "p") (codes "n") (codes "r")
    ∷ creating_branch (codes "db_n") (codes "main") none
    ∷ creating_branch (codes "db_x") (codes "main") none
    ∷ []

catalog_after-IsCatalog_example : IsCatalog (catalog_after calls empty_catalog)
catalog_after-IsCatalog_example = catalog_after-IsCatalog calls
