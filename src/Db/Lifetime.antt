-- ===== src/Db/Lifetime.antt =====
-- The destructor of `db_server` and what it releases: the maps of all threads, and in each entry the
-- queries before the connection, since they are declared after it.
pub mod Opens
pub mod Released
pub mod Examples
use acppsrv.Prelude.{String, List, [], ◌∷◌}
use acppsrv.Sqlite.{Driver, Query}
use acppsrv.Sqlite.Handles.{destroy_connection, destroy_query}
use acppsrv.Db.{DbDef}

module _ (drv : Driver) where
  open drv use {S}

  unfoldable pub destroy_queries : List (String × Query drv) → S → S
  destroy_queries [] s = s
  destroy_queries ((name, q) ∷ qs) s = destroy_queries qs (destroy_query drv q s)

  -- db_server::db_def_t; what the connection's destructor logs is left out.
  unfoldable pub destroy_db : DbDef drv → S → S
  destroy_db db s = (destroy_connection drv db.db (destroy_queries db.queries s)).1

  unfoldable pub destroy_map : List (String × DbDef drv) → S → S
  destroy_map [] s = s
  destroy_map ((name, db) ∷ dbs) s = destroy_map dbs (destroy_db db s)

  unfoldable pub destroy_databases : List (List (String × DbDef drv)) → S → S
  destroy_databases [] s = s
  destroy_databases (dbs ∷ rest) s = destroy_databases rest (destroy_map dbs s)
