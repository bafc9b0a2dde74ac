-- ===== src/Poller/Hosts/Authorized.antt =====
-- `ResMgrDB.query_host_and_app_details` of resmgr/resmgr/dbutils.py for all hosts.
use pf9_du.Prelude.{List, [], ◌∷◌}
use pf9_du.Prelude.Assoc.{Assoc}
use pf9_du.Result.{Result, ok, ◌>>=◌}
use pf9_du.Db.{Db, Host}
use pf9_du.RolesMgr.{HostDetails}
use pf9_du.RolesMgr.Details.{Render, query_host_and_app_details}

-- An entry of `query_host_and_app_details` for all hosts.
pub record Authorized : Type 0 where
  pub details : HostDetails
  pub row : Host

authorized_of : Render → Db → List Host → Result (Assoc Authorized)
authorized_of render db [] = ok []
authorized_of render db (row ∷ rows) = do
  details ← query_host_and_app_details render row.id db
  rest ← authorized_of render db rows
  ok ((row.id, record { details = details; row = row }) ∷ rest)

unfoldable pub authorized_hosts : Render → Db → Result (Assoc Authorized)
unfolding authorized_of
authorized_hosts render db = authorized_of render db db.hosts
