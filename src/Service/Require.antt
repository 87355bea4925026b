-- ===== src/Service/Require.antt =====
-- The row that each method of the service starts from.
use sansbox_sql.Base.{String, some, none, ◌≡◌}
use sansbox_sql.Errors.{ok, err, key_error}
use sansbox_sql.Session.{Session}
use sansbox_sql.Store.{get}
use sansbox_sql.Service.{World, require}

pub require_ok :
    {E : Type 0} (sid : String) (w : World E) (r : Session)
    → get sid w.table ≡ some r
    → require sid w ≡ (ok r, w)
unfolding require
require_ok sid w r h = rw (h, require)

pub require_err :
    {E : Type 0} (sid : String) (w : World E)
    → get sid w.table ≡ none
    → require sid w ≡ (err (key_error sid), w)
unfolding require
require_err sid w h = rw (h, require)
