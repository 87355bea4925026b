-- ===== src/Store/Listing.antt =====
-- `list_all`
use sansbox_sql.Base.{Bool, ◌≡◌}
use sansbox_sql.Session.{Session}
use sansbox_sql.Sql.{rowcount}
use sansbox_sql.Sql.Order.{Descending, order-Descending, rowcount-order}
use sansbox_sql.Store.{Table, list_all}

-- `list_all` gives the stored rows and no others, each as often as it is stored, the later created
-- ones first.
pub list_all-Sorted :
    (t : Table)
    → Descending (λ (r : Session). r.created_at) (list_all t)
      × ((p : Session → Bool) → rowcount p (list_all t) ≡ rowcount p t)
unfolding list_all
list_all-Sorted t =
    (order-Descending (λ r. r.created_at) t, λ p. rowcount-order (λ r. r.created_at) p t)
