-- ===== src/GlobalLocks/Listing.antt =====
-- What the two listings show.
use mathlib.Core.List.{Perm}
use softos_sdd_orchestrator.Prelude.{ℕ, suc, ◌≡◌, refl, ◌∙◌, ap, List, [], ◌∷◌, arith}
use softos_sdd_orchestrator.Prelude.Text.{text_leb-total}
use softos_sdd_orchestrator.Prelude.Sort.{sort, insert_sorted, IsSorted, sort-perm, sort-IsSorted}
use softos_sdd_orchestrator.GlobalLocks.{LockEvent, Db, name_leb, id_leb, list_locks, list_events}
use softos_sdd_orchestrator.GlobalLocks.WellFormed.{IsValid, IsNumbered}

sort-IsNumbered :
    (start last : ℕ) (events : List LockEvent)
    → IsNumbered start events last
    → sort id_leb events ≡ events
unfolding sort
sort-IsNumbered start last [] n = refl
sort-IsNumbered start last (e ∷ []) n = refl
sort-IsNumbered start last (e ∷ f ∷ es) n =
    ap (insert_sorted id_leb e) (sort-IsNumbered (suc start) last (f ∷ es) n.1) ∙ ground arith

-- `list_locks` returns the rows of the table, each once, in the order of their names; and in a
-- valid database `list_events` returns the events in the order in which they were recorded.
pub listings_faithful :
    (db : Db)
    → IsValid db
    → Perm (list_locks db) db.locks
      × IsSorted name_leb (list_locks db)
      × (list_events db ≡ db.events)
unfolding list_locks list_events
listings_faithful db v = (
  sort-perm name_leb db.locks,
  sort-IsSorted name_leb (λ a b. text_leb-total a.lock_name b.lock_name) db.locks,
  sort-IsNumbered 0 db.last_event_id db.events v.numbered,
)
