-- ===== src/Rpg/Events/Tests.antt =====
-- An event bus whose subscribers write into a log.
use c_book.Prelude.{ℕ, ◌≡◌, refl, List, [], ◌∷◌, codes}
use c_book.Rpg.Events.{PlayerMovedEvent, subscribe, publish}

abbrev moved_west : PlayerMovedEvent
moved_west = record { player_name = codes "hero"; from_id = codes "glade"; to_id = codes "village" }

abbrev log_target : PlayerMovedEvent → List (List ℕ) → List (List ℕ)
log_target e log = e.to_id ∷ log

abbrev log_source : PlayerMovedEvent → List (List ℕ) → List (List ℕ)
log_source e log = e.from_id ∷ log

in_order :
    publish moved_west (subscribe log_source (subscribe log_target [])) []
    ≡ codes "glade" ∷ codes "village" ∷ []
unfolding publish subscribe
in_order = refl
