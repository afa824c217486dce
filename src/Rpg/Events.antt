-- ===== src/Rpg/Events.antt =====
-- demo-rpg/include/event_bus.h and events.h. A subscriber is what it does to the state that its
-- lambda captures.
mod Tests
use c_book.Prelude.{ℕ, ◌≡◌, refl, List, [], ◌∷◌, ◌++◌, length}

pub record ItemPickedEvent : Type 0 where
  pub player_name : List ℕ
  pub item_name : List ℕ

pub record PlayerMovedEvent : Type 0 where
  pub player_name : List ℕ
  pub from_id : List ℕ
  pub to_id : List ℕ

abbrev pub EventBus : Type 0 → Type 0 → Type 0
EventBus E S = List (E → S → S)

unfoldable pub subscribe : {E S : Type 0} → (E → S → S) → EventBus E S → EventBus E S
subscribe handler bus = bus ++ handler ∷ []

unfoldable pub publish : {E S : Type 0} → E → EventBus E S → S → S
publish event [] s = s
publish event (h ∷ handlers) s = publish event handlers (h event s)

unfoldable pub subscriber_count : {E S : Type 0} → EventBus E S → ℕ
subscriber_count bus = length bus

-- A subscriber is called once for each event, behind all that subscribed before it.
pub publish-subscribe :
    {E S : Type 0} (event : E) (handler : E → S → S) (bus : EventBus E S) (s : S)
    → publish event (subscribe handler bus) s ≡ handler event (publish event bus s)
unfolding publish subscribe
publish-subscribe event handler [] s = refl
publish-subscribe event handler (h ∷ bus) s = publish-subscribe event handler bus (h event s)
