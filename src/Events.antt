-- ===== src/Events.antt =====
-- src/internal/events/bus.go: a publish-subscribe bus of channels. A channel is its buffer, the
-- number of receivers that are blocked on it, and what such receivers were handed; a receiver blocks, and
-- takes from the buffer, in steps of its own.
pub mod Delivery
use open_mos.Prelude.{
  ℕ, ◌-◌, List, [], ◌∷◌, ◌++◌, none, some, map, length, ltb, if◌then◌else◌, Option,
}
use open_mos.Text.{Text, text}
use open_mos.Table.{Table, lookup, put}

-- type EventType string, and its values
abbrev pub running_order_updated : Text
running_order_updated = text "ro.updated"

abbrev pub story_modified : Text
story_modified = text "story.modified"

abbrev pub item_changed : Text
item_changed = text "item.changed"

abbrev pub item_controlled : Text
item_controlled = text "item.controlled"

abbrev pub item_cued : Text
item_cued = text "item.cued"

abbrev pub story_received : Text
story_received = text "story.received"

abbrev pub object_created : Text
object_created = text "object.created"

abbrev pub object_updated : Text
object_updated = text "object.updated"

-- The payloads that are published: an identifier, or named values.
pub data Payload : Type 0 where
  identifier : Text → Payload
  named : Table Text → Payload

pub record Event : Type 0 where
  pub event_type : Text
  pub payload : Payload
  pub source : Text

pub record Channel : Type 0 where
  pub capacity : ℕ
  pub buffered : List Event
  pub waiting : ℕ
  pub taken : List Event

pub record EventBus : Type 0 where
  pub subscribers : Table (List Channel)

-- NewEventBus
abbrev pub new_event_bus : EventBus
new_event_bus = record { subscribers = [] }

abbrev pub or_nil : Option (List Channel) → List Channel
or_nil none = []
or_nil (some chs) = chs

-- A missing key of the map reads as the nil slice.
abbrev pub channels_of : Text → EventBus → List Channel
channels_of type bus = or_nil (lookup type bus.subscribers)

-- Subscribe; the channel is the last of its type.
unfoldable pub subscribe : Text → ℕ → EventBus → EventBus
subscribe type size bus = record {
  subscribers =
      put type
        (channels_of type bus
          ++ record { capacity = size; buffered = []; waiting = 0; taken = [] } ∷ [])
        bus.subscribers;
}

-- select { case ch <- event: default: }
unfoldable pub send : Event → Channel → Channel
send event ch =
    if ltb 0 ch.waiting
    then record ch { waiting = ch.waiting - 1; taken = ch.taken ++ event ∷ [] }
    else (if ltb (length ch.buffered) ch.capacity
        then record ch { buffered = ch.buffered ++ event ∷ [] }
        else ch)

-- Publish
unfoldable pub publish : Event → EventBus → EventBus
unfolding send
publish event bus = elim (lookup event.event_type bus.subscribers) [
  | none ↦ bus
  | some chs ↦ record { subscribers = put event.event_type (map (send event) chs) bus.subscribers }
]
