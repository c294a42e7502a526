-- ===== src/Events/Delivery.antt =====
-- src/internal/events/bus.go: who receives an event, and that a slow receiver never holds one up.
use open_mos.Prelude.{
  ◌-◌, false, ◌≡◌, refl, ◌≤◌, ◌<◌, ◌⊎◌, List, [], ◌∷◌, ◌++◌, map, none, some, length, ltb,
  if◌then◌else◌, arith, Bool-cases, Option-cases, inl, inr, ◌+◌, if_holds, All,
}
use open_mos.Text.{Text, same}
use open_mos.Text.Order.{same_iff, same_refl}
use open_mos.Table.{Table, lookup, put}
use open_mos.Table.Laws.{lookup-put}
use open_mos.Events.{Event, Channel, EventBus, channels_of, send, publish, or_nil}

sent_to :
    (type key : Text) (event : Event) (chs : List Channel) (t : Table (List Channel))
    → lookup key t ≡ some chs
    → or_nil (lookup type (put key (map (send event) chs) t)) ≡ (
        if same key type then map (send event) (or_nil (lookup type t)) else or_nil (lookup type t))
sent_to type key event chs t h = elim (Bool-cases (same key type)) [
  | inl q ↦ rw (lookup-put key type (map (send event) chs) t, q, ← (same_iff key type).0 q, h) refl
  | inr q ↦ rw (lookup-put key type (map (send event) chs) t, q) refl
]

sent_to_none :
    (type key : Text) (event : Event) (t : Table (List Channel))
    → lookup key t ≡ none
    → or_nil (lookup type t) ≡ (
        if same key type then map (send event) (or_nil (lookup type t)) else or_nil (lookup type t))
sent_to_none type key event t h = elim (Bool-cases (same key type)) [
  | inl q ↦ rw (q, ← (same_iff key type).0 q, h) refl
  | inr q ↦ rw q refl
]

pub channels_of-publish :
    (type : Text) (event : Event) (bus : EventBus)
    → channels_of type (publish event bus) ≡ (
        if same event.event_type type
        then map (send event) (channels_of type bus)
        else channels_of type bus)
unfolding publish
channels_of-publish type event bus = elim (Option-cases (lookup event.event_type bus.subscribers)) [
  | inl q ↦ rw (q, publish) (sent_to_none type event.event_type event bus.subscribers q)
  | inr (chs, q) ↦ rw (q, publish) (sent_to type event.event_type event chs bus.subscribers q)
]

-- Channel by channel: a receiver that is blocked on it is handed the event, else it is at the end of a
-- buffer that has room, and a channel with neither is as it was.
abbrev pub IsOffered : Event → Channel → Channel → Type 0
IsOffered event c d =
    ((0 < c.waiting) × (d ≡ record c { waiting = c.waiting - 1; taken = c.taken ++ event ∷ [] }))
    ⊎ (((c.waiting ≡ 0)
          × (length c.buffered < c.capacity)
          × (d ≡ record c { buffered = c.buffered ++ event ∷ [] }))
        ⊎ ((c.waiting ≡ 0) × (c.capacity ≤ length c.buffered) × (d ≡ c)))

abbrev pub AreOffered : Event → List Channel → List Channel → Type 0
AreOffered event [] [] = Unit
AreOffered event [] (d ∷ ds) = ⊥
AreOffered event (c ∷ cs) [] = ⊥
AreOffered event (c ∷ cs) (d ∷ ds) = IsOffered event c d × AreOffered event cs ds

send-IsOffered : (event : Event) (c : Channel) → IsOffered event c (send event c)
unfolding send
send-IsOffered event c = elim (Bool-cases (ltb 0 c.waiting)) [
  | inl w ↦ rw w (inl (ground arith, refl))
  | inr w ↦ elim (Bool-cases (ltb (length c.buffered) c.capacity)) [
    | inl q ↦ rw (w, q) (inr (inl (ground arith, ground arith, refl)))
    | inr q ↦ rw (w, q) (inr (inr (ground arith, ground arith, refl)))
  ]
]

map-send-AreOffered :
    (event : Event) (chs : List Channel) → AreOffered event chs (map (send event) chs)
map-send-AreOffered event [] = tt
map-send-AreOffered event (c ∷ cs) = (send-IsOffered event c, map-send-AreOffered event cs)

-- Publish offers the event to every channel that is subscribed to its type: a receiver that is blocked on
-- it is handed the event, else it goes to the end of a buffer that has room, and is dropped where there is
-- none. The channels of the other types are as they were.
pub publish-AreOffered :
    (event : Event) (bus : EventBus)
    → AreOffered event
        (channels_of event.event_type bus)
        (channels_of event.event_type (publish event bus))
      × ((type : Text)
          → same event.event_type type ≡ false
          → channels_of type (publish event bus) ≡ channels_of type bus)
publish-AreOffered event bus = (
  rw (channels_of-publish event.event_type event bus, same_refl event.event_type)
      (map-send-AreOffered event (channels_of event.event_type bus)),
  λ type d. rw (channels_of-publish type event bus, d) refl,
)

-- A channel that holds no more than its capacity.
abbrev pub IsWithin : Channel → Type 0
IsWithin ch = length ch.buffered ≤ ch.capacity

length-snoc : (es : List Event) (e : Event) → length (es ++ e ∷ []) ≡ length es + 1
length-snoc [] e = omega arith
length-snoc (x ∷ es) e = omega (arith, length-snoc es e)

send-IsWithin : (event : Event) (ch : Channel) → IsWithin ch → IsWithin (send event ch)
unfolding send
send-IsWithin event ch h =
    if_holds IsWithin (ltb 0 ch.waiting) _ _ (λ _. h)
      (λ _.
        if_holds IsWithin (ltb (length ch.buffered) ch.capacity) _ _
          (λ q. ground (arith, length-snoc ch.buffered event)) (λ _. h))

map-send-IsWithin :
    (event : Event) (chs : List Channel) → All IsWithin chs → All IsWithin (map (send event) chs)
map-send-IsWithin event [] h = tt
map-send-IsWithin event (ch ∷ chs) h = (send-IsWithin event ch h.0, map-send-IsWithin event chs h.1)

-- Publish never overfills a channel: where every channel of a type is within its capacity, it still is
-- after an event of any type.
pub publish-IsWithin :
    (type : Text) (event : Event) (bus : EventBus)
    → All IsWithin (channels_of type bus)
    → All IsWithin (channels_of type (publish event bus))
publish-IsWithin type event bus h = rw (channels_of-publish type event bus) (
    if_holds (All IsWithin) (same event.event_type type) _ _
      (λ _. map-send-IsWithin event (channels_of type bus) h) (λ _. h))
