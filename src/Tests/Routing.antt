-- ===== src/Tests/Routing.antt =====
-- Channels of MOS 4.0, the scope of metadata, the listings and the bus.
use open_mos.Prelude.{false, ◌≡◌, refl, List, [], ◌∷◌, In, arith, ℕ, some}
use open_mos.Text.{before, Text, text, same}
use open_mos.Text.Order.{same_iff}
use open_mos.Model.{ExternalMetadata, Story, Item, zero_story, zero_item}
use open_mos.Table.Selected.{selected}
use open_mos.Table.Listing.{sort}
use open_mos.Table.{put, values, Table, lookup}
use open_mos.Table.Laws.{IsKeyed}
use open_mos.Repository.Stories
use open_mos.Repository.Items
use open_mos.Repository.Listing.{IsAscending, list_by_running_order_exact, list_by_story_ext}
use open_mos.Events.{Channel, Event, EventBus, identifier, item_cued, channels_of, publish, send}
use open_mos.Events.Delivery.{AreOffered, publish-AreOffered}

abbrev blocks : List ExternalMetadata
blocks =
    record { scope = text "PLAYLIST"; schema = text "s"; payload = text "p" }
    ∷ record { scope = text "STORY"; schema = text "s"; payload = text "q" }
    ∷ []

abbrev story_in : Text → Text → ℕ → Story
story_in ro id n = record zero_story { id = id; running_order_id = ro; order = n }

abbrev story_a : Story
story_a = story_in (text "R") (text "R/A") 2

abbrev story_b : Story
story_b = story_in (text "R") (text "R/B") 1

abbrev story_c : Story
story_c = story_in (text "R") (text "R/C") 2

abbrev story_x : Story
story_x = story_in (text "Q") (text "Q/X") 1

abbrev stories : Table Story
stories =
    (text "R/C", story_c)
    ∷ (text "Q/X", story_x)
    ∷ (text "R/A", story_a)
    ∷ (text "R/B", story_b)
    ∷ []

-- B has the least order; of A and C, which have the same, A has the lesser identifier.
in_sequence : Stories.list_by_running_order (text "R") stories ≡ story_b ∷ story_a ∷ story_c ∷ []
unfolding Stories.list_by_running_order selected sort values same before
in_sequence = refl

stories-IsKeyed : IsKeyed (λ (x : Story). x.id) stories
unfolding lookup same
stories-IsKeyed = (refl, refl, (refl, refl, (refl, refl, (refl, refl, tt))))

list_by_running_order_exact_example :
    IsAscending (Stories.list_by_running_order (text "R") stories)
    × ((x : Story)
        → In x (Stories.list_by_running_order (text "R") stories)
        → (lookup x.id stories ≡ some x) × (x.running_order_id ≡ text "R"))
    × ((x : Story)
        → lookup x.id stories ≡ some x
        → x.running_order_id ≡ text "R"
        → In x (Stories.list_by_running_order (text "R") stories))
list_by_running_order_exact_example = list_by_running_order_exact (text "R") stories stories-IsKeyed

abbrev item_at : Text → ℕ → Item
item_at id n = record zero_item { id = id; story_id = text "S"; order = n }

abbrev forth : Table Item
forth = (text "1", item_at (text "1") 1) ∷ (text "2", item_at (text "2") 2) ∷ []

abbrev back : Table Item
back = (text "2", item_at (text "2") 2) ∷ (text "1", item_at (text "1") 1) ∷ []

forth-back : (k : Text) → lookup k forth ≡ lookup k back
unfolding lookup
forth-back k = ground (arith, same_iff (text "1") k, same_iff (text "2") k)

list_by_story_ext_example :
    Items.list_by_story (text "S") forth ≡ Items.list_by_story (text "S") back
unfolding lookup same
list_by_story_ext_example =
    list_by_story_ext (text "S") forth back (refl, refl, (refl, refl, tt))
      (refl, refl, (refl, refl, tt)) forth-back

abbrev cued : Event
cued = record {
  event_type = item_cued;
  payload = identifier (text "I");
  source = text "mos_service";
}

abbrev channel_with : ℕ → List Event → ℕ → List Event → Channel
channel_with capacity buffered waiting taken = record {
  capacity = capacity;
  buffered = buffered;
  waiting = waiting;
  taken = taken;
}

abbrev bus : EventBus
bus = record {
  subscribers =
      (item_cued, channel_with 1 [] 0 [] ∷ channel_with 0 [] 0 [] ∷ channel_with 0 [] 1 [] ∷ [])
      ∷ [];
}

-- A channel that has room, one that is full, and an unbuffered one with a receiver.
full_or_not :
    channels_of item_cued (publish cued bus)
    ≡ channel_with 1 (cued ∷ []) 0 []
      ∷ channel_with 0 [] 0 []
      ∷ channel_with 0 [] 0 (cued ∷ [])
      ∷ []
unfolding publish send lookup same put
full_or_not = refl

publish-AreOffered_example :
    AreOffered cued (channels_of item_cued bus) (channels_of item_cued (publish cued bus))
    × ((type : Text)
        → same item_cued type ≡ false
        → channels_of type (publish cued bus) ≡ channels_of type bus)
publish-AreOffered_example = publish-AreOffered cued bus
