-- ===== src/Channel/Separate.antt =====
-- src/internal/server/channel.go: the channels are kept apart.
use open_mos.Prelude.{◌≡◌, refl, true, Option, none, some, ◌∙◌, sym, ◌⊎◌, inl, inr}
use open_mos.Text.{Text, same}
use open_mos.Text.Order.{same_iff}
use open_mos.Channel.{
  MosMessage, MessageFamily, classify_message, channel_accepts, wanted_channel, is_known_channel,
  family_profile0, family_unknown, family_running_order, family_object, family_search, channel_ro,
  channel_mom, channel_aux,
}

-- A message that two channels accept is one of Profile 0 or one that is not classified, or the two
-- channels are the same.
pub channel_accepts_apart :
    (c d : Text) (m : MosMessage)
    → channel_accepts c (classify_message m) ≡ true
    → channel_accepts d (classify_message m) ≡ true
    → (c ≡ d) ⊎ (wanted_channel (classify_message m) ≡ none)
unfolding channel_accepts
channel_accepts_apart c d m h k = go (wanted_channel (classify_message m)) h k
  where
    go :
        (o : Option Text)
        → (elim o [ none ↦ true | some want ↦ same c want ]) ≡ true
        → (elim o [ none ↦ true | some want ↦ same d want ]) ≡ true
        → (c ≡ d) ⊎ (o ≡ none)
    go none p q = inr refl
    go (some w) p q = inl ((same_iff c w).0 p ∙ sym ((same_iff d w).0 q))

-- Every message is accepted on one of the channels that are known.
pub channel_accepts_known :
    (m : MosMessage)
    → (c : Text) × (is_known_channel c ≡ true) × (channel_accepts c (classify_message m) ≡ true)
unfolding channel_accepts is_known_channel same
channel_accepts_known m = go (classify_message m)
  where
    go :
        (f : MessageFamily)
        → (c : Text) × (is_known_channel c ≡ true) × (channel_accepts c f ≡ true)
    go family_profile0 = (channel_ro, refl, refl)
    go family_running_order = (channel_ro, refl, refl)
    go family_object = (channel_mom, refl, refl)
    go family_search = (channel_aux, refl, refl)
    go family_unknown = (channel_ro, refl, refl)
