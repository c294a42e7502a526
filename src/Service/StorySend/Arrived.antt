-- ===== src/Service/StorySend/Arrived.antt =====
-- What a roStorySend brings (ProcessROStorySend of src/internal/service/control.go), field by field.
use open_mos.Prelude.{
  map, ℕ, suc, ◌≡◌, ◌≢◌, refl, sym, subst, ◌⊎◌, inl, inr, List, [], ◌∷◌, Option, none, some, false,
  Option-cases, if◌then◌else◌, All-In, All-of_In,
}
use open_mos.Cues.{Casing, body_cues}
use open_mos.Text.{Text, text, is_empty}
use open_mos.Outcome.{Result, ok, err}
use open_mos.Model.{Time, Story, StoryCue, RunningOrder, zero_story}
use open_mos.Table.{Table, lookup}
use open_mos.Table.Laws.{IsKeyed}
use open_mos.Repository.Stories
use open_mos.Repository.RunningOrders
use open_mos.Service.{MosService}
use open_mos.Service.Identity.{item_persistence_id}
use open_mos.Service.Timing.{Floats}
use open_mos.Service.Messages.{is_blank}
use open_mos.Service.Workflow.Stored.{item_ident, story_ident, get-none, get-some}
use open_mos.Service.StoryBodies.{body_infos, collect_cues, cues_from}
use open_mos.Service.StorySend.{process_ro_story_send, sent_story, merge_sent}
use open_mos.Service.StorySend.Received.{HoldsItem, received, story_key, process_ro_story_send_lem}
use open_mos.Service.StorySend.Carried.{IsCarried, carried-HasId, infos-IsCarried}
use open_mos.Wire.{ItemInfo}
use open_mos.Wire.StorySend.{RoStorySend, StoryParagraph, BodyCue}

-- The cues of a story are those that are read from the text of the body, with their positions.
abbrev pub AreCues : ℕ → List BodyCue → List StoryCue → Type 0
AreCues n [] [] = Unit
AreCues n [] (c ∷ cs) = ⊥
AreCues n (b ∷ bs) [] = ⊥
AreCues n (b ∷ bs) (c ∷ cs) =
    (c ≡ record {
      kind = b.kind;
      raw = b.raw;
      verb = b.verb;
      target = b.target;
      fields = b.fields;
      params = b.params;
      order = n;
      paragraph = b.paragraph;
    })
    × AreCues (suc n) bs cs

cues_from-AreCues : (n : ℕ) (bs : List BodyCue) → AreCues n bs (cues_from n bs)
unfolding cues_from
cues_from-AreCues n [] = tt
cues_from-AreCues n (b ∷ bs) = (refl, cues_from-AreCues (suc n) bs)

-- A field that the message leaves empty stays as it was.
abbrev pub IsKeptOr : Text → Text → Text → Type 0
IsKeptOr sent old new = ((sent ≡ []) × (new ≡ old)) ⊎ ((sent ≢ []) × (new ≡ sent))

-- The story that a roStorySend leaves where none was held, or one was.
abbrev pub IsSentStory : Time → RoStorySend → Option Story → Story → Type 0
IsSentStory now m none x = x ≡ record zero_story {
  id = story_key m;
  raw_id = m.story_id;
  running_order_id = m.ro_id;
  slug = m.story_slug;
  number = m.story_num;
  status = text "PENDING";
  cues = x.cues;
  created_at = now;
  updated_at = now;
}
IsSentStory now m (some old) x =
    IsKeptOr m.story_slug old.slug x.slug
    × IsKeptOr m.story_num old.number x.number
    × (x ≡ record old {
      raw_id = m.story_id;
      running_order_id = m.ro_id;
      slug = x.slug;
      number = x.number;
      cues = x.cues;
      updated_at = now;
    })

kept_or : (sent old : Text) → IsKeptOr sent old (if is_empty sent then old else sent)
unfolding is_empty
kept_or [] old = inl (refl, refl)
kept_or (c ∷ r) old = inr (λ e. absurd (cc e), refl)

-- What a roStorySend that is accepted makes of the state.
pub record HasArrived (casing : Casing) (now : Time) (m : RoStorySend) (s u : MosService)
    : Type 0 where
  pub story : Story
  pub held : lookup (story_key m) u.stories ≡ some story
  pub fields : IsSentStory now m (lookup (story_key m) s.stories) story
  pub cues :
      AreCues 0
        (body_cues casing.to_upper casing.equal_fold
          (map (λ (p : StoryParagraph). p.content) m.story_body.paragraphs))
        story.cues
  pub other_stories : (k : Text) → story_key m ≢ k → lookup k u.stories ≡ lookup k s.stories
  pub items_held :
      (id : Text)
      → IsCarried m.story_body id
      → HoldsItem (story_key m) u.items (item_persistence_id (story_key m) id)
  pub items_kept :
      (k : Text) → HoldsItem (story_key m) s.items k → HoldsItem (story_key m) u.items k
  pub other_items :
      (k : Text)
      → ((id : Text) → IsCarried m.story_body id → item_persistence_id (story_key m) id ≢ k)
      → lookup k u.items ≡ lookup k s.items
  pub same_running_orders : u.running_orders ≡ s.running_orders

received-IsSentStory :
    (casing : Casing) (now : Time) (m : RoStorySend) (t : Table Story)
    → IsSentStory now m
        (lookup (story_key m) t)
        (received casing now m (Stories.get (story_key m) t))
unfolding sent_story merge_sent
received-IsSentStory casing now m t = elim (Option-cases (lookup (story_key m) t)) [
  | inl q ↦ rw (get-none (story_key m) t q, q) refl
  | inr (old, q) ↦
      rw (get-some (story_key m) old t q, q)
        (kept_or m.story_slug old.slug, kept_or m.story_num old.number, refl)
]

received-cues :
    (casing : Casing) (now : Time) (m : RoStorySend) (o : Result Story)
    → (received casing now m o).cues ≡ collect_cues casing m.story_body
received-cues casing now m (err e) = refl
received-cues casing now m (ok old) = refl

module _ (casing : Casing) {Rate : Type 0} (floats : Floats Rate) (now : Time) where
  -- A roStorySend with identifiers, for a running order that is held, succeeds. The story is held under
  -- its key: a new one is PENDING and has the identifiers, slug and number of the message; one that was held
  -- takes them too, but keeps its slug or number where the message leaves that empty. Its cues are those of
  -- the body. Each item that the body carries is held for the story, no item that was held for it is
  -- lost, and no other item, no other story and no running order has changed. Stories and items are to
  -- stand under their identifiers.
  pub process_ro_story_send-stored :
      (m : RoStorySend) (r : RunningOrder) (s : MosService)
      → is_blank m.ro_id ≡ false
      → is_blank m.story_id ≡ false
      → RunningOrders.get m.ro_id s.running_orders ≡ ok r
      → IsKeyed story_ident s.stories
      → IsKeyed item_ident s.items
      → ((process_ro_story_send casing floats now m s).0 ≡ ok tt)
        × HasArrived casing now m s (process_ro_story_send casing floats now m s).1
  unfolding collect_cues body_infos
  process_ro_story_send-stored m r s b c g ks ki =
      let (e, h) = process_ro_story_send_lem casing floats now m r s b c g ks ki in
      let key = story_key m in
      let u = (process_ro_story_send casing floats now m s).1 in
      let x = received casing now m (Stories.get key s.stories) in
      (
        e,
        record {
          story = x;
          held = h.story_held;
          fields = received-IsSentStory casing now m s.stories;
          cues =
              subst
                (AreCues 0 (
                  body_cues casing.to_upper casing.equal_fold
                    (map (λ (p : StoryParagraph). p.content) m.story_body.paragraphs)))
                (sym (received-cues casing now m (Stories.get key s.stories)))
                (cues_from-AreCues 0 (
                  body_cues casing.to_upper casing.equal_fold
                    (map (λ (p : StoryParagraph). p.content) m.story_body.paragraphs)));
          other_stories = h.other_stories;
          items_held = λ id carried.
              let (i, k, d) = carried-HasId m.story_body m.story_body.ordered id carried in
              subst (λ j. HoldsItem key u.items (item_persistence_id key j)) d
                (All-In (λ (i : ItemInfo). HoldsItem key u.items (item_persistence_id key i.id)) i
                  (body_infos m.story_body) h.items_stored.held k);
          items_kept = h.items_stored.kept;
          other_items = λ k a. h.items_stored.untouched k (
              All-of_In (λ (i : ItemInfo). item_persistence_id key i.id ≢ k)
                (body_infos m.story_body)
                (λ i j. a i.id (infos-IsCarried m.story_body m.story_body.ordered i j)));
          same_running_orders = h.same_running_orders;
        },
      )
