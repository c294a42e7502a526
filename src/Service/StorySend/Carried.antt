-- ===== src/Service/StorySend/Carried.antt =====
-- The items that the body of a story carries (processStoryBody of src/internal/service/story.go).
use open_mos.Prelude.{
  ◌≡◌, refl, ap, sym, subst, ◌∙◌, ◌⊎◌, inl, inr, List, [], ◌∷◌, In, Option, none, some,
  Option-cases, if◌then◌else◌, In-append_cases, In-append_left, In-append_right,
}
use open_mos.Text.{Text, is_empty}
use open_mos.Outcome.{Result, ok, err}
use open_mos.Service.StoryBodies.{
  infos_of, paragraph_infos, ordered_infos, infos_or_legacy, info_of_fields,
}
use open_mos.Wire.{ItemInfo}
use open_mos.Wire.StorySend.{StoryBody, StoryItem, StoryItemFields, StoryParagraph, item_fields}

-- An item of a list in which a story names one by an itemID.
abbrev pub Names : List StoryItem → Text → Type 0
Names items id =
    (i : StoryItem) × (f : StoryItemFields) × In i items
    × (item_fields i ≡ some f)
    × (f.item_id ≡ id)

-- A body carries an item: in the order of its source where that can be read, and otherwise as one of its
-- own items or one of a paragraph's.
abbrev pub IsAmong : StoryBody → Result (List (Option ItemInfo)) → Text → Type 0
IsAmong body (ok elements) id = (i : ItemInfo) × In (some i) elements × (i.id ≡ id)
IsAmong body (err e) id =
    Names body.items id ⊎ (p : StoryParagraph) × In p body.paragraphs × Names p.items id

abbrev pub IsCarried : StoryBody → Text → Type 0
IsCarried body id = IsAmong body body.ordered id

abbrev pub HasId : List ItemInfo → Text → Type 0
HasId infos id = (i : ItemInfo) × In i infos × (i.id ≡ id)

ordered-HasId :
    (es : List (Option ItemInfo)) (i : ItemInfo) → In (some i) es → HasId (ordered_infos es) i.id
unfolding ordered_infos
ordered-HasId [] i h = elim h [ ]
ordered-HasId (none ∷ es) i (inl e) = absurd (cc e)
ordered-HasId (none ∷ es) i (inr h) = ordered-HasId es i h
ordered-HasId (some j ∷ es) i (inl e) =
    let q : j ≡ i = cc e in
    (
      record j { slug = if is_empty j.slug then j.abstract else j.slug },
      inl refl,
      ap (λ (x : ItemInfo). x.id) q,
    )
ordered-HasId (some j ∷ es) i (inr h) = let (x, k, e) = ordered-HasId es i h in (x, inr k, e)

ordered-IsAmong :
    (es : List (Option ItemInfo)) (x : ItemInfo)
    → In x (ordered_infos es)
    → (i : ItemInfo) × In (some i) es × (i.id ≡ x.id)
unfolding ordered_infos
ordered-IsAmong [] x h = elim h [ ]
ordered-IsAmong (none ∷ es) x h = let (i, k, e) = ordered-IsAmong es x h in (i, inr k, e)
ordered-IsAmong (some j ∷ es) x (inl q) = (j, inl refl, sym (ap (λ (y : ItemInfo). y.id) q))
ordered-IsAmong (some j ∷ es) x (inr h) = let (i, k, e) = ordered-IsAmong es x h in (i, inr k, e)

infos-HasId : (is' : List StoryItem) (id : Text) → Names is' id → HasId (infos_of is') id
unfolding infos_of
infos-HasId [] id (i, f, h, q, e) = elim h [ ]
infos-HasId (j ∷ js) id (i, f, inl p, q, e) = rw (← p, q) (info_of_fields f, inl refl, e)
infos-HasId (j ∷ js) id (i, f, inr h, q, e) =
    let (x, k, d) = infos-HasId js id (i, f, h, q, e) in
    elim (Option-cases (item_fields j)) [ inl n ↦ rw n (x, k, d) | inr (g, n) ↦ rw n (x, inr k, d) ]

infos-Names : (is' : List StoryItem) (x : ItemInfo) → In x (infos_of is') → Names is' x.id
unfolding infos_of
infos-Names [] x h = elim h [ ]
infos-Names (j ∷ js) x h = elim (Option-cases (item_fields j)) [
  | inl n ↦ let (i, f, k, q, e) = infos-Names js x (rw n at h) in (i, f, inr k, q, e)
  | inr (g, n) ↦ elim (rw n at h) [
    | inl p ↦ (j, g, inl refl, n, sym (ap (λ (y : ItemInfo). y.id) p))
    | inr r ↦ let (i, f, k, q, e) = infos-Names js x r in (i, f, inr k, q, e)
  ]
]

paragraphs-HasId :
    (ps : List StoryParagraph) (p : StoryParagraph) (id : Text)
    → In p ps
    → Names p.items id
    → HasId (paragraph_infos ps) id
unfolding paragraph_infos
paragraphs-HasId [] p id h n = elim h [ ]
paragraphs-HasId (q ∷ qs) p id (inl e) n =
    let (x, k, d) = infos-HasId q.items id (subst (λ (r : StoryParagraph). Names r.items id) e n) in
    (x, In-append_left x (infos_of q.items) (paragraph_infos qs) k, d)
paragraphs-HasId (q ∷ qs) p id (inr h) n =
    let (x, k, d) = paragraphs-HasId qs p id h n in
    (x, In-append_right x (infos_of q.items) (paragraph_infos qs) k, d)

paragraphs-Names :
    (ps : List StoryParagraph) (x : ItemInfo)
    → In x (paragraph_infos ps)
    → (p : StoryParagraph) × In p ps × Names p.items x.id
unfolding paragraph_infos
paragraphs-Names [] x h = elim h [ ]
paragraphs-Names (q ∷ qs) x h = elim (In-append_cases x (infos_of q.items) (paragraph_infos qs) h) [
  | inl a ↦ (q, inl refl, infos-Names q.items x a)
  | inr b ↦ let (p, k, n) = paragraphs-Names qs x b in (p, inr k, n)
]

pub carried-HasId :
    (body : StoryBody) (r : Result (List (Option ItemInfo))) (id : Text)
    → IsAmong body r id
    → HasId (infos_or_legacy body r) id
carried-HasId body (ok es) id (i, h, e) = let (x, k, d) = ordered-HasId es i h in (x, k, d ∙ e)
carried-HasId body (err e) id (inl n) =
    let (x, k, d) = infos-HasId body.items id n in
    (x, In-append_left x (infos_of body.items) (paragraph_infos body.paragraphs) k, d)
carried-HasId body (err e) id (inr (p, h, n)) =
    let (x, k, d) = paragraphs-HasId body.paragraphs p id h n in
    (x, In-append_right x (infos_of body.items) (paragraph_infos body.paragraphs) k, d)

pub infos-IsCarried :
    (body : StoryBody) (r : Result (List (Option ItemInfo))) (x : ItemInfo)
    → In x (infos_or_legacy body r)
    → IsAmong body r x.id
infos-IsCarried body (ok es) x h = ordered-IsAmong es x h
infos-IsCarried body (err e) x h =
    elim (In-append_cases x (infos_of body.items) (paragraph_infos body.paragraphs) h) [
      | inl a ↦ inl (infos-Names body.items x a)
      | inr b ↦ inr (paragraphs-Names body.paragraphs x b)
    ]
