-- ===== src/Service/StoryActions/Placed.antt =====
-- Where MOVE (service/element_action.go) puts the stories, and how it numbers them.
use open_mos.Prelude.{
  ℕ, suc, ◌≡◌, ◌≢◌, refl, ap, ap₂, ◌∙◌, ◌⊎◌, inl, inr, not, List, [], ◌∷◌, ◌++◌, append-nil, All,
  keep, take, drop, length, arith, Bool-cases, false,
}
use open_mos.Text.{Text, same, is_empty, is_one_of}
use open_mos.Model.{Story, Time}
use open_mos.Table.Rewrite.{has_ident, has_ident-false}
use open_mos.Service.Records.{renumber, place_story}
use open_mos.Service.StoryActions.{insert_index, moved_order, index_of}
use open_mos.Service.StoryActions.Moving.{story_ident, moved_before_target}

take_all : (xs : List Story) → take (length xs) xs ≡ xs
take_all [] = refl
take_all (x ∷ xs) = ap (◌∷◌ x) (take_all xs)

drop_all : (xs : List Story) → drop (length xs) xs ≡ []
drop_all [] = refl
drop_all (x ∷ xs) = drop_all xs

index_of-none :
    (key : Text) (xs : List Story)
    → has_ident story_ident key xs ≡ false
    → index_of key xs ≡ length xs
unfolding index_of has_ident
index_of-none key [] h = refl
index_of-none key (x ∷ xs) h = elim (Bool-cases (same x.id key)) [
  | inl q ↦ absurd (ground (arith, q, h))
  | inr q ↦ rw q (ap suc (index_of-none key xs (rw q at h)))
]

-- Where MOVE puts the stories: immediately in front of the target where it stays, what stood in front of
-- it and behind it staying there; and at the end where no target is named or the target itself moves.
abbrev pub ArePlaced : List Text → Text → List Story → List Story → Type 0
ArePlaced keys target all placed =
    ((before after : List Story) × (x : Story) × (x.id ≡ target)
      × (keep (λ y. not (is_one_of keys y.id)) all ≡ before ++ (x ∷ after))
      × (placed ≡ before ++ (keep (λ y. is_one_of keys y.id) all ++ (x ∷ after))))
    ⊎ (((target ≡ [])
          ⊎ All (λ (y : Story). y.id ≢ target) (keep (λ y. not (is_one_of keys y.id)) all))
        × (placed
            ≡ keep (λ y. not (is_one_of keys y.id)) all ++ keep (λ y. is_one_of keys y.id) all))

pub moved_order-ArePlaced :
    (keys : List Text) (target : Text) (all : List Story)
    → ArePlaced keys target all (moved_order keys target all)
unfolding moved_order insert_index is_empty
moved_order-ArePlaced keys [] all =
    let rest = keep (λ (y : Story). not (is_one_of keys y.id)) all in
    let moved = keep (λ (y : Story). is_one_of keys y.id) all in
    inr (inl refl, ap₂ ◌++◌ (take_all rest) (ap (◌++◌ moved) (drop_all rest) ∙ append-nil moved))
moved_order-ArePlaced keys (c ∷ r) all =
    let rest = keep (λ (y : Story). not (is_one_of keys y.id)) all in
    let moved = keep (λ (y : Story). is_one_of keys y.id) all in
    elim (Bool-cases (has_ident story_ident (c ∷ r) rest)) [
      | inl q ↦ inl (moved_before_target keys (c ∷ r) all refl q)
      | inr q ↦ inr (
        inr (has_ident-false story_ident (c ∷ r) rest q),
        rw (index_of-none (c ∷ r) rest q)
            (ap₂ ◌++◌ (take_all rest) (ap (◌++◌ moved) (drop_all rest) ∙ append-nil moved)),
      )
    ]

-- The stories with their positions, counted from a number, and the time of the change.
abbrev pub numbered : Time → ℕ → List Story → List Story
numbered now n [] = []
numbered now n (x ∷ xs) = record x { order = n; updated_at = now } ∷ numbered now (suc n) xs

pub renumber-numbered :
    (now : Time) (n : ℕ) (xs : List Story) → renumber now n xs ≡ numbered now n xs
unfolding renumber place_story
renumber-numbered now n [] = refl
renumber-numbered now n (x ∷ xs) =
    ap (◌∷◌ (record x { order = n; updated_at = now })) (renumber-numbered now (suc n) xs)
