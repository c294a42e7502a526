-- ===== src/Repository/Listing.antt =====
-- src/internal/repository/memory.go: what the listings hold, whatever order a Go map is ranged over in.
use open_mos.Prelude.{
  ◌≡◌, ◌<◌, ◌⊎◌, inl, inr, true, In, some, List, [], ◌∷◌, All, All-mono, Bool-cases, ◌==◌, arith,
}
use open_mos.Text.{Text, before}
use open_mos.Text.Order.{same_iff}
use open_mos.Table.Listing.{less}
use open_mos.Model.{Story, Item}
use open_mos.Table.{Table, lookup}
use open_mos.Table.Laws.{IsKeyed}
use open_mos.Table.Sorted.{IsSorted}
use open_mos.Table.Selected.{In-selected, selected-In, selected-IsSorted, selected_ext}
use open_mos.Repository.Stories
use open_mos.Repository.Items

-- The order in which stories are listed.
abbrev pub ComesBefore : Story → Story → Type 0
ComesBefore x y = (x.order < y.order) ⊎ ((x.order ≡ y.order) × (before x.id y.id ≡ true))

-- Each story comes before all behind it.
abbrev pub IsAscending : List Story → Type 0
IsAscending [] = Unit
IsAscending (x ∷ xs) = All (ComesBefore x) xs × IsAscending xs

less-ComesBefore :
    (x y : Story) → less (λ (z : Story). z.order) (λ (z : Story). z.id) x y ≡ true → ComesBefore x y
unfolding less
less-ComesBefore x y h = elim (Bool-cases (x.order == y.order)) [
  | inl q ↦ inr (ground (arith, q), rw q at h)
  | inr q ↦ inl (ground (arith, q, h))
]

IsSorted-IsAscending :
    (xs : List Story) → IsSorted (λ (z : Story). z.order) (λ (z : Story). z.id) xs → IsAscending xs
IsSorted-IsAscending [] h = tt
IsSorted-IsAscending (x ∷ xs) h = (
  All-mono (λ y. less (λ (z : Story). z.order) (λ (z : Story). z.id) x y ≡ true) (ComesBefore x) xs
      (λ y l. less-ComesBefore x y l) h.0,
  IsSorted-IsAscending xs h.1,
)

-- ListByRunningOrder returns the stories of the running order, and no others, each that is held under its
-- identifier once: by their order and, where that is the same, by the identifier. The table is to hold
-- each story under its identifier.
pub list_by_running_order_exact :
    (ro : Text) (t : Table Story)
    → IsKeyed (λ (x : Story). x.id) t
    → IsAscending (Stories.list_by_running_order ro t)
      × ((x : Story)
          → In x (Stories.list_by_running_order ro t)
          → (lookup x.id t ≡ some x) × (x.running_order_id ≡ ro))
      × ((x : Story)
          → lookup x.id t ≡ some x
          → x.running_order_id ≡ ro
          → In x (Stories.list_by_running_order ro t))
unfolding Stories.list_by_running_order
list_by_running_order_exact ro t h =
    let order = λ (x : Story). x.order in
    let ident = λ (x : Story). x.id in
    (
      IsSorted-IsAscending (Stories.list_by_running_order ro t)
          (selected-IsSorted order ident (Stories.is_in ro) t h),
      λ x i.
          let r = In-selected order ident (Stories.is_in ro) x t h i in
          (r.0, (same_iff x.running_order_id ro).0 r.1),
      λ x l p.
          selected-In order ident (Stories.is_in ro) x.id x t l
            ((same_iff x.running_order_id ro).1 p),
    )

-- Two tables of items that hold the same under every key are listed alike: the order in which the entries
-- stand does not matter.
pub list_by_story_ext :
    (story : Text) (t u : Table Item)
    → IsKeyed (λ (x : Item). x.id) t
    → IsKeyed (λ (x : Item). x.id) u
    → ((k : Text) → lookup k t ≡ lookup k u)
    → Items.list_by_story story t ≡ Items.list_by_story story u
unfolding Items.list_by_story
list_by_story_ext story t u h k e =
    selected_ext (λ (x : Item). x.order) (λ (x : Item). x.id) (Items.is_in story) t u h k e
