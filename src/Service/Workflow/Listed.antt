-- ===== src/Service/Workflow/Listed.antt =====
-- The stories that ReplaceRunningOrder of src/internal/service/mos.go writes, as they are listed.
use open_mos.Prelude.{
  ℕ, suc, ◌<◌, ◌≡◌, ◌≢◌, ap, subst, ◌∙◌, true, List, [], ◌∷◌, All, In, some, inl, inr, arith,
  Option-cases, false, Bool-cases, sym, All-In,
}
use open_mos.Text.{Text, same}
use open_mos.Text.Order.{same_refl, same_iff}
use open_mos.Model.{Story, Time}
use open_mos.Table.{Table, lookup}
use open_mos.Table.Listing.{less}
use open_mos.Table.Sorted.{IsSorted, AreDistinct}
use open_mos.Table.Selected.{selected-In, selected_unique, selected, selected-IsSorted, In-selected}
use open_mos.Table.Rewrite.{
  put_all, selected-put_all, IsKeyed-put_all, lookup-put_all_ne, has_ident, has_ident-false,
  has_ident-true, lookup-put_all,
}
use open_mos.Repository.Stories
use open_mos.Service.Identity.{story_persistence_id}
use open_mos.Service.Identity.Keys.{story_persistence_id_inj}
use open_mos.Service.Messages.{story_of}
use open_mos.Service.Workflow.Stored.{stories_of, HaveDistinctIds, AreNew, story_ident}
use open_mos.Service.Workflow.Removal.{StoriesKeyed}
use open_mos.Wire.{StoryInfo}

abbrev pub story_order : Story → ℕ
story_order x = x.order

module _ (now : Time) (ro : Text) where
  behind :
      (x : Story) (n : ℕ) (infos : List StoryInfo)
      → x.order < n
      → All (λ y. less story_order story_ident x y ≡ true) (stories_of now ro n infos)
  unfolding stories_of less story_of
  behind x n [] h = tt
  behind x n (i ∷ is') h = (ground arith, behind x (suc n) is' (omega arith))

  pub stories_of-IsSorted :
      (n : ℕ) (infos : List StoryInfo)
      → IsSorted story_order story_ident (stories_of now ro n infos)
  unfolding stories_of story_of
  stories_of-IsSorted n [] = tt
  stories_of-IsSorted n (i ∷ is') =
      (behind (story_of now ro n i) (suc n) is' (omega arith), stories_of-IsSorted (suc n) is')

  pub stories_of-ne :
      (w : Text) (n : ℕ) (infos : List StoryInfo)
      → All (λ (y : StoryInfo). w ≢ y.id) infos
      → All (λ y. story_persistence_id ro w ≢ story_ident y) (stories_of now ro n infos)
  unfolding stories_of story_of
  stories_of-ne w n [] h = tt
  stories_of-ne w n (i ∷ is') h =
      (λ e. h.0 (story_persistence_id_inj ro w ro i.id e).1, stories_of-ne w (suc n) is' h.1)

  pub stories_of-AreDistinct :
      (n : ℕ) (infos : List StoryInfo)
      → HaveDistinctIds infos
      → AreDistinct story_order story_ident (stories_of now ro n infos)
  unfolding stories_of story_of
  stories_of-AreDistinct n [] d = tt
  stories_of-AreDistinct n (i ∷ is') d =
      (stories_of-ne i.id (suc n) is' d.0, stories_of-AreDistinct (suc n) is' d.1)

  pub stories_of-in :
      (n : ℕ) (infos : List StoryInfo)
      → All (λ x. Stories.is_in ro x ≡ true) (stories_of now ro n infos)
  unfolding stories_of story_of
  stories_of-in n [] = tt
  stories_of-in n (i ∷ is') = (same_refl ro, stories_of-in (suc n) is')

  -- A listing that was empty is what is written.
  pub listed_new :
      (infos : List StoryInfo) (t : Table Story)
      → StoriesKeyed t
      → HaveDistinctIds infos
      → Stories.list_by_running_order ro t ≡ []
      → Stories.list_by_running_order ro (put_all story_ident (stories_of now ro 1 infos) t)
        ≡ stories_of now ro 1 infos
  unfolding Stories.list_by_running_order
  listed_new infos t k d e =
      selected-put_all story_order story_ident (Stories.is_in ro) (stories_of now ro 1 infos) t k
        (stories_of-IsSorted 1 infos) (stories_of-AreDistinct 1 infos d) (stories_of-in 1 infos)
        (λ x l p.
          absurd
            (subst (In x) e (selected-In story_order story_ident (Stories.is_in ro) x.id x t l p)))

-- Stories under the keys of a running order belong to it.
abbrev pub AreOwned : Text → Table Story → Type 0
AreOwned ro t =
    (x : Story) (w : Text)
    → lookup (story_persistence_id ro w) t ≡ some x
    → Stories.is_in ro x ≡ true

pub all_new :
    (ro : Text) (infos : List StoryInfo) (t : Table Story)
    → AreOwned ro t
    → Stories.list_by_running_order ro t ≡ []
    → AreNew ro infos t
unfolding Stories.list_by_running_order
all_new ro [] t o e = tt
all_new ro (i ∷ is') t o e = (
  elim (Option-cases (lookup (story_persistence_id ro i.id) t)) [
    | inl none_held ↦ none_held
    | inr (x, l) ↦ absurd (
        subst (In x) e (
          selected-In story_order story_ident (Stories.is_in ro) (story_persistence_id ro i.id) x t
            l (o x i.id l)))
  ],
  all_new ro is' t o e,
)

new_ne :
    (now : Time) (ro : Text) (n : ℕ) (infos : List StoryInfo) (t : Table Story) (k : Text)
    (x : Story)
    → AreNew ro infos t
    → lookup k t ≡ some x
    → All (λ y. story_ident y ≢ k) (stories_of now ro n infos)
unfolding stories_of story_of
new_ne now ro n [] t k x h l = tt
new_ne now ro n (i ∷ is') t k x h l =
    (λ e. absurd (cc (h.0, l)), new_ne now ro (suc n) is' t k x h.1 l)

not_other :
    (now : Time) (ro other : Text) (infos : List StoryInfo) (t : Table Story)
    → HaveDistinctIds infos
    → same other ro ≡ false
    → (x : Story) → lookup x.id (put_all story_ident (stories_of now ro 1 infos) t) ≡ some x
    → Stories.is_in other x ≡ true
    → has_ident story_ident x.id (stories_of now ro 1 infos) ≡ true
    → ⊥
not_other now ro other infos t dist d x l p y =
    let news = stories_of now ro 1 infos in
    let (z, i, e) = has_ident-true story_ident x.id news y in
    let held =
      lookup-put_all story_order story_ident z news t (stories_of-AreDistinct now ro 1 infos dist)
        i in
    let same_story : some z ≡ some x =
      sym held ∙ (ap (λ k. lookup k (put_all story_ident news t)) e ∙ l) in
    let q = All-In (λ y. Stories.is_in ro y ≡ true) z news (stories_of-in now ro 1 infos) i in
    ground (
      arith,
      same_story,
      p,
      q,
      d,
      same_iff z.running_order_id ro,
      same_iff x.running_order_id other,
      same_iff other ro,
    )

-- The listings of other running orders do not change where the identifiers are new.
pub other_listed :
    (now : Time) (ro other : Text) (infos : List StoryInfo) (t : Table Story)
    → StoriesKeyed t
    → HaveDistinctIds infos
    → AreNew ro infos t
    → same other ro ≡ false
    → Stories.list_by_running_order other (put_all story_ident (stories_of now ro 1 infos) t)
      ≡ Stories.list_by_running_order other t
unfolding Stories.list_by_running_order
other_listed now ro other infos t k dist n d =
    let news = stories_of now ro 1 infos in
    let test = Stories.is_in other in
    selected_unique story_order story_ident test (put_all story_ident news t)
      (selected story_order story_ident test t) (IsKeyed-put_all story_ident news t k)
      (selected-IsSorted story_order story_ident test t k)
      (λ x i.
        let r = In-selected story_order story_ident test x t k i in
        (
          lookup-put_all_ne story_ident x.id news t (new_ne now ro 1 infos t x.id x n r.0) ∙ r.0,
          r.1,
        ))
      (λ x l p. elim (Bool-cases (has_ident story_ident x.id news)) [
        | inl y ↦ absurd (not_other now ro other infos t dist d x l p y)
        | inr q ↦
            selected-In story_order story_ident test x.id x t
              (sym (
                  lookup-put_all_ne story_ident x.id news t
                    (has_ident-false story_ident x.id news q))
                ∙ l)
              p
      ])
