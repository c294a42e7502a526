-- ===== src/Service/StoryActions/Moving.antt =====
-- The order that MOVE builds: what it holds, and where the moved stories stand.
use open_mos.Prelude.{
  ℕ, ◌≡◌, refl, sym, ap, ◌≢◌, inl, inr, Bool, true, not, List, ◌++◌, In, arith, Bool-cases,
  In-append_cases, In-append_left, In-append_right, take, drop, keep, In-keep, keep-In, In-take,
  In-drop, In-take-drop, All, false, All-mono, All-keep, keep-append, ◌∙◌, ap₂, keep_no, ◌∷◌, [],
  suc, append-nil, All-take, keep_every, All-drop, take-append-drop,
}
use open_mos.Text.{Text, is_one_of}
use open_mos.Text.Order.{same_sound}
use open_mos.Model.{Story, Time}
use open_mos.Table.Sorted.{AreDistinct}
use open_mos.Table.Distinct.{
  AreDistinct-keep, AreDistinct-append, AreDistinct-take, AreDistinct-drop, take-drop_apart,
}
use open_mos.Table.Rewrite.{has_ident}
use open_mos.Service.Records.{renumber}
use open_mos.Service.StoryActions.{insert_index, moved_order, index_of, is_empty, same}

abbrev pub story_order : Story → ℕ
story_order x = x.order

abbrev pub story_ident : Story → Text
story_ident x = x.id

abbrev pub HaveDistinctIds : List Story → Type 0
HaveDistinctIds = AreDistinct story_order story_ident

module _ (keys : List Text) (target : Text) (all : List Story) where
  abbrev is_moved : Story → Bool
  is_moved x = is_one_of keys x.id

  abbrev stays : Story → Bool
  stays x = not (is_one_of keys x.id)

  abbrev moving : List Story
  moving = keep is_moved all

  abbrev remaining : List Story
  remaining = keep stays all

  abbrev place : ℕ
  place = insert_index target remaining

  pub In-moved_order : (x : Story) → In x all → In x (moved_order keys target all)
  unfolding moved_order
  In-moved_order x i = elim (Bool-cases (is_moved x)) [
    | inl q ↦
        In-append_right x (take place remaining) (moving ++ drop place remaining)
          (In-append_left x moving (drop place remaining) (keep-In is_moved x all i q))
    | inr q ↦ elim (In-take-drop place x remaining (keep-In stays x all i (rw q refl))) [
      | inl a ↦ In-append_left x (take place remaining) (moving ++ drop place remaining) a
      | inr b ↦
          In-append_right x (take place remaining) (moving ++ drop place remaining)
            (In-append_right x moving (drop place remaining) b)
    ]
  ]

  pub moved_order-In : (x : Story) → In x (moved_order keys target all) → In x all
  unfolding moved_order
  moved_order-In x i =
      elim (In-append_cases x (take place remaining) (moving ++ drop place remaining) i) [
        | inl a ↦ (In-keep stays x all (In-take place x remaining a)).0
        | inr b ↦ elim (In-append_cases x moving (drop place remaining) b) [
          | inl c ↦ (In-keep is_moved x all c).0
          | inr d ↦ (In-keep stays x all (In-drop place x remaining d)).0
        ]
      ]

  apart : (x y : Story) → In x moving → In y remaining → story_ident x ≢ story_ident y
  apart x y i j e =
      let p : is_moved x ≡ true = (In-keep is_moved x all i).1 in
      let q : stays y ≡ true = (In-keep stays y all j).1 in ground (arith, ap (is_one_of keys) e)

  pub moved_order-distinct : HaveDistinctIds all → HaveDistinctIds (moved_order keys target all)
  unfolding moved_order
  moved_order-distinct d =
      let r : HaveDistinctIds remaining = AreDistinct-keep story_order story_ident stays all d in
      AreDistinct-append story_order story_ident (take place remaining)
        (moving ++ drop place remaining)
        (AreDistinct-take story_order story_ident place remaining r)
        (AreDistinct-append story_order story_ident moving (drop place remaining)
          (AreDistinct-keep story_order story_ident is_moved all d)
          (AreDistinct-drop story_order story_ident place remaining r)
          (λ x y i j. apart x y i (In-drop place y remaining j)))
        (λ x y i j. elim (In-append_cases y moving (drop place remaining) j) [
          | inl a ↦ λ e. apart y x a (In-take place x remaining i) (sym e)
          | inr b ↦ take-drop_apart story_order story_ident place remaining x y r i b
        ])

index_of_split :
    (key : Text) (xs : List Story)
    → has_ident story_ident key xs ≡ true
    → (before after : List Story) × (x : Story) × (x.id ≡ key)
      × (xs ≡ before ++ (x ∷ after))
      × (take (index_of key xs) xs ≡ before)
      × (drop (index_of key xs) xs ≡ x ∷ after)
unfolding index_of has_ident
index_of_split key [] h = cc
index_of_split key (x ∷ xs) h = elim (Bool-cases (same x.id key)) [
  | inl q ↦ rw q ([], xs, x, same_sound x.id key q, refl, refl, refl)
  | inr q ↦
      let (b, a, y, e, s, t, d) = index_of_split key xs (rw q at h) in
      rw q (x ∷ b, a, y, e, ap (◌∷◌ x) s, ap (◌∷◌ x) t, d)
]

module _ (keys : List Text) (target : Text) (all : List Story) where
  -- The moved stories keep their sequence among themselves, and so do the stories that stay.
  pub moved_order_sequence :
      (keep (λ x. is_one_of keys x.id) (moved_order keys target all)
        ≡ keep (λ x. is_one_of keys x.id) all)
      × (keep (λ x. not (is_one_of keys x.id)) (moved_order keys target all)
          ≡ keep (λ x. not (is_one_of keys x.id)) all)
  unfolding moved_order
  moved_order_sequence = (
    keep-append p (take i rest) (moved ++ drop i rest)
        ∙ ap₂ ◌++◌ (keep_no p (take i rest) (All-take (λ x. p x ≡ false) i rest rest_no)) (
            keep-append p moved (drop i rest)
            ∙ ap₂ ◌++◌ (keep_every p moved (All-keep p all))
                (keep_no p (drop i rest) (All-drop (λ x. p x ≡ false) i rest rest_no))
            ∙ append-nil moved),
    keep-append n (take i rest) (moved ++ drop i rest)
        ∙ ap₂ ◌++◌ (keep_every n (take i rest) (All-take (λ x. n x ≡ true) i rest (All-keep n all)))
            (keep-append n moved (drop i rest)
              ∙ ap₂ ◌++◌
                  (keep_no n moved (
                    All-mono (λ x. p x ≡ true) (λ x. n x ≡ false) moved (λ x e. rw e refl)
                      (All-keep p all)))
                  (keep_every n (drop i rest) (All-drop (λ x. n x ≡ true) i rest (All-keep n all))))
        ∙ take-append-drop i rest,
  )
    where
      p : Story → Bool
      p = is_moved keys target all

      n : Story → Bool
      n = stays keys target all

      moved : List Story
      moved = moving keys target all

      rest : List Story
      rest = remaining keys target all

      i : ℕ
      i = place keys target all

      rest_no : All (λ x. p x ≡ false) rest
      rest_no =
          All-mono (λ x. n x ≡ true) (λ x. p x ≡ false) rest (λ x e. ground arith) (All-keep n all)

  pub moved_before_target :
      is_empty target ≡ false
      → has_ident story_ident target (keep (λ x. not (is_one_of keys x.id)) all) ≡ true
      → (before after : List Story) × (x : Story) × (x.id ≡ target)
        × (keep (λ x. not (is_one_of keys x.id)) all ≡ before ++ (x ∷ after))
        × (moved_order keys target all
            ≡ before ++ (keep (λ x. is_one_of keys x.id) all ++ (x ∷ after)))
  unfolding moved_order insert_index
  moved_before_target e h =
      let (b, a, x, k, s, t, d) = index_of_split target (remaining keys target all) h in
      (b, a, x, k, s, rw e (ap₂ ◌++◌ t (ap (◌++◌ (moving keys target all)) d)))

renumber_ids :
    (now : Time) (n : ℕ) (k : Text) (xs : List Story)
    → has_ident story_ident k (renumber now n xs) ≡ has_ident story_ident k xs
unfolding renumber has_ident
renumber_ids now n k [] = refl
renumber_ids now n k (x ∷ xs) = rw (renumber_ids now (suc n) k xs)
