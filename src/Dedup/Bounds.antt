-- ===== src/Dedup/Bounds.antt =====
-- The store never holds more than its capacity, and no key twice.
use open_mos.Prelude.{
  ℕ, ◌+◌, ◌≤◌, ◌<◌, ◌≡◌, refl, List, [], ◌∷◌, ◌++◌, Option, none, some, length, leb, arith,
  Bool-cases, Option-cases, inl, inr, if◌then◌else◌,
}
use open_mos.Text.{Text, same}
use open_mos.Text.Order.{same_iff}
use open_mos.Dedup.{
  DedupEntry, MemoryDedupStore, find_entry, amend, evict, insert_locked, check, remember, restore,
  overwrite,
}

abbrev pub HaveDistinctKeys : List DedupEntry → Type 0
HaveDistinctKeys [] = Unit
HaveDistinctKeys (e ∷ es) = (find_entry e.key es ≡ none) × HaveDistinctKeys es

pub record IsBounded (d : MemoryDedupStore) : Type 0 where
  pub positive : 0 < d.capacity
  pub within : length d.order ≤ d.capacity
  pub distinct : HaveDistinctKeys d.order

pub length-snoc : (es : List DedupEntry) (e : DedupEntry) → length (es ++ e ∷ []) ≡ length es + 1
length-snoc [] e = omega arith
length-snoc (x ∷ es) e = omega (arith, length-snoc es e)

pub length-evict-lt : (n : ℕ) (es : List DedupEntry) → 0 < n → length (evict n es) < n
unfolding evict
length-evict-lt n [] h = h
length-evict-lt n (e ∷ es) h = ground (arith, length-evict-lt n es)

pub find_entry-evict :
    (k : Text) (n : ℕ) (es : List DedupEntry)
    → find_entry k es ≡ none
    → find_entry k (evict n es) ≡ none
unfolding find_entry evict
find_entry-evict k n [] h = refl
find_entry-evict k n (e ∷ es) h = ground (arith, find_entry-evict k n es)

evict-distinct :
    (n : ℕ) (es : List DedupEntry) → HaveDistinctKeys es → HaveDistinctKeys (evict n es)
unfolding evict
evict-distinct n [] h = tt
evict-distinct n (e ∷ es) h = elim (Bool-cases (leb n (length (e ∷ es)))) [
  | inl q ↦ rw q (evict-distinct n es h.1)
  | inr q ↦ rw q h
]

pub find_entry-snoc :
    (k : Text) (es : List DedupEntry) (e : DedupEntry)
    → find_entry k es ≡ none
    → find_entry k (es ++ e ∷ []) ≡ (if same e.key k then some e else none)
unfolding find_entry
find_entry-snoc k [] e h = refl
find_entry-snoc k (x ∷ es) e h = ground (arith, find_entry-snoc k es e)

snoc-distinct :
    (es : List DedupEntry) (e : DedupEntry)
    → find_entry e.key es ≡ none
    → HaveDistinctKeys es
    → HaveDistinctKeys (es ++ e ∷ [])
unfolding find_entry
snoc-distinct [] e h d = (refl, tt)
snoc-distinct (x ∷ es) e h d = (
  ground (arith, find_entry-snoc x.key es e, same_iff x.key e.key, same_iff e.key x.key),
  snoc-distinct es e (ground arith) d.1,
)

pub insert_locked-IsBounded :
    (e : DedupEntry) (d : MemoryDedupStore)
    → IsBounded d
    → find_entry e.key d.order ≡ none
    → IsBounded (insert_locked e d)
unfolding insert_locked
insert_locked-IsBounded e d h absent = record {
  positive = h.positive;
  within = omega (
    arith,
    length-snoc (evict d.capacity d.order) e,
    length-evict-lt d.capacity d.order h.positive,
  );
  distinct =
      snoc-distinct (evict d.capacity d.order) e (find_entry-evict e.key d.capacity d.order absent)
        (evict-distinct d.capacity d.order h.distinct);
}

module _ (f : DedupEntry → DedupEntry) (keeps : (e : DedupEntry) → (f e).key ≡ e.key) where
  length-amend : (k : Text) (es : List DedupEntry) → length (amend k f es) ≡ length es
  unfolding amend
  length-amend k [] = refl
  length-amend k (e ∷ es) = ground (arith, length-amend k es)

  find_entry-amend-none :
      (j k : Text) (es : List DedupEntry)
      → find_entry j es ≡ none
      → find_entry j (amend k f es) ≡ none
  unfolding find_entry amend
  find_entry-amend-none j k [] h = refl
  find_entry-amend-none j k (e ∷ es) h = ground (arith, find_entry-amend-none j k es, keeps e)

  amend-distinct :
      (k : Text) (es : List DedupEntry) → HaveDistinctKeys es → HaveDistinctKeys (amend k f es)
  unfolding amend
  amend-distinct k [] d = tt
  amend-distinct k (e ∷ es) d = elim (Bool-cases (same e.key k)) [
    | inl q ↦ rw (q, keeps) d
    | inr q ↦ rw q (find_entry-amend-none e.key k es d.0, amend-distinct k es d.1)
  ]

  pub amend-IsBounded :
      (k : Text) (d : MemoryDedupStore)
      → IsBounded d
      → IsBounded (record d { order = amend k f d.order })
  amend-IsBounded k d h = record {
    positive = h.positive;
    within = omega (arith, length-amend k d.order);
    distinct = amend-distinct k d.order h.distinct;
  }

pub check-IsBounded :
    (content_hash : Text → Text) (k content : Text) (d : MemoryDedupStore)
    → IsBounded d
    → IsBounded (check content_hash k content d).1
unfolding check
check-IsBounded content_hash k content d h = elim (Option-cases (find_entry k d.order)) [
  | inl q ↦ rw (q, check) (insert_locked-IsBounded _ d h q)
  | inr (e, q) ↦ rw (q, check) h
]

pub remember-IsBounded :
    (k response : Text) (d : MemoryDedupStore) → IsBounded d → IsBounded (remember k response d)
unfolding remember
remember-IsBounded k response d h = elim (Option-cases (find_entry k d.order)) [
  | inl q ↦ rw (q, remember) (insert_locked-IsBounded _ d h q)
  | inr (e, q) ↦
      rw (q, remember)
        (amend-IsBounded (λ e. record e { response = some response }) (λ e. refl) k d h)
]

pub restore-IsBounded :
    (k hash : Text) (r : Option Text) (d : MemoryDedupStore)
    → IsBounded d
    → IsBounded (restore k hash r d)
unfolding restore
restore-IsBounded k hash r d h = elim (Option-cases (find_entry k d.order)) [
  | inl q ↦ rw (q, restore) (insert_locked-IsBounded _ d h q)
  | inr (e, q) ↦ rw (q, restore) (amend-IsBounded (overwrite hash r) (λ e. refl) k d h)
]

-- Whatever is checked, remembered or read back, the store keeps within its capacity and holds each key
-- once.
pub operations-IsBounded :
    (content_hash : Text → Text) (k content hash response : Text) (r : Option Text)
    (d : MemoryDedupStore)
    → IsBounded d
    → IsBounded (check content_hash k content d).1
      × IsBounded (remember k response d)
      × IsBounded (restore k hash r d)
operations-IsBounded content_hash k content hash response r d h = (
  check-IsBounded content_hash k content d h,
  remember-IsBounded k response d h,
  restore-IsBounded k hash r d h,
)
