-- ===== src/Dedup/Outcomes.antt =====
-- src/internal/server/dedup.go: what a retry is told, and the response it is answered with.
use open_mos.Prelude.{
  ◌≡◌, refl, ◌∙◌, List, [], ◌∷◌, none, some, arith, Option-cases, inl, inr, if◌then◌else◌,
}
use open_mos.Text.{Text, same}
use open_mos.Text.Order.{same_iff, same_refl}
use open_mos.Dedup.{
  new, duplicate, conflict, DedupEntry, MemoryDedupStore, find_entry, amend, evict, insert_locked,
  check, remember, response_of,
}
use open_mos.Dedup.Bounds.{find_entry-snoc, find_entry-evict}

pub find_entry-insert_locked :
    (e : DedupEntry) (d : MemoryDedupStore)
    → find_entry e.key d.order ≡ none
    → find_entry e.key (insert_locked e d).order ≡ some e
unfolding insert_locked
find_entry-insert_locked e d h =
    find_entry-snoc e.key (evict d.capacity d.order) e (find_entry-evict e.key d.capacity d.order h)
    ∙ (rw (same_refl e.key) refl)

pub find_entry_key :
    (k : Text) (es : List DedupEntry) (e : DedupEntry) → find_entry k es ≡ some e → e.key ≡ k
unfolding find_entry
find_entry_key k [] e h = ground arith
find_entry_key k (x ∷ es) e h = ground (arith, find_entry_key k es e, same_iff x.key k)

module _ (f : DedupEntry → DedupEntry) (keeps : (e : DedupEntry) → (f e).key ≡ e.key) where
  pub find_entry-amend :
      (k : Text) (es : List DedupEntry) (e : DedupEntry)
      → find_entry k es ≡ some e
      → find_entry k (amend k f es) ≡ some (f e)
  unfolding find_entry amend
  find_entry-amend k [] e h = ground arith
  find_entry-amend k (x ∷ es) e h = ground (arith, find_entry-amend k es e, keeps x)

pub check_new :
    (content_hash : Text → Text) (k content : Text) (d : MemoryDedupStore)
    → find_entry k d.order ≡ none
    → check content_hash k content d
      ≡ (new, insert_locked (record { key = k; hash = content_hash content; response = none }) d)
unfolding check
check_new content_hash k content d h = rw (h, check) refl

pub check_again :
    (content_hash : Text → Text) (k content : Text) (d : MemoryDedupStore) (e : DedupEntry)
    → find_entry k d.order ≡ some e
    → check content_hash k content d
      ≡ (if same e.hash (content_hash content) then duplicate else conflict, d)
unfolding check
check_again content_hash k content d e h = rw (h, check) refl

-- A message that is checked for the first time is new. If the same message arrives next, it is a
-- duplicate when its content has the same digest and a conflict when it has not, and the store stays as
-- it is.
pub check-check :
    (content_hash : Text → Text) (k content retry : Text) (d : MemoryDedupStore)
    → find_entry k d.order ≡ none
    → ((check content_hash k content d).0 ≡ new)
      × (check content_hash k retry (check content_hash k content d).1 ≡ (
        if same (content_hash content) (content_hash retry) then duplicate else conflict,
        (check content_hash k content d).1,
      ))
check-check content_hash k content retry d h =
    rw (check_new content_hash k content d h)
      (refl, check_again content_hash k retry _ _ (find_entry-insert_locked _ d h))

response_of-remember :
    (k response : Text) (d : MemoryDedupStore)
    → response_of k (remember k response d) ≡ some response
unfolding response_of remember
response_of-remember k response d = elim (Option-cases (find_entry k d.order)) [
  | inl q ↦
      rw
        (
          q,
          remember,
          response_of,
          find_entry-insert_locked (record { key = k; hash = []; response = some response }) d q,
        )
        refl
  | inr (e, q) ↦
      rw
        (
          q,
          remember,
          response_of,
          find_entry-amend (λ e. record e { response = some response }) (λ e. refl) k d.order e q,
        )
        refl
]

remember_held :
    (k response : Text) (d : MemoryDedupStore) (e : DedupEntry)
    → find_entry k d.order ≡ some e
    → find_entry k (remember k response d).order ≡ some (record e { response = some response })
unfolding remember
remember_held k response d e q =
    rw (q, remember)
      (find_entry-amend (λ e. record e { response = some response }) (λ e. refl) k d.order e q)

-- A message that is new is checked, and its response remembered. A retry of the same content is then told
-- to be a duplicate, finds that response, and leaves the store as it is; a retry whose content has
-- another digest is a conflict.
pub check-remember-check :
    (content_hash : Text → Text) (k content retry response : Text) (d : MemoryDedupStore)
    → find_entry k d.order ≡ none
    → (response_of k (remember k response (check content_hash k content d).1) ≡ some response)
      × (check content_hash k retry (remember k response (check content_hash k content d).1) ≡ (
        if same (content_hash content) (content_hash retry) then duplicate else conflict,
        remember k response (check content_hash k content d).1,
      ))
check-remember-check content_hash k content retry response d h = (
  response_of-remember k response (check content_hash k content d).1,
  rw (check_new content_hash k content d h) (
      check_again content_hash k retry _ _
        (remember_held k response _ _ (find_entry-insert_locked _ d h))),
)
