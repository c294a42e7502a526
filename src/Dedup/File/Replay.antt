-- ===== src/Dedup/File/Replay.antt =====
-- src/internal/server/dedup_file.go: what a restart finds in the log is what was held in memory.
use open_mos.Prelude.{
  ℕ, ◌≤◌, ◌<◌, ◌≡◌, refl, ◌∙◌, false, List, [], ◌∷◌, ◌++◌, map, Option, none, some, length, All,
  arith, Option-cases, Bool-cases, inl, inr, if◌then◌else◌, append-nil, append_assoc, ap,
}
use open_mos.Text.{Text, is_empty}
use open_mos.Text.Order.{same_iff}
use open_mos.Dedup.{
  DedupEntry, MemoryDedupStore, remember, restore, hash_for, find_entry, amend, evict,
  insert_locked, overwrite,
}
use open_mos.Dedup.Bounds.{HaveDistinctKeys}
use open_mos.Dedup.Outcomes.{find_entry-insert_locked, find_entry-amend}
use open_mos.Dedup.File.{DedupRecord, stored_response, record_of, restore_record, replay}

-- Entries that a line can carry: they have a key, and a response has bytes.
abbrev pub IsWhole : DedupEntry → Type 0
IsWhole e = (is_empty e.key ≡ false) × (stored_response e.response ≡ e.response)

abbrev pub emptied : MemoryDedupStore → MemoryDedupStore
emptied d = record d { order = [] }

pub replay-++ :
    (a b : List DedupRecord) (d : MemoryDedupStore) → replay (a ++ b) d ≡ replay b (replay a d)
unfolding replay
replay-++ [] b d = refl
replay-++ (r ∷ a) b d = replay-++ a b _

amend_ext :
    (k : Text) (f g : DedupEntry → DedupEntry) (es : List DedupEntry) (e : DedupEntry)
    → find_entry k es ≡ some e
    → f e ≡ g e
    → amend k f es ≡ amend k g es
unfolding find_entry amend
amend_ext k f g [] e h q = refl
amend_ext k f g (x ∷ es) e h q = ground (arith, amend_ext k f g es e)

overwrite_same :
    (e : DedupEntry) (response : Text)
    → is_empty response ≡ false
    → overwrite e.hash (some response) e ≡ record e { response = some response }
unfolding overwrite
overwrite_same e response h = elim (Bool-cases (is_empty e.hash)) [
  | inl q ↦ rw (h, q) refl
  | inr q ↦ rw (h, q) refl
]

remember_absent :
    (k response : Text) (d : MemoryDedupStore)
    → find_entry k d.order ≡ none
    → remember k response d
      ≡ insert_locked (record { key = k; hash = []; response = some response }) d
unfolding remember
remember_absent k response d q = rw (q, remember) refl

remember_present :
    (k response : Text) (d : MemoryDedupStore) (e : DedupEntry)
    → find_entry k d.order ≡ some e
    → remember k response d
      ≡ record d { order = amend k (λ x. record x { response = some response }) d.order }
unfolding remember
remember_present k response d e q = rw (q, remember) refl

hash_for_absent :
    (k response : Text) (d : MemoryDedupStore)
    → find_entry k d.order ≡ none
    → hash_for k (insert_locked (record { key = k; hash = []; response = some response }) d) ≡ []
unfolding hash_for
hash_for_absent k response d q =
    rw
      (
        find_entry-insert_locked (record { key = k; hash = []; response = some response }) d q,
        hash_for,
      )
      refl

hash_for_present :
    (k response : Text) (d : MemoryDedupStore) (e : DedupEntry)
    → find_entry k d.order ≡ some e
    → hash_for k (record d { order = amend k (λ x. record x { response = some response }) d.order })
      ≡ e.hash
unfolding hash_for
hash_for_present k response d e q =
    rw
      (
        find_entry-amend (λ x. record x { response = some response }) (λ x. refl) k d.order e q,
        hash_for,
      )
      refl

pub restore_absent :
    (k hash : Text) (r : Option Text) (d : MemoryDedupStore)
    → find_entry k d.order ≡ none
    → restore k hash r d ≡ insert_locked (record { key = k; hash = hash; response = r }) d
unfolding restore
restore_absent k hash r d q = rw (q, restore) refl

restore_present :
    (k hash : Text) (r : Option Text) (d : MemoryDedupStore) (e : DedupEntry)
    → find_entry k d.order ≡ some e
    → restore k hash r d ≡ record d { order = amend k (overwrite hash r) d.order }
unfolding restore
restore_present k hash r d e q = rw (q, restore) refl

pub restore_remembered :
    (k response : Text) (d : MemoryDedupStore)
    → is_empty response ≡ false
    → restore k (hash_for k (remember k response d)) (some response) d ≡ remember k response d
restore_remembered k response d h = elim (Option-cases (find_entry k d.order)) [
  | inl q ↦
      rw (remember_absent k response d q, hash_for_absent k response d q)
        (restore_absent k [] (some response) d q)
  | inr (e, q) ↦
      rw
        (
          remember_present k response d e q,
          hash_for_present k response d e q,
          restore_present k e.hash (some response) d e q,
          amend_ext k (overwrite e.hash (some response))
              (λ x. record x { response = some response }) d.order e q
              (overwrite_same e response h),
        )
        refl
]

evict_short : (n : ℕ) (es : List DedupEntry) → length es < n → evict n es ≡ es
unfolding evict
evict_short n [] h = refl
evict_short n (e ∷ es) h = ground arith

find_entry-++ :
    (k : Text) (a b : List DedupEntry)
    → find_entry k (a ++ b) ≡ none
    → (find_entry k a ≡ none) × (find_entry k b ≡ none)
unfolding find_entry
find_entry-++ k [] b h = (refl, h)
find_entry-++ k (x ∷ a) b h = ground (arith, find_entry-++ k a b)

evict-++_one :
    (d : MemoryDedupStore) (e : DedupEntry)
    → length d.order < d.capacity
    → insert_locked e d ≡ record d { order = d.order ++ e ∷ [] }
unfolding insert_locked
evict-++_one d e h = rw (evict_short d.capacity d.order h) refl

distinct_middle :
    (a b : List DedupEntry) (e : DedupEntry)
    → HaveDistinctKeys (a ++ e ∷ b)
    → find_entry e.key a ≡ none
unfolding find_entry
distinct_middle [] b e h = refl
distinct_middle (x ∷ a) b e h = ground (
  arith,
  distinct_middle a b e h.1,
  find_entry-++ x.key a (e ∷ b) h.0,
  same_iff x.key e.key,
  same_iff e.key x.key,
)

restore_record_of :
    (e : DedupEntry) (d : MemoryDedupStore)
    → IsWhole e
    → find_entry e.key d.order ≡ none
    → length d.order < d.capacity
    → (if is_empty e.key then d else restore_record (record_of e) d)
      ≡ record d { order = d.order ++ e ∷ [] }
unfolding restore_record record_of
restore_record_of e d w q h =
    rw (w.0, w.1) (restore_absent e.key e.hash e.response d q ∙ evict-++_one d e h)

length-middle : (a b : List DedupEntry) (e : DedupEntry) → length a < length (a ++ e ∷ b)
length-middle [] b e = omega arith
length-middle (x ∷ a) b e = omega (arith, length-middle a b e)

-- The log that a compaction writes is read back as the entries that were held.
pub replay-map :
    (es : List DedupEntry) (d : MemoryDedupStore)
    → All IsWhole es
    → length (d.order ++ es) ≤ d.capacity
    → HaveDistinctKeys (d.order ++ es)
    → replay (map record_of es) d ≡ record d { order = d.order ++ es }
unfolding replay restore_record record_of
replay-map [] d w h k = rw (append-nil d.order) refl
replay-map (e ∷ es) d w h k =
    ap (replay (map record_of es)) (
      restore_record_of e d w.0 (distinct_middle d.order es e k)
        (omega (arith, length-middle d.order es e)))
    ∙ replay-map es (record d { order = d.order ++ e ∷ [] }) w.1
        (rw (append_assoc d.order (e ∷ []) es) h) (rw (append_assoc d.order (e ∷ []) es) k)
    ∙ (rw (append_assoc d.order (e ∷ []) es) refl)
