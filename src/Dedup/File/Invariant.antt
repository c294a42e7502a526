-- ===== src/Dedup/File/Invariant.antt =====
-- src/internal/server/dedup_file.go: appending a record keeps the log up with the memory.
use open_mos.Prelude.{
  ℕ, List, ◌≡◌, All, false, arith, Option-cases, ◌++◌, map, ◌∷◌, some, [], Bool-cases, leb, length,
  inl, inr, refl, suc, if_holds,
}
use open_mos.Dedup.{MemoryDedupStore, amend, evict, remember, DedupEntry, insert_locked, find_entry}
use open_mos.Dedup.File.{
  compacted, FileDedupStore, append, Disk, compact_locked, Compaction, stored_response,
  written_line, replay, DedupRecord, restore_record, record_of, not_written, not_renamed,
  not_reopened,
}
use open_mos.Text.{is_empty, Text, same}
use open_mos.Dedup.Bounds.{IsBounded}
use open_mos.Dedup.File.Replay.{emptied, IsWhole, replay-map, replay-++}

-- What is known of a store that was opened on an empty log.
pub record IsRestartable (s : FileDedupStore) : Type 0 where
  pub bounded : IsBounded s.mem
  pub whole : All IsWhole s.mem.order
  pub replayed : s.is_degraded ≡ false → replay s.log (emptied s.mem) ≡ s.mem

pub All-evict : (n : ℕ) (es : List DedupEntry) → All IsWhole es → All IsWhole (evict n es)
unfolding evict
All-evict n [] h = tt
All-evict n (e ∷ es) h = elim (Bool-cases (leb n (length (e ∷ es)))) [
  | inl q ↦ rw q (All-evict n es h.1)
  | inr q ↦ rw q h
]

pub All-snoc :
    (es : List DedupEntry) (e : DedupEntry)
    → All IsWhole es
    → IsWhole e
    → All IsWhole (es ++ e ∷ [])
All-snoc [] e h w = (w, tt)
All-snoc (x ∷ es) e h w = (h.0, All-snoc es e h.1 w)

All-amend :
    (k response : Text) (es : List DedupEntry)
    → is_empty response ≡ false
    → All IsWhole es
    → All IsWhole (amend k (λ e. record e { response = some response }) es)
unfolding amend stored_response
All-amend k response [] q h = tt
All-amend k response (e ∷ es) q h = elim (Bool-cases (same e.key k)) [
  | inl p ↦ rw p ((h.0.0, rw q refl), h.1)
  | inr p ↦ rw p (h.0, All-amend k response es q h.1)
]

pub remember-IsWhole :
    (k response : Text) (d : MemoryDedupStore)
    → is_empty k ≡ false
    → is_empty response ≡ false
    → All IsWhole d.order
    → All IsWhole (remember k response d).order
unfolding remember insert_locked stored_response
remember-IsWhole k response d q r h = elim (Option-cases (find_entry k d.order)) [
  | inl p ↦ rw (p, remember) (All-snoc _ _ (All-evict d.capacity d.order h) (q, rw r refl))
  | inr (e, p) ↦ rw (p, remember) (All-amend k response d.order r h)
]

pub emptied-remember :
    (k response : Text) (d : MemoryDedupStore) → emptied (remember k response d) ≡ emptied d
unfolding remember insert_locked
emptied-remember k response d = elim (Option-cases (find_entry k d.order)) [
  | inl p ↦ rw (p, remember) refl
  | inr (e, p) ↦ rw (p, remember) refl
]

replay-snapshot :
    (d : MemoryDedupStore)
    → IsBounded d
    → All IsWhole d.order
    → replay (map record_of d.order) (emptied d) ≡ d
replay-snapshot d b w = replay-map d.order (emptied d) w b.within b.distinct

compact-IsRestartable :
    (c : Compaction) (s : FileDedupStore) → IsRestartable s → IsRestartable (compact_locked c s)
unfolding compact_locked
compact-IsRestartable not_written s h = record {
  bounded = h.bounded;
  whole = h.whole;
  replayed = h.replayed;
}
compact-IsRestartable not_renamed s h = record {
  bounded = h.bounded;
  whole = h.whole;
  replayed = λ q. ground (arith, q);
}
compact-IsRestartable not_reopened s h = record {
  bounded = h.bounded;
  whole = h.whole;
  replayed = λ q. ground (arith, q);
}
compact-IsRestartable compacted s h = record {
  bounded = h.bounded;
  whole = h.whole;
  replayed = λ q. replay-snapshot s.mem h.bounded h.whole;
}

-- A log that is one record behind the memory.
pub record IsBehind (r : DedupRecord) (s : FileDedupStore) (d : MemoryDedupStore) : Type 0 where
  pub bounded : IsBounded s.mem
  pub whole : All IsWhole s.mem.order
  pub same_size : emptied s.mem ≡ emptied d
  pub before : s.is_degraded ≡ false → replay s.log (emptied d) ≡ d
  pub has_key : is_empty r.key ≡ false
  pub step : restore_record r d ≡ s.mem

replay_one :
    (r : DedupRecord) (s : FileDedupStore) (d : MemoryDedupStore)
    → IsBehind r s d
    → s.is_degraded ≡ false
    → replay (s.log ++ r ∷ []) (emptied s.mem) ≡ s.mem
unfolding replay
replay_one r s d h q =
    rw (replay-++ s.log (r ∷ []) (emptied s.mem), h.same_size, h.before q, h.has_key) h.step

one_more :
    (r : DedupRecord) (s : FileDedupStore) (d : MemoryDedupStore)
    → IsBehind r s d
    → IsRestartable (record s { log = s.log ++ r ∷ []; appends = suc s.appends })
one_more r s d h = record { bounded = h.bounded; whole = h.whole; replayed = replay_one r s d h }

written-IsRestartable :
    (c : Compaction) (r : DedupRecord) (s : FileDedupStore) (d : MemoryDedupStore)
    → IsBehind r s d
    → IsRestartable (written_line c r s)
unfolding written_line
written-IsRestartable c r s d h = elim (Bool-cases (leb s.compact_at (suc s.appends))) [
  | inl q ↦ rw q (compact-IsRestartable c _ (one_more r s d h))
  | inr q ↦ rw q (one_more r s d h)
]

-- Appending the record that brings the log up to the memory.
pub append-IsRestartable :
    (disk : Disk) (r : DedupRecord) (s : FileDedupStore) (d : MemoryDedupStore)
    → IsBehind r s d
    → IsRestartable (append disk r s)
unfolding append
append-IsRestartable disk r s d h =
    if_holds IsRestartable s.is_degraded _ _
      (λ q. record { bounded = h.bounded; whole = h.whole; replayed = λ p. ground (arith, q, p) })
      (λ q.
        if_holds IsRestartable disk.is_written _ _
          (λ p. written-IsRestartable disk.compaction r s d h)
          (λ p. record { bounded = h.bounded; whole = h.whole; replayed = λ x. ground arith }))
