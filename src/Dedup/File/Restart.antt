-- ===== src/Dedup/File/Restart.antt =====
-- src/internal/server/dedup_file.go: a store that is opened again after a restart.
use open_mos.Prelude.{
  ℕ, List, ◌≡◌, All, false, arith, Option-cases, ◌++◌, ◌∷◌, [], Bool-cases, inl, inr, refl, suc,
  ◌∙◌, subst, none,
}
use open_mos.Dedup.{insert_locked, find_entry, new_memory_dedup_store}
use open_mos.Dedup.File.{
  compacted, FileDedupStore, append, Disk, compact_locked, Compaction, stored_response,
  written_line, replay, DedupRecord, restore_record, not_written, not_renamed, not_reopened,
  remember_receipt, check_receipt, log_check, open_file_dedup_store,
}
use open_mos.Text.{is_empty, Text, same}
use open_mos.Dedup.Bounds.{remember-IsBounded, insert_locked-IsBounded}
use open_mos.Dedup.File.Replay.{emptied, restore_remembered, restore_absent}
use open_mos.Dedup.Outcomes.{check_new, check_again}
use open_mos.Dedup.File.Invariant.{
  IsRestartable, All-evict, All-snoc, remember-IsWhole, emptied-remember, append-IsRestartable,
}

-- One call of the store, with what the file system does for it.
pub data Receipt : Type 0 where
  checked : Disk → Text → Text → Receipt
  remembered : Disk → Text → Text → Receipt

-- The calls that the server makes: the key of a message has bytes, and so has the response to it.
abbrev pub IsProper : Receipt → Type 0
IsProper (checked disk k content) = is_empty k ≡ false
IsProper (remembered disk k response) = (is_empty k ≡ false) × (is_empty response ≡ false)

module _ (content_hash : Text → Text) where
  unfoldable pub step : Receipt → FileDedupStore → FileDedupStore
  unfolding check_receipt remember_receipt
  step (checked disk k content) s = (check_receipt content_hash disk k content s).1
  step (remembered disk k response) s = remember_receipt disk k response s

  unfoldable pub run : List Receipt → FileDedupStore → FileDedupStore
  unfolding step
  run [] s = s
  run (r ∷ rs) s = run rs (step r s)

  check_receipt-IsRestartable :
      (disk : Disk) (k content : Text) (s : FileDedupStore)
      → is_empty k ≡ false
      → IsRestartable s
      → IsRestartable (check_receipt content_hash disk k content s).1
  unfolding check_receipt log_check restore_record insert_locked stored_response
  check_receipt-IsRestartable disk k content s q h =
      elim (Option-cases (find_entry k s.mem.order)) [
        | inl p ↦ rw (check_new content_hash k content s.mem p) (
            append-IsRestartable disk _ _ s.mem (record {
              bounded = insert_locked-IsBounded _ s.mem h.bounded p;
              whole = All-snoc _ _ (All-evict s.mem.capacity s.mem.order h.whole) (q, refl);
              same_size = refl;
              before = h.replayed;
              has_key = q;
              step = restore_absent k (content_hash content) none s.mem p;
            }))
        | inr (e, p) ↦ elim (Bool-cases (same e.hash (content_hash content))) [
          | inl z ↦ rw (check_again content_hash k content s.mem e p, z) h
          | inr z ↦ rw (check_again content_hash k content s.mem e p, z) h
        ]
      ]

  remember_receipt-IsRestartable :
      (disk : Disk) (k response : Text) (s : FileDedupStore)
      → is_empty k ≡ false
      → is_empty response ≡ false
      → IsRestartable s
      → IsRestartable (remember_receipt disk k response s)
  unfolding remember_receipt restore_record stored_response
  remember_receipt-IsRestartable disk k response s q r h =
      append-IsRestartable disk _ _ s.mem (record {
        bounded = remember-IsBounded k response s.mem h.bounded;
        whole = remember-IsWhole k response s.mem q r h.whole;
        same_size = emptied-remember k response s.mem;
        before = h.replayed;
        has_key = q;
        step = rw r (restore_remembered k response s.mem r);
      })

  step-IsRestartable :
      (r : Receipt) (s : FileDedupStore) → IsProper r → IsRestartable s → IsRestartable (step r s)
  unfolding step
  step-IsRestartable (checked disk k content) s q h =
      check_receipt-IsRestartable disk k content s q h
  step-IsRestartable (remembered disk k response) s q h =
      remember_receipt-IsRestartable disk k response s q.0 q.1 h

  run-IsRestartable :
      (rs : List Receipt) (s : FileDedupStore)
      → All IsProper rs
      → IsRestartable s
      → IsRestartable (run rs s)
  unfolding run
  run-IsRestartable [] s q h = h
  run-IsRestartable (r ∷ rs) s q h =
      run-IsRestartable rs (step r s) q.1 (step-IsRestartable r s q.0 h)

  compact_locked-mem : (c : Compaction) (s : FileDedupStore) → (compact_locked c s).mem ≡ s.mem
  unfolding compact_locked
  compact_locked-mem not_written s = refl
  compact_locked-mem not_renamed s = refl
  compact_locked-mem not_reopened s = refl
  compact_locked-mem compacted s = refl

  append-mem : (disk : Disk) (r : DedupRecord) (s : FileDedupStore) → (append disk r s).mem ≡ s.mem
  unfolding append written_line
  append-mem disk r s = ground (
    arith,
    compact_locked-mem disk.compaction
        (record s { log = s.log ++ r ∷ []; appends = suc s.appends }),
  )

  step-emptied : (r : Receipt) (s : FileDedupStore) → emptied (step r s).mem ≡ emptied s.mem
  unfolding step check_receipt remember_receipt log_check insert_locked
  step-emptied (checked disk k content) s = elim (Option-cases (find_entry k s.mem.order)) [
    | inl p ↦ rw (check_new content_hash k content s.mem p, append-mem) refl
    | inr (e, p) ↦ elim (Bool-cases (same e.hash (content_hash content))) [
      | inl z ↦ rw (check_again content_hash k content s.mem e p, z) refl
      | inr z ↦ rw (check_again content_hash k content s.mem e p, z) refl
    ]
  ]
  step-emptied (remembered disk k response) s = rw (append-mem) (emptied-remember k response s.mem)

  run-emptied : (rs : List Receipt) (s : FileDedupStore) → emptied (run rs s).mem ≡ emptied s.mem
  unfolding run
  run-emptied [] s = refl
  run-emptied (r ∷ rs) s = run-emptied rs (step r s) ∙ step-emptied r s

  new-IsRestartable : (capacity : ℕ) → IsRestartable (open_file_dedup_store [] capacity)
  unfolding open_file_dedup_store new_memory_dedup_store replay
  new-IsRestartable capacity = record {
    bounded = record { positive = ground arith; within = omega arith; distinct = tt };
    whole = tt;
    replayed = λ q. refl;
  }

  -- Let a store with an empty log serve any sequence of messages that have a key and responses that
  -- have bytes, while the file system fails however it does. As long as the store is not degraded, a
  -- restart reads back from the log exactly the receipts that were held in memory.
  pub restart_lem :
      (capacity : ℕ) (rs : List Receipt)
      → All IsProper rs
      → (run rs (open_file_dedup_store [] capacity)).is_degraded ≡ false
      → (open_file_dedup_store (run rs (open_file_dedup_store [] capacity)).log capacity).mem
        ≡ (run rs (open_file_dedup_store [] capacity)).mem
  unfolding open_file_dedup_store replay
  restart_lem capacity rs q h =
      let after = run rs (open_file_dedup_store [] capacity) in
      subst (λ d. replay after.log d ≡ after.mem)
        (run-emptied rs (open_file_dedup_store [] capacity))
        ((run-IsRestartable rs (open_file_dedup_store [] capacity) q
            (new-IsRestartable capacity)).replayed
          h)
