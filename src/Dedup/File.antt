-- ===== src/Dedup/File.antt =====
-- src/internal/server/dedup_file.go: the receipts that outlive a restart. The log is the sequence of its
-- readable records: a line of JSON with the response in base64 is the record it holds, and the response
-- is left out of the line when it has no bytes. What the file system answers to one append, and to the
-- compaction that the append may start, is a value the operation is given. Check and Remember lock the
-- memory, and then the log, one after the other: each is one step here, with no other call in between.
pub mod Replay
pub mod Invariant
pub mod Restart
use open_mos.Prelude.{
  ℕ, suc, ◌+◌, ◌*◌, Bool, true, false, List, [], ◌∷◌, ◌++◌, map, Option, none, some, leb,
  if◌then◌else◌,
}
use open_mos.Text.{Text, is_empty}
use open_mos.Dedup.{
  DedupResult, new, duplicate, conflict, DedupEntry, MemoryDedupStore, new_memory_dedup_store,
  check, remember, response_of, restore, hash_for, has_bytes,
}

-- One line; `response` is none for the member that is left out.
pub record DedupRecord : Type 0 where
  pub key : Text
  pub hash : Text
  pub response : Option Text

-- How the rewriting of the log ends: before the rename, at it, after it, or well.
pub data Compaction : Type 0 where
  not_written not_renamed not_reopened compacted : Compaction

-- What the file system does for one append.
pub record Disk : Type 0 where
  pub is_written : Bool
  pub compaction : Compaction

pub record FileDedupStore : Type 0 where
  pub mem : MemoryDedupStore
  pub log : List DedupRecord
  pub appends : ℕ
  pub compact_at : ℕ
  pub is_degraded : Bool

-- The response as the line has it, and as it is read back.
unfoldable pub stored_response : Option Text → Option Text
stored_response none = none
stored_response (some r) = if is_empty r then none else some r

unfoldable pub record_of : DedupEntry → DedupRecord
unfolding stored_response
record_of e = record { key = e.key; hash = e.hash; response = stored_response e.response }

unfoldable pub restore_record : DedupRecord → MemoryDedupStore → MemoryDedupStore
unfolding restore
restore_record r d = restore r.key r.hash r.response d

-- replay
unfoldable pub replay : List DedupRecord → MemoryDedupStore → MemoryDedupStore
unfolding restore_record
replay [] d = d
replay (r ∷ rs) d = replay rs (if is_empty r.key then d else restore_record r d)

-- OpenFileDedupStore, of a directory that can be written to
unfoldable pub open_file_dedup_store : List DedupRecord → ℕ → FileDedupStore
unfolding replay new_memory_dedup_store
open_file_dedup_store log capacity = record {
  mem = replay log (new_memory_dedup_store capacity);
  log = log;
  appends = 0;
  compact_at = (new_memory_dedup_store capacity).capacity * 4;
  is_degraded = false;
}

-- compactLocked
unfoldable pub compact_locked : Compaction → FileDedupStore → FileDedupStore
unfolding record_of
compact_locked not_written s = record s { appends = 0 }
compact_locked not_renamed s = record s { is_degraded = true }
compact_locked not_reopened s = record s { log = map record_of s.mem.order; is_degraded = true }
compact_locked compacted s = record s { log = map record_of s.mem.order; appends = 0 }

-- A line that is written starts a compaction when it is one of many.
unfoldable pub written_line : Compaction → DedupRecord → FileDedupStore → FileDedupStore
unfolding compact_locked
written_line c r s =
    let written = record s { log = s.log ++ r ∷ []; appends = suc s.appends } in
    if leb s.compact_at written.appends then compact_locked c written else written

-- append; a line that is not written whole is not read back
unfoldable pub append : Disk → DedupRecord → FileDedupStore → FileDedupStore
unfolding written_line
append disk r s =
    if s.is_degraded
    then s
    else (if disk.is_written
        then written_line disk.compaction r s
        else record s { is_degraded = true })

-- FileDedupStore.Remember, of the derived key
unfoldable pub remember_receipt : Disk → Text → Text → FileDedupStore → FileDedupStore
unfolding remember hash_for append stored_response
remember_receipt disk k response s =
    let m = remember k response s.mem in
    append disk
      (record { key = k; hash = hash_for k m; response = stored_response (some response) })
      (record s { mem = m })

abbrev pub receipt_response : Text → FileDedupStore → Option Text
receipt_response k s = response_of k s.mem

module _ (content_hash : Text → Text) where
  -- The record that FileDedupStore.Check appends, when it appends one.
  unfoldable pub log_check : Disk → Text → Text → DedupResult → FileDedupStore → FileDedupStore
  unfolding append
  log_check disk k content new s =
      append disk (record { key = k; hash = content_hash content; response = none }) s
  log_check disk k content duplicate s = s
  log_check disk k content conflict s = s

  -- FileDedupStore.Check, of the derived key
  unfoldable pub check_receipt : Disk → Text → Text → FileDedupStore → DedupResult × FileDedupStore
  unfolding check log_check
  check_receipt disk k content s =
      let outcome = check content_hash k content s.mem in
      (outcome.0, log_check disk k content outcome.0 (record s { mem = outcome.1 }))
