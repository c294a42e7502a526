-- ===== src/Tests/Receipts.antt =====
-- Retries: the memory of answered messages, its log, and the guard of the recovery requests.
use open_mos.Prelude.{◌≡◌, refl, List, [], ◌∷◌, some, false, true, arith}
use open_mos.Text.{Text, text, same, is_empty}
use open_mos.Dedup.{
  new, conflict, duplicate, MemoryDedupStore, check, remember, restore, response_of, dedup_key,
  find_entry,
}
use open_mos.Dedup.Bounds.{IsBounded, operations-IsBounded}
use open_mos.Dedup.Outcomes.{check-check, check-remember-check}
use open_mos.Dedup.File.{Disk, compacted, open_file_dedup_store}
use open_mos.Dedup.File.Restart.{Receipt, checked, remembered, run, restart_lem}
use open_mos.ResyncGuard.{new_resync_guard, should_request}
use open_mos.ResyncGuard.Limit.{asked, calls, should_request_once}
use open_mos.Dedup.Keys.{dedup_key_inj}

-- A digest that keeps the content.
abbrev identity_hash : Text → Text
identity_hash c = c

abbrev key : Text
key = dedup_key (text "ro") (text "NCS") (text "7")

abbrev small : MemoryDedupStore
small = record { capacity = 2; order = [] }

small-IsBounded : IsBounded small
small-IsBounded = record { positive = omega arith; within = omega arith; distinct = tt }

operations-IsBounded_example :
    IsBounded (check identity_hash key (text "roAck") small).1
    × IsBounded (remember key (text "OK") small)
    × IsBounded (restore key (text "h") (some (text "OK")) small)
operations-IsBounded_example =
    operations-IsBounded identity_hash key (text "roAck") (text "h") (text "OK") (some (text "OK"))
      small small-IsBounded

check-check_example :
    ((check identity_hash key (text "a") small).0 ≡ new)
    × (check identity_hash key (text "b") (check identity_hash key (text "a") small).1
        ≡ (conflict, (check identity_hash key (text "a") small).1))
unfolding find_entry same
check-check_example = check-check identity_hash key (text "a") (text "b") small refl

check-remember-check_example :
    (response_of key (remember key (text "OK") (check identity_hash key (text "a") small).1)
      ≡ some (text "OK"))
    × (check identity_hash key
          (text "a")
          (remember key (text "OK") (check identity_hash key (text "a") small).1)
        ≡ (duplicate, remember key (text "OK") (check identity_hash key (text "a") small).1))
unfolding find_entry same
check-remember-check_example =
    check-remember-check identity_hash key (text "a") (text "a") (text "OK") small refl

abbrev works : Disk
works = record { is_written = true; compaction = compacted }

abbrev traffic : List Receipt
traffic = checked works key (text "a") ∷ remembered works key (text "OK") ∷ []

restart_lem_example :
    (open_file_dedup_store (run identity_hash traffic (open_file_dedup_store [] 2)).log 2).mem
    ≡ (run identity_hash traffic (open_file_dedup_store [] 2)).mem
unfolding is_empty dedup_key run open_file_dedup_store
restart_lem_example = restart_lem identity_hash 2 traffic (refl, ((refl, refl), tt)) refl

should_request_once_example :
    (should_request 20000000000 (text "R") (
      calls
        (asked 10000000000 (text "R") ∷ asked 15000000000 (text "Q") ∷ [])
        (should_request 5 (text "R") new_resync_guard).1)).0
    ≡ false
unfolding should_request is_empty
should_request_once_example =
    should_request_once 5 20000000000 (text "R")
      (asked 10000000000 (text "R") ∷ asked 15000000000 (text "Q") ∷ []) new_resync_guard refl
      (omega arith, (omega arith, tt)) (omega arith)

dedup_key_inj_example : (text "ro" ≡ text "ro") × (text "NCS" ≡ text "NCS") × (text "7" ≡ text "7")
dedup_key_inj_example =
    dedup_key_inj (text "ro") (text "NCS") (text "7") (text "ro") (text "NCS") (text "7")
      (refl, (refl, tt)) (refl, (refl, tt)) (refl, (refl, (refl, tt))) (refl, (refl, (refl, tt)))
      refl
