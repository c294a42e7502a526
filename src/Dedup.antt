-- ===== src/Dedup.antt =====
-- src/internal/server/dedup.go: the bounded memory of answered messages. The order list holds the
-- entries, oldest first. The map of the source finds in it the entry with a key: both are written
-- together in insertLocked, and only for a key that is in neither.
pub mod Bounds
pub mod Keys
pub mod Outcomes
pub mod File
use open_mos.Prelude.{
  ℕ, zero, suc, ◌+◌, Bool, List, [], ◌∷◌, ◌++◌, Option, none, some, length, ltb, leb, if◌then◌else◌,
  ◌==◌,
}
use open_mos.Text.{Text, same, is_empty}

pub data DedupResult : Type 0 where
  new duplicate conflict : DedupResult

-- `response` is none for the nil slice: no response has been stored.
pub record DedupEntry : Type 0 where
  pub key : Text
  pub hash : Text
  pub response : Option Text

pub record MemoryDedupStore : Type 0 where
  pub capacity : ℕ
  pub order : List DedupEntry

abbrev pub default_dedup_capacity : ℕ
default_dedup_capacity = 4096

-- NewMemoryDedupStoreWithCapacity
unfoldable pub new_memory_dedup_store : ℕ → MemoryDedupStore
new_memory_dedup_store capacity = record {
  capacity = if capacity == 0 then default_dedup_capacity else capacity;
  order = [];
}

-- scope + "\x00" + ncsID + "\x00" + messageID
unfoldable pub dedup_key : Text → Text → Text → Text
dedup_key scope ncs_id message_id = scope ++ (0 ∷ (ncs_id ++ (0 ∷ message_id)))

-- d.entries[key]
unfoldable pub find_entry : Text → List DedupEntry → Option DedupEntry
find_entry k [] = none
find_entry k (e ∷ es) = if same e.key k then some e else find_entry k es

-- Writes the entry with a key, through the element that the map holds.
unfoldable pub amend : Text → (DedupEntry → DedupEntry) → List DedupEntry → List DedupEntry
amend k f [] = []
amend k f (e ∷ es) = if same e.key k then f e ∷ es else e ∷ amend k f es

-- The loop of insertLocked: drops the oldest while the store is at its capacity.
unfoldable pub evict : ℕ → List DedupEntry → List DedupEntry
evict capacity [] = []
evict capacity (e ∷ es) =
    let rest = evict capacity es in if leb capacity (length (e ∷ es)) then rest else e ∷ es

-- insertLocked
unfoldable pub insert_locked : DedupEntry → MemoryDedupStore → MemoryDedupStore
unfolding evict
insert_locked e d = record d { order = evict d.capacity d.order ++ e ∷ [] }

-- hashFor; a missing key reads as the empty hash
unfoldable pub hash_for : Text → MemoryDedupStore → Text
unfolding find_entry
hash_for k d = elim (find_entry k d.order) [ none ↦ [] | some e ↦ e.hash ]

-- The digest of the contents, crypto/sha256 in hexadecimal.
module _ (content_hash : Text → Text) where
  -- Check, of the derived key
  unfoldable pub check : Text → Text → MemoryDedupStore → DedupResult × MemoryDedupStore
  unfolding find_entry insert_locked
  check k content d = elim (find_entry k d.order) [
    | none ↦
        (new, insert_locked (record { key = k; hash = content_hash content; response = none }) d)
    | some e ↦ (if same e.hash (content_hash content) then duplicate else conflict, d)
  ]

-- Remember, of the derived key
unfoldable pub remember : Text → Text → MemoryDedupStore → MemoryDedupStore
unfolding find_entry amend insert_locked
remember k response d = elim (find_entry k d.order) [
  | none ↦ insert_locked (record { key = k; hash = []; response = some response }) d
  | some _ ↦ record d { order = amend k (λ e. record e { response = some response }) d.order }
]

-- Response, of the derived key
unfoldable pub response_of : Text → MemoryDedupStore → Option Text
unfolding find_entry
response_of k d = elim (find_entry k d.order) [ none ↦ none | some e ↦ e.response ]

-- Len
abbrev pub size : MemoryDedupStore → ℕ
size d = length d.order

abbrev pub has_bytes : Option Text → Bool
has_bytes none = Bool.false
has_bytes (some r) = if is_empty r then Bool.false else Bool.true

-- An entry that is read back overwrites the hash and the response that it carries.
unfoldable pub overwrite : Text → Option Text → DedupEntry → DedupEntry
overwrite hash response e = record e {
  hash = if is_empty hash then e.hash else hash;
  response = if has_bytes response then response else e.response;
}

-- restore
unfoldable pub restore : Text → Text → Option Text → MemoryDedupStore → MemoryDedupStore
unfolding find_entry amend insert_locked overwrite
restore k hash response d = elim (find_entry k d.order) [
  | none ↦ insert_locked (record { key = k; hash = hash; response = response }) d
  | some _ ↦ record d { order = amend k (overwrite hash response) d.order }
]
