-- ===== src/Discovery/Listed.antt =====
-- begin of src/internal/server/discovery.go: the queue that a roListAll leaves.
use open_mos.Prelude.{
  ℕ, zero, suc, ◌≤◌, ◌≡◌, refl, Bool, true, false, not, ◌&&◌, ◌||◌, List, [], ◌∷◌, ◌++◌, arith,
  Bool-cases, inl, inr, keep, take, length, ap₂,
}
use open_mos.Text.{Text, same, is_empty, is_one_of}
use open_mos.Text.Order.{same_iff, same_refl}
use open_mos.Table.{Table, lookup, put, remove}
use open_mos.Table.Laws.{lookup-put, lookup-remove}
use open_mos.Discovery.{is_set, listed_ids, enqueue, begin_queue}

-- Identifiers to ask for: none is empty, and none stands twice.
abbrev pub IsQueue : List Text → Type 0
IsQueue [] = Unit
IsQueue (id ∷ ids) = (is_empty id ≡ false) × (is_one_of ids id ≡ false) × IsQueue ids

-- What begin takes from a roListAll: an identifier of it that is not empty and not in flight.
abbrev pub is_wanted : Text → List Text → Text → Bool
is_wanted in_flight ids k = is_one_of ids k && not (is_empty k || same k in_flight)

-- What is still to be queued of the map.
abbrev is_listed : Table Bool → Text → Bool
is_listed t k = is_set (lookup k t)

is_listed-listed_ids :
    (f k : Text) (ids : List Text) (t : Table Bool)
    → is_listed (listed_ids f ids t) k ≡ (is_listed t k || is_wanted f ids k)
unfolding listed_ids is_one_of
is_listed-listed_ids f k [] t = ground arith
is_listed-listed_ids f k (id ∷ ids) t = elim (Bool-cases (is_empty id || same id f)) [
  | inl q ↦ rw q (
      ground (arith, is_listed-listed_ids f k ids t, same_iff id k, same_iff id f, same_iff k f, q))
  | inr q ↦ rw q (
      ground (
        arith,
        is_listed-listed_ids f k ids (put id true t),
        lookup-put id k true t,
        same_iff id k,
        same_iff id f,
        same_iff k f,
        q,
      ))
]

-- The loop queues what stands both in the list and in the map, and takes it from the map.
pub enqueue_lem :
    (k : Text) (ids : List Text) (t : Table Bool)
    → (is_one_of (enqueue ids t).0 k ≡ (is_one_of ids k && is_listed t k))
      × (is_listed (enqueue ids t).1 k ≡ (is_listed t k && not (is_one_of ids k)))
unfolding enqueue is_one_of
enqueue_lem k [] t = (refl, ground arith)
enqueue_lem k (id ∷ ids) t = ground (
  arith,
  enqueue_lem k ids t,
  enqueue_lem k ids (remove id t),
  lookup-remove id k t,
  same_iff id k,
)

IsQueue-enqueue :
    (ids : List Text) (t : Table Bool) → is_listed t [] ≡ false → IsQueue (enqueue ids t).0
unfolding enqueue is_empty
IsQueue-enqueue [] t h = tt
IsQueue-enqueue (id ∷ ids) t h = ground (
  arith,
  IsQueue-enqueue ids t,
  IsQueue-enqueue ids (remove id t),
  enqueue_lem id ids (remove id t),
  lookup-remove id id t,
  lookup-remove id [] t,
  same_iff id [],
  same_refl id,
)

pub is_one_of-append :
    (k : Text) (xs ys : List Text) → is_one_of (xs ++ ys) k ≡ (is_one_of xs k || is_one_of ys k)
unfolding is_one_of
is_one_of-append k [] ys = refl
is_one_of-append k (x ∷ xs) ys = ground (arith, is_one_of-append k xs ys)

IsQueue-append :
    (xs ys : List Text)
    → IsQueue xs
    → IsQueue ys
    → ((k : Text) → is_one_of xs k ≡ true → is_one_of ys k ≡ false)
    → IsQueue (xs ++ ys)
unfolding is_one_of
IsQueue-append [] ys h k d = k
IsQueue-append (x ∷ xs) ys h k d = (
  h.0,
  ground (arith, is_one_of-append x xs ys, d x, same_refl x, h.1),
  IsQueue-append xs ys h.2 k (λ j e. ground (arith, d j, e)),
)

pub is_one_of-take :
    (n : ℕ) (k : Text) (ids : List Text)
    → is_one_of ids k ≡ false
    → is_one_of (take n ids) k ≡ false
unfolding is_one_of
is_one_of-take zero k ids h = refl
is_one_of-take (suc n) k [] h = refl
is_one_of-take (suc n) k (id ∷ ids) h = ground (arith, is_one_of-take n k ids)

pub length-take-le : (n : ℕ) (ids : List Text) → length (take n ids) ≤ n
length-take-le zero ids = omega arith
length-take-le (suc n) [] = omega arith
length-take-le (suc n) (id ∷ ids) = omega (arith, length-take-le n ids)

-- The queue of a roListAll holds exactly the identifiers of it that are not empty and not in flight.
pub is_one_of-begin_queue :
    (f k : Text) (pending ids : List Text)
    → is_one_of (begin_queue f pending ids) k ≡ is_wanted f ids k
unfolding begin_queue
is_one_of-begin_queue f k pending ids =
    let t = listed_ids f ids [] in
    let first = enqueue pending t in
    rw (is_one_of-append k first.0 (enqueue ids first.1).0) (
      ground (
        arith,
        enqueue_lem k pending t,
        enqueue_lem k ids first.1,
        is_listed-listed_ids f k ids [],
      ))

pub IsQueue-begin_queue : (f : Text) (pending ids : List Text) → IsQueue (begin_queue f pending ids)
unfolding begin_queue is_empty
IsQueue-begin_queue f pending ids =
    let t = listed_ids f ids [] in
    let first = enqueue pending t in
    IsQueue-append first.0 (enqueue ids first.1).0
      (IsQueue-enqueue pending t (ground (arith, is_listed-listed_ids f [] ids [])))
      (IsQueue-enqueue ids first.1
        (ground (arith, is_listed-listed_ids f [] ids [], enqueue_lem [] pending t)))
      (λ k e. ground (arith, enqueue_lem k pending t, enqueue_lem k ids first.1, e))

keep-remove :
    (id : Text) (ids : List Text) (t : Table Bool)
    → is_one_of ids id ≡ false
    → keep (is_listed (remove id t)) ids ≡ keep (is_listed t) ids
unfolding is_one_of
keep-remove id [] t h = refl
keep-remove id (j ∷ ids) t h =
    ground (arith, keep-remove id ids t, lookup-remove id j t, same_iff id j, same_iff j id)

keep_ext :
    (p q : Text → Bool) (ids : List Text) → ((k : Text) → p k ≡ q k) → keep p ids ≡ keep q ids
keep_ext p q [] h = refl
keep_ext p q (id ∷ ids) h = rw (h id, keep_ext p q ids h)

enqueue-keep :
    (ids : List Text) (t : Table Bool) → IsQueue ids → (enqueue ids t).0 ≡ keep (is_listed t) ids
unfolding enqueue
enqueue-keep [] t h = refl
enqueue-keep (id ∷ ids) t h =
    ground (arith, enqueue-keep ids t, enqueue-keep ids (remove id t), keep-remove id ids t)

-- Where neither the queue nor the roListAll names a running order twice, begin queues first what waited
-- and is still listed, in the order of the queue, and then what the NCS lists besides, in the order of
-- the NCS.
pub begin_queue-eq-append :
    (f : Text) (pending ids : List Text)
    → IsQueue pending
    → IsQueue ids
    → begin_queue f pending ids ≡ (
        keep (is_wanted f ids) pending
        ++ keep (λ k. is_wanted f ids k && not (is_one_of pending k)) ids)
unfolding begin_queue
begin_queue-eq-append f pending ids h i =
    let t = listed_ids f ids [] in
    let first = enqueue pending t in
    rw (enqueue-keep pending t h) (
      rw (enqueue-keep ids first.1 i) (
        ap₂ (λ (x y : List Text). x ++ y)
          (keep_ext (is_listed t) (is_wanted f ids) pending
            (λ k. ground (arith, is_listed-listed_ids f k ids [])))
          (keep_ext (is_listed first.1) _ ids
            (λ k. ground (arith, is_listed-listed_ids f k ids [], enqueue_lem k pending t)))))

pub IsQueue-take : (n : ℕ) (ids : List Text) → IsQueue ids → IsQueue (take n ids)
IsQueue-take zero ids h = tt
IsQueue-take (suc n) [] h = tt
IsQueue-take (suc n) (id ∷ ids) h = (h.0, is_one_of-take n id ids h.1, IsQueue-take n ids h.2)
