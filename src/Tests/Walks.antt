-- ===== src/Tests/Walks.antt =====
-- Discovery walks at two running orders.
use open_mos.Prelude.{
  ℕ, ◌≡◌, refl, true, false, Bool, not, ◌&&◌, List, [], ◌∷◌, ◌++◌, none, some, keep, arith,
}
use open_mos.Text.{Text, text, is_empty, is_one_of, same}
use open_mos.Discovery.{
  DiscoveryWalk, DiscoveryRequest, open_discovery_walk, begin, resolved, register_request,
  claim_request, nudge, failed_request, timed_out, begin_queue, outstanding, enqueue_urgent,
  take_or_persist, is_busy,
}
use open_mos.Discovery.Listed.{IsQueue, is_wanted, begin_queue-eq-append}
use open_mos.Discovery.Valid.{IsValid}
use open_mos.Discovery.Reach.{
  opened, next, listed, answered, registered, recovered, restarted, Reach-IsValid,
}
use open_mos.Discovery.Served.{Attempt, serve, begun, serve-begin}
use open_mos.Discovery.Restart.{Resumes, begin-Resumes, resolved-Resumes}
use open_mos.Discovery.Claims.{claim_request-holds}

abbrev dir : Text
dir = text "state"

abbrev a : Text
a = text "A"

abbrev b : Text
b = text "B"

abbrev c : Text
c = text "C"

abbrev fresh : DiscoveryWalk
fresh = open_discovery_walk dir true none

abbrev walking : DiscoveryWalk
walking = (begin 5 true (a ∷ b ∷ a ∷ []) fresh).2

-- The first running order that is asked for is the first that is listed, and a repeated one is queued once.
begun_first : (begin 5 true (a ∷ b ∷ a ∷ []) fresh).0 ≡ some a
unfolding begin take_or_persist open_discovery_walk begin_queue
begun_first = refl

waiting_second : walking.pending ≡ b ∷ []
unfolding begin take_or_persist open_discovery_walk begin_queue
waiting_second = refl

-- A running order that is recovered goes to the front of the queue.
urgent_front : (enqueue_urgent 6 true c walking).1.pending ≡ c ∷ b ∷ []
unfolding begin enqueue_urgent take_or_persist open_discovery_walk begin_queue
urgent_front = refl

Reach-IsValid_example :
    IsValid
      (open_discovery_walk dir true (resolved 9 true a (enqueue_urgent 6 true c walking).1).1.saved)
Reach-IsValid_example = Reach-IsValid (
    next
      (next (next (next (opened dir true) (listed 5 true (a ∷ b ∷ a ∷ []))) (recovered 6 true c))
        (answered 9 true a))
      (restarted dir true))

begin_queue-eq-append_example : begin_queue a (b ∷ c ∷ []) (c ∷ text "D" ∷ b ∷ []) ≡ (
    keep (is_wanted a (c ∷ text "D" ∷ b ∷ [])) (b ∷ c ∷ [])
    ++ keep
        (λ k. is_wanted a (c ∷ text "D" ∷ b ∷ []) k && not (is_one_of (b ∷ c ∷ []) k))
        (c ∷ text "D" ∷ b ∷ []))
unfolding is_empty is_one_of same
begin_queue-eq-append_example =
    begin_queue-eq-append a (b ∷ c ∷ []) (c ∷ text "D" ∷ b ∷ []) (refl, refl, (refl, refl, tt))
      (refl, refl, (refl, refl, (refl, refl, tt)))

abbrev attempt_of : Bool → Attempt
attempt_of is_answered = record {
  sent_at = 6;
  scope = text "ws:ro";
  session = text "s";
  message_id = text "7";
  is_answered = is_answered;
  after = 1;
  written = true;
}

abbrev attempts : List Attempt
attempts = attempt_of true ∷ attempt_of false ∷ []

serve-begin_example :
    ((serve attempts (begun 5 true (a ∷ b ∷ a ∷ []) fresh)).0
      ≡ begin_queue fresh.in_flight fresh.pending (a ∷ b ∷ a ∷ []))
    × ((k : Text)
        → is_one_of (serve attempts (begun 5 true (a ∷ b ∷ a ∷ []) fresh)).0 k
          ≡ (is_one_of (a ∷ b ∷ a ∷ []) k && not (is_empty k)))
    × IsQueue (serve attempts (begun 5 true (a ∷ b ∷ a ∷ []) fresh)).0
    × (outstanding (serve attempts (begun 5 true (a ∷ b ∷ a ∷ []) fresh)).1 ≡ [])
unfolding open_discovery_walk begin_queue is_busy
serve-begin_example = serve-begin 5 true (a ∷ b ∷ a ∷ []) attempts fresh refl (omega arith) refl

begin-Resumes_example : Resumes dir (begin 5 true (a ∷ b ∷ []) fresh).2
unfolding open_discovery_walk begin begin_queue take_or_persist
begin-Resumes_example = begin-Resumes 5 dir (a ∷ b ∷ []) fresh refl refl refl (omega arith)

resolved-Resumes_example : Resumes dir (resolved 8 true walking.in_flight walking).1
unfolding open_discovery_walk begin resolved begin_queue take_or_persist
resolved-Resumes_example = resolved-Resumes 8 dir walking refl refl refl refl (omega arith)

abbrev sent : DiscoveryWalk
sent = (register_request 6 a (text "ws:ro") (text "s") (text "7") false walking).1

abbrev claimed : DiscoveryRequest
claimed = record {
  handle = 0;
  rundown_id = a;
  scope = text "ws:ro";
  session = text "s";
  message_id = text "7";
  native = false;
  replying = true;
  expired = false;
}

claim_request-holds_example :
    let x = (claim_request 7 a (text "ws:ro") (text "s") (text "7") sent).1 in
    ((written : Bool) → nudge 99 written x ≡ (none, x))
    × ((other scope' session' message_id' : Text)
        → claim_request 99 other scope' session' message_id' x ≡ (none, x))
    × ((written : Bool) (h : ℕ) → failed_request 99 written h x ≡ (false, x))
    × (timed_out 99 x ≡ none)
unfolding open_discovery_walk begin register_request claim_request take_or_persist begin_queue
claim_request-holds_example =
    claim_request-holds 7 99 a (text "ws:ro") (text "s") (text "7") claimed sent
      (next (next (opened dir true) (listed 5 true (a ∷ b ∷ a ∷ [])))
        (registered 6 a (text "ws:ro") (text "s") (text "7") false))
      refl
