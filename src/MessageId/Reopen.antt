-- ===== src/MessageId/Reopen.antt =====
-- src/internal/messageid/sequence.go: no identifier is issued again after a restart.
use open_mos.Prelude.{
  ℕ, ◌+◌, ◌-◌, ◌<◌, ◌≤◌, ◌≡◌, Bool, false, Option, arith, List, ◌∷◌, length, All, All-mono,
}
use open_mos.Text.{Text}
use open_mos.MessageId.{
  Sequence, max_id, default_block, read_mark, resumed, open_sequence, wrapped, next_value,
}
use mathlib.Core.List.{[]}
use open_mos.MessageId.Durable.{
  found, IsReserved, next_value-IsReserved, reserve-next, hand_out-next, wrapped-next,
}

-- Next as often as there are writes to try, with the values in the order they are handed out.
unfoldable pub issue : List Bool → Sequence → List ℕ × Sequence
unfolding next_value
issue [] s = ([], s)
issue (w ∷ ws) s =
    let later = issue ws (next_value w s).1 in ((next_value w s).0 ∷ later.0, later.1)

issue-IsReserved : (ws : List Bool) (s : Sequence) → IsReserved s → IsReserved (issue ws s).1
unfolding issue
issue-IsReserved [] s h = h
issue-IsReserved (w ∷ ws) s h = issue-IsReserved ws (next_value w s).1 (next_value-IsReserved w s h)

next_value_unwrapped :
    (w : Bool) (s : Sequence)
    → s.next ≤ max_id
    → ((next_value w s).0 ≡ s.next) × ((next_value w s).1.next ≡ s.next + 1)
unfolding next_value
next_value_unwrapped w s h = (
  ground (arith, wrapped-next s, h),
  ground (arith, wrapped-next s, h, hand_out-next w (wrapped s)),
)

issue_unwrapped :
    (ws : List Bool) (s : Sequence)
    → s.next + length ws ≤ max_id + 1
    → ((issue ws s).1.next ≡ s.next + length ws) × All (λ v. v < s.next + length ws) (issue ws s).0
unfolding issue
issue_unwrapped [] s h = (omega arith, tt)
issue_unwrapped (w ∷ ws) s h =
    let u = next_value_unwrapped w s (omega (arith, h)) in
    let r = issue_unwrapped ws (next_value w s).1 (omega (arith, h, u.1)) in
    (
      omega (arith, r.0, u.1),
      (
        omega (arith, u.0),
        All-mono _ _ (issue ws (next_value w s).1).0 (λ v p. omega (arith, p, u.1)) r.1,
      ),
    )

open_sequence-next :
    (w : Bool) (mark : Option Text) → (open_sequence w mark).next ≡ resumed (read_mark mark)
unfolding open_sequence
open_sequence-next w mark =
    reserve-next w (resumed (read_mark mark) + default_block - 1) (found mark)

-- A restart issues no identifier again. From any sequence that Open or Next left behind, let Next be called
-- any number of times before the limit of the type is reached, the writes of the mark failing or not. If the
-- sequence is not degraded at the end and the mark has not reached the limit either, then every value handed
-- out is below the first one of a sequence that is opened on the mark left on disk.
pub reopen_lem :
    (ws : List Bool) (w : Bool) (s : Sequence)
    → IsReserved s
    → s.next + length ws ≤ max_id + 1
    → (issue ws s).1.is_degraded ≡ false
    → read_mark (issue ws s).1.mark < max_id
    → All (λ v. v < (open_sequence w (issue ws s).1.mark).next) (issue ws s).0
unfolding resumed
reopen_lem ws w s h r q m =
    let u = issue_unwrapped ws s r in
    let after = issue-IsReserved ws s h in
    All-mono _ _ (issue ws s).0
      (λ v p.
        ground (
          arith,
          p,
          u.0,
          after.covered q,
          after.stored q,
          open_sequence-next w (issue ws s).1.mark,
        ))
      u.1
