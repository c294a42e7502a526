-- ===== src/MessageId/Durable.antt =====
-- src/internal/messageid/sequence.go: the mark on disk covers every identifier that is issued.
use open_mos.Prelude.{
  ℕ, suc, ◌+◌, ◌-◌, ◌≤◌, ◌≡◌, refl, ◌∙◌, Bool, true, false, Option, some, ltb, if◌then◌else◌, arith,
  if_holds,
}
use open_mos.Text.{Text}
use open_mos.Text.Format.{format_int, parse_int-format_int, trim_space_digits, format_int-IsDigit}
use open_mos.MessageId.{
  Sequence, max_id, clamp, default_block, new_in_memory, read_mark, reserve, go_on, resumed,
  open_sequence, wrapped, hand_out, next_value,
}

-- What is known of every sequence: the next value is in range or one above it, and while the sequence is
-- not degraded the mark on disk is the value reserved, which no value issued so far exceeds.
pub record IsReserved (s : Sequence) : Type 0 where
  pub positive : 1 ≤ s.next
  pub ranged : s.next ≤ max_id + 1
  pub has_block : 1 ≤ s.block
  pub stored : s.is_degraded ≡ false → read_mark s.mark ≡ s.reserved_to
  pub covered : s.is_degraded ≡ false → s.next ≤ s.reserved_to + 1
  pub durable : s.is_durable ≡ false → s.is_degraded ≡ true

read_mark-format_int : (n : ℕ) → n ≤ max_id → read_mark (some (format_int n)) ≡ n
unfolding read_mark
read_mark-format_int n h =
    rw
      (
        trim_space_digits (format_int n) (format_int-IsDigit n),
        parse_int-format_int 9223372036854775808 n (omega arith),
      )
      (ground arith)

pub new_in_memory-IsReserved : IsReserved new_in_memory
unfolding new_in_memory
new_in_memory-IsReserved = record {
  positive = omega arith;
  ranged = omega arith;
  has_block = omega arith;
  stored = λ q. ground (arith, q);
  covered = λ q. ground (arith, q);
  durable = λ q. refl;
}

-- A sequence that has just taken a value, before a range is reserved.
record IsTaken (up_to : ℕ) (s : Sequence) : Type 0 where
  positive : 1 ≤ s.next
  ranged : s.next ≤ max_id + 1
  has_block : 1 ≤ s.block
  reaches : s.next ≤ up_to + 1
  durable : s.is_durable ≡ false → s.is_degraded ≡ true

written-IsReserved :
    (up_to : ℕ) (s : Sequence)
    → IsTaken up_to s
    → s.is_durable ≡ true
    → IsReserved (record s {
      reserved_to = clamp up_to;
      mark = some (format_int (clamp up_to));
      is_degraded = false;
    })
written-IsReserved up_to s h q = record {
  positive = h.positive;
  ranged = h.ranged;
  has_block = h.has_block;
  stored = λ _. read_mark-format_int (clamp up_to) (ground arith);
  covered = λ _. ground (arith, h.ranged, h.reaches);
  durable = λ p. ground (arith, p, q);
}

degraded-IsReserved :
    (up_to : ℕ) (s : Sequence)
    → IsTaken up_to s
    → s.is_degraded ≡ true
    → IsReserved (record s { reserved_to = max_id })
degraded-IsReserved up_to s h q = record {
  positive = h.positive;
  ranged = h.ranged;
  has_block = h.has_block;
  stored = λ p. ground (arith, p, q);
  covered = λ p. ground (arith, p, q);
  durable = λ _. q;
}

reserve-IsReserved :
    (is_written : Bool) (up_to : ℕ) (s : Sequence)
    → IsTaken up_to s
    → IsReserved (go_on (reserve is_written up_to s))
unfolding reserve go_on
reserve-IsReserved is_written up_to s h =
    if_holds (λ r. IsReserved (go_on r)) s.is_durable _ _
      (λ q.
        if_holds (λ r. IsReserved (go_on r)) is_written _ _ (λ _. written-IsReserved up_to s h q)
          (λ _.
            degraded-IsReserved up_to (record s { is_degraded = true })
              (record {
                positive = h.positive;
                ranged = h.ranged;
                has_block = h.has_block;
                reaches = h.reaches;
                durable = λ _. refl;
              })
              refl))
      (λ q. degraded-IsReserved up_to s h (h.durable q))

-- The sequence of Open before its first reservation.
abbrev pub found : Option Text → Sequence
found mark = record {
  next = resumed (read_mark mark);
  reserved_to = 0;
  is_durable = true;
  block = default_block;
  is_degraded = false;
  mark = mark;
}

pub open_sequence-IsReserved :
    (is_written : Bool) (mark : Option Text) → IsReserved (open_sequence is_written mark)
unfolding open_sequence resumed
open_sequence-IsReserved is_written mark =
    reserve-IsReserved is_written (resumed (read_mark mark) + default_block - 1) (found mark)
      (record {
        positive = ground arith;
        ranged = ground arith;
        has_block = omega arith;
        reaches = omega arith;
        durable = λ q. ground (arith, q);
      })

hand_out-IsReserved :
    (is_written : Bool) (s : Sequence)
    → IsReserved s
    → s.next ≤ max_id
    → IsReserved (hand_out is_written s).1
unfolding hand_out
hand_out-IsReserved is_written s h r =
    if_holds IsReserved (ltb s.reserved_to s.next) _ _
      (λ q.
        reserve-IsReserved is_written (s.next + s.block - 1) (record s { next = suc s.next })
          (record {
            positive = omega arith;
            ranged = omega arith;
            has_block = h.has_block;
            reaches = omega (arith, h.has_block, h.positive);
            durable = h.durable;
          }))
      (λ q. record {
        positive = omega arith;
        ranged = omega arith;
        has_block = h.has_block;
        stored = h.stored;
        covered = λ p. ground arith;
        durable = h.durable;
      })

hand_out_first :
    (is_written : Bool) (s : Sequence)
    → IsReserved s
    → IsReserved (hand_out is_written (record s { next = 1; reserved_to = 0 })).1
unfolding hand_out
hand_out_first is_written s h =
    reserve-IsReserved is_written (1 + s.block - 1) (record s { next = 2; reserved_to = 0 })
      (record {
        positive = omega arith;
        ranged = omega arith;
        has_block = h.has_block;
        reaches = omega (arith, h.has_block);
        durable = h.durable;
      })

pub next_value-IsReserved :
    (is_written : Bool) (s : Sequence) → IsReserved s → IsReserved (next_value is_written s).1
unfolding next_value wrapped
next_value-IsReserved is_written s h =
    if_holds (λ w. IsReserved (hand_out is_written w).1) (ltb max_id s.next) _ _
      (λ q. hand_out_first is_written s h) (λ q. hand_out-IsReserved is_written s h (ground arith))

pub reserve-next :
    (is_written : Bool) (up_to : ℕ) (s : Sequence)
    → (go_on (reserve is_written up_to s)).next ≡ s.next
unfolding reserve go_on
reserve-next is_written up_to s =
    if_holds (λ r. (go_on r).next ≡ s.next) s.is_durable _ _
      (λ _. if_holds (λ r. (go_on r).next ≡ s.next) is_written _ _ (λ _. refl) (λ _. refl))
      (λ _. refl)

pub hand_out-next : (is_written : Bool) (s : Sequence) → (hand_out is_written s).1.next ≡ s.next + 1
unfolding hand_out
hand_out-next is_written s =
    if_holds (λ (r : Sequence). r.next ≡ s.next + 1) (ltb s.reserved_to s.next) _ _
      (λ _.
        reserve-next is_written (s.next + s.block - 1) (record s { next = suc s.next })
        ∙ omega arith)
      (λ _. omega arith)

pub wrapped-next : (s : Sequence) → (wrapped s).next ≡ (if ltb max_id s.next then 1 else s.next)
unfolding wrapped
wrapped-next s = ground arith

-- Next hands out the value after the last one, or 1 when the limit of the type is passed; it is always
-- from 1 to 2147483647, and the value after it is next, whether or not the mark can be written.
pub next_value_lem :
    (is_written : Bool) (s : Sequence)
    → IsReserved s
    → ((next_value is_written s).0 ≡ (if ltb max_id s.next then 1 else s.next))
      × (1 ≤ (next_value is_written s).0)
      × ((next_value is_written s).0 ≤ max_id)
      × ((next_value is_written s).1.next ≡ (next_value is_written s).0 + 1)
unfolding next_value wrapped hand_out
next_value_lem is_written s h = (
  wrapped-next s,
  ground (arith, wrapped-next s, h.positive),
  ground (arith, wrapped-next s, h.ranged),
  hand_out-next is_written (wrapped s),
)
