-- ===== src/Tests/Sequences.antt =====
-- A sequence that is opened for the first time, and one near the limit.
use open_mos.Prelude.{
  ◌≡◌, refl, [], ◌∷◌, none, some, true, All, ◌≤◌, ◌<◌, ◌+◌, ltb, if◌then◌else◌, arith,
}
use open_mos.MessageId.{Sequence, open_sequence, next_value, max_id}
use open_mos.MessageId.Durable.{
  IsReserved, next_value_lem, next_value-IsReserved, open_sequence-IsReserved,
}
use open_mos.MessageId.Reopen.{issue, reopen_lem}
use open_mos.Envelope.{parse_message_id, format_message_id}
use open_mos.Envelope.MessageId.{parse_message_id-format_message_id}
use open_mos.Text.Number.{pos, parse_int}
use open_mos.Text.Trim.{trim_space}
use open_mos.Text.Format.{format_int}

abbrev first_run : Sequence
first_run = open_sequence true none

next_value_lem_example :
    ((next_value true first_run).0 ≡ (if ltb max_id first_run.next then 1 else first_run.next))
    × (1 ≤ (next_value true first_run).0)
    × ((next_value true first_run).0 ≤ max_id)
    × ((next_value true first_run).1.next ≡ (next_value true first_run).0 + 1)
next_value_lem_example = next_value_lem true first_run (open_sequence-IsReserved true none)

next_value-IsReserved_example : IsReserved (next_value true first_run).1
next_value-IsReserved_example =
    next_value-IsReserved true first_run (open_sequence-IsReserved true none)

reopen_lem_example :
    All
      (λ v. v < (open_sequence true (issue (true ∷ true ∷ []) first_run).1.mark).next)
      (issue (true ∷ true ∷ []) first_run).0
unfolding open_sequence issue parse_int trim_space format_int
reopen_lem_example =
    reopen_lem (true ∷ true ∷ []) true first_run (open_sequence-IsReserved true none) (omega arith)
      refl (omega arith)

parse_message_id-format_message_id_example :
    (parse_message_id (format_message_id (pos 2147483650)) ≡ some 3) × (1 ≤ 3) × (3 ≤ max_id)
parse_message_id-format_message_id_example = parse_message_id-format_message_id (pos 2147483650)
