-- ===== src/MessageId.antt =====
-- src/internal/messageid/sequence.go: the durable messageID sequence. The numbers are int64 in the source and
-- stay below 2 ^ 32. The mark is the content of the counter file, none where it cannot be read, and
-- the write and rename of one call either succeed or leave it as it was.
pub mod Durable
pub mod Reopen
pub mod SafeName
use open_mos.Prelude.{
  ℕ, suc, ◌+◌, ◌-◌, Bool, true, false, Option, none, some, ltb, leb, if◌then◌else◌, List, [], ◌∷◌,
  map, ◌==◌, ◌||◌, ◌++◌,
}
use open_mos.Text.{Text, text, is_empty}
use open_mos.Text.Number.{ℤ, pos, negsuc, parse_int}
use open_mos.Text.Trim.{trim_space}
use open_mos.Text.Format.{format_int}

abbrev pub max_id : ℕ
max_id = 2147483647

abbrev pub default_block : ℕ
default_block = 100

-- `is_durable` for a path that is not empty
pub record Sequence : Type 0 where
  pub next : ℕ
  pub reserved_to : ℕ
  pub is_durable : Bool
  pub block : ℕ
  pub is_degraded : Bool
  pub mark : Option Text

-- NewInMemory
unfoldable pub new_in_memory : Sequence
new_in_memory = record {
  next = 1;
  reserved_to = max_id;
  is_durable = false;
  block = default_block;
  is_degraded = true;
  mark = none;
}

abbrev clamped : Option ℤ → ℕ
clamped none = 0
clamped (some (negsuc _)) = 0
clamped (some (pos n)) = if ltb max_id n then max_id else n

-- readMark
unfoldable pub read_mark : Option Text → ℕ
read_mark none = 0
read_mark (some raw) = clamped (parse_int 10 9223372036854775808 (trim_space raw))

abbrev pub clamp : ℕ → ℕ
clamp n = if ltb max_id n then max_id else n

-- reserve, where `is_written` tells whether the write and the rename succeed; true for a nil error
unfoldable pub reserve : Bool → ℕ → Sequence → Bool × Sequence
reserve is_written up_to s =
    if s.is_durable
    then (if is_written
        then (
          true,
          record s {
            reserved_to = clamp up_to;
            mark = some (format_int (clamp up_to));
            is_degraded = false;
          },
        )
        else (false, s))
    else (true, record s { reserved_to = max_id })

-- What Open and Next do with the error of reserve: go on from memory.
unfoldable pub go_on : Bool × Sequence → Sequence
go_on (true, s) = s
go_on (false, s) = record s { is_degraded = true; reserved_to = max_id }

-- The first value after the mark.
unfoldable pub resumed : ℕ → ℕ
resumed recorded = if ltb max_id (recorded + 1) then 1 else recorded + 1

-- Open, of a directory that is there or can be made
unfoldable pub open_sequence : Bool → Option Text → Sequence
unfolding go_on reserve resumed read_mark
open_sequence is_written mark =
    let first = resumed (read_mark mark) in
    go_on (
      reserve is_written (first + default_block - 1) (record {
        next = first;
        reserved_to = 0;
        is_durable = true;
        block = default_block;
        is_degraded = false;
        mark = mark;
      }))

-- The wrap at the limit of the type.
unfoldable pub wrapped : Sequence → Sequence
wrapped s = if ltb max_id s.next then record s { next = 1; reserved_to = 0 } else s

unfoldable pub hand_out : Bool → Sequence → ℕ × Sequence
unfolding go_on reserve
hand_out is_written s =
    let taken = record s { next = suc s.next } in
    (
      s.next,
      if ltb taken.reserved_to s.next
          then go_on (reserve is_written (s.next + s.block - 1) taken)
          else taken,
    )

-- Next, the value before it is printed
unfoldable pub next_value : Bool → Sequence → ℕ × Sequence
unfolding hand_out wrapped
next_value is_written s = hand_out is_written (wrapped s)

-- Next
unfoldable pub next_id : Bool → Sequence → Text × Sequence
unfolding next_value format_int
next_id is_written s = (format_int (next_value is_written s).0, (next_value is_written s).1)

-- The characters that the replacer of safeName turns into an underscore.
unfoldable pub is_unsafe : ℕ → Bool
is_unsafe c =
    c == b'/'
    || c == b'\\'
    || c == b':'
    || c == b'*'
    || c == b'?'
    || c == 34
    || c == b'<'
    || c == b'>'
    || c == b'|'

unfoldable pub safe_byte : ℕ → ℕ
unfolding is_unsafe
safe_byte c = if is_unsafe c then b'_' else c

-- safeName
unfoldable pub safe_name : Text → Text
unfolding safe_byte trim_space
safe_name owner =
    map safe_byte (if is_empty (trim_space owner) then text "default" else owner)
    ++ text ".messageid"
