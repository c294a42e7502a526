-- ===== src/Envelope.antt =====
-- src/internal/xml/envelope_validate.go: the envelope that each generation of the protocol requires, and the
-- messageIDs that are minted. The payload is the result of Envelope.Message (src/internal/xml/messages.go), by
-- its type.
pub mod MessageId
pub mod Identity
use open_mos.Prelude.{
  ℕ, ◌+◌, ◌-◌, ◌%◌, Bool, true, false, ◌||◌, List, [], ◌∷◌, Option, none, some, ltb, leb, ◌==◌,
  if◌then◌else◌, not, ◌&&◌,
}
use open_mos.Text.{Text, same, is_empty}
use open_mos.Text.Number.{ℤ, pos, negsuc, parse_int}
use open_mos.Text.Format.{format_int}
use open_mos.Outcome.{Result, ok, err, Error, failed, ◌>>=◌}

pub data Generation : Type 0 where
  gen_2x gen_3x gen_4x : Generation

-- The types of message that the rules tell apart.
pub data PayloadType : Type 0 where
  keep_alive mos_ack ro_ack ncs_ack other : PayloadType

pub record Envelope : Type 0 where
  pub mos_id : Text
  pub ncs_id : Text
  pub message_id : Text
  pub message : Result PayloadType

-- RequiresMessageID
unfoldable pub requires_message_id : Generation → PayloadType → Bool
requires_message_id _ keep_alive = false
requires_message_id gen_2x _ = false
requires_message_id _ _ = true

-- inboundExemptFromMessageID
unfoldable pub inbound_exempt_from_message_id : PayloadType → Bool
inbound_exempt_from_message_id mos_ack = true
inbound_exempt_from_message_id ro_ack = true
inbound_exempt_from_message_id ncs_ack = true
inbound_exempt_from_message_id _ = false

-- AcceptInboundMessageID; true for a nil error
unfoldable pub accept_inbound_message_id : Generation → PayloadType → Text → Bool
unfolding requires_message_id inbound_exempt_from_message_id
accept_inbound_message_id gen p raw =
    if inbound_exempt_from_message_id p
    then true
    else (if requires_message_id gen p then not (is_empty raw) else true)

-- The prefixes of a hexadecimal messageID, cut, with the base.
unfoldable pub message_id_base : Text → Text × ℕ
message_id_base [] = ([], 10)
message_id_base (a ∷ []) = if a == b'x' || a == b'X' then ([], 16) else (a ∷ [], 10)
message_id_base (a ∷ b ∷ r) =
    if a == b'0' && (b == b'x' || b == b'X')
    then (r, 16)
    else (if a == b'x' || a == b'X' then (b ∷ r, 16) else (a ∷ b ∷ r, 10))

abbrev at_least_one : Option ℤ → Option ℕ
at_least_one none = none
at_least_one (some (negsuc _)) = none
at_least_one (some (pos n)) = if ltb n 1 then none else some n

-- ParseMessageID
unfoldable pub parse_message_id : Text → Option ℕ
unfolding message_id_base parse_int
parse_message_id raw =
    at_least_one (parse_int (message_id_base raw).1 2147483648 (message_id_base raw).0)

-- ValidateOutboundMessageID; true for a nil error
unfoldable pub validate_outbound_message_id : Text → Bool
unfolding parse_message_id
validate_outbound_message_id raw =
    if is_empty raw then true else elim (parse_message_id raw) [ none ↦ false | some _ ↦ true ]

-- FormatMessageID
unfoldable pub format_message_id : ℤ → Text
unfolding format_int
format_message_id (negsuc _) = b'1' ∷ []
format_message_id (pos n) =
    if ltb n 1
    then b'1' ∷ []
    else format_int (if ltb 2147483647 n then (n - 1) % 2147483647 + 1 else n)

-- The checks of ValidateEnvelope on the message of the envelope.
unfoldable pub validate_payload :
    Generation → Text → Text → Envelope → PayloadType → Result PayloadType
unfolding accept_inbound_message_id
validate_payload gen mos ncs e p =
    if not (accept_inbound_message_id gen p e.message_id)
    then err (failed "envelope is missing messageID")
    else (if not (same e.mos_id mos)
        then err (failed "MOS envelope addressed to another mosID")
        else (if not (is_empty ncs) && not (same e.ncs_id ncs)
            then err (failed "MOS envelope from another NCS")
            else ok p))

unfoldable pub validate_message :
    Generation → Text → Text → Envelope → Result PayloadType → Result PayloadType
unfolding validate_payload
validate_message gen mos ncs e r = r >>= validate_payload gen mos ncs e

-- ValidateEnvelope
unfoldable pub validate_envelope : Envelope → Generation → Text → Text → Result PayloadType
unfolding validate_message
validate_envelope e gen mos ncs =
    if is_empty e.mos_id
    then err (failed "MOS envelope is missing mosID")
    else (if is_empty e.ncs_id
        then err (failed "MOS envelope is missing ncsID")
        else validate_message gen mos ncs e e.message)
