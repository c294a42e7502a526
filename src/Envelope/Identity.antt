-- ===== src/Envelope/Identity.antt =====
-- src/internal/xml/envelope_validate.go: which envelopes are let in.
use open_mos.Prelude.{Bool, not, ◌&&◌}
use open_mos.Text.{Text, same, is_empty}
use open_mos.Envelope.{Envelope}

-- Whether an expected NCS is the one that an envelope names; any is, where none is expected.
abbrev pub is_from : Text → Envelope → Bool
is_from ncs e = not (not (is_empty ncs) && not (same e.ncs_id ncs))
