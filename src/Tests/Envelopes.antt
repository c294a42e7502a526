-- ===== src/Tests/Envelopes.antt =====
-- An envelope of MOS 4.0 that carries a messageID.
use open_mos.Text.{text}
use open_mos.Outcome.{ok}
use open_mos.Envelope.{Envelope, other}

abbrev request : Envelope
request = record {
  mos_id = text "device";
  ncs_id = text "ENPS";
  message_id = text "9001";
  message = ok other;
}
