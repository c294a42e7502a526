-- ===== src/Tests/Scripts.antt =====
-- Instructions in the text of stories, as a newsroom system sends them.
use open_mos.Prelude.{◌≡◌, refl, List, [], ◌∷◌}
use open_mos.Text.{text, same}
use open_mos.Cues.{scan, body_cues, closer}
use open_mos.Cues.Printed.{Piece, plain, bracketed, braced, print, cues_in, scan-print}

-- An unterminated bracket does not swallow what follows.
stray_bracket : scan 0 0 (text "a [b {***VO***} c") ≡ (5, b'{', text "***VO***") ∷ []
unfolding scan
stray_bracket = refl

-- A command that a paragraph boundary divides is one cue, of the paragraph in which it starts.
divided_command :
    body_cues (λ t. t) same (text "Hello" ∷ text "[TAKE SOT" ∷ text "DURATION:0:18]" ∷ [])
    ≡ record {
      kind = text "PRODUCTION";
      raw = text "TAKE SOT\nDURATION:0:18";
      verb = text "TAKE";
      target = text "SOT";
      fields = [];
      params = (text "DURATION", text "0:18") ∷ [];
      paragraph = 1;
    }
      ∷ []
unfolding body_cues
divided_command = refl

-- A serial command, known by its backslashes, and a marker for the prompter.
serial_command :
    body_cues (λ t. t) same (text "[CG :#Lower\\Name\\]{***VO***}" ∷ [])
    ≡ record {
      kind = text "SERIAL_CG";
      raw = text "CG :#Lower\\Name\\";
      verb = text "CG";
      target = text ":#Lower";
      fields = text "Name" ∷ [] ∷ [];
      params = [];
      paragraph = 0;
    }
      ∷ record {
        kind = text "PROMPTER";
        raw = text "***VO***";
        verb = [];
        target = text "VO";
        fields = [];
        params = [];
        paragraph = 0;
      }
      ∷ []
unfolding body_cues same
serial_command = refl

abbrev script : List Piece
script = plain (text "On ") ∷ bracketed (text "TAKE") ∷ braced (text "*") ∷ []

scan-print_example : scan 0 0 (print script) ≡ cues_in 0 script
unfolding closer
scan-print_example =
    scan-print 0 script
      ((refl, (refl, (refl, tt))), ((refl, (refl, (refl, (refl, tt)))), ((refl, tt), tt)))
