-- ===== src/Cues.antt =====
-- src/internal/xml/story_cues.go: the instructions that stand as text in the body of a story. The paragraphs
-- are their texts. `to_upper` is strings.ToUpper and `equal_fold` strings.EqualFold.
pub mod Printed
use open_mos.Prelude.{
  ℕ, zero, suc, ◌+◌, Bool, true, false, List, [], ◌∷◌, ◌++◌, Option, none, some, length, ltb, ◌==◌,
  map, if◌then◌else◌,
}
use open_mos.Text.{Text, text, is_empty}
use open_mos.Text.Trim.{trim_space}
use open_mos.Table.{Table, put}
use open_mos.Wire.StorySend.{BodyCue}
use mathlib.Core.List.{reverse}

-- The text before the first occurrence of a byte, if there is one: strings.IndexByte.
unfoldable pub until : ℕ → Text → Option Text
until k [] = none
until k (c ∷ r) =
    let rest = until k r in
    if c == k then some [] else elim rest [ none ↦ none | some t ↦ some (c ∷ t) ]

-- strings.Split by one byte, in the first part and the others.
unfoldable pub split_at : ℕ → Text → Text × List Text
split_at k [] = ([], [])
split_at k (c ∷ r) =
    let rest = split_at k r in if c == k then ([], rest.0 ∷ rest.1) else (c ∷ rest.0, rest.1)

-- strings.Cut by one byte: the text before it and the text behind it.
unfoldable pub cut_at : ℕ → Text → Option (Text × Text)
cut_at k [] = none
cut_at k (c ∷ r) =
    let rest = cut_at k r in
    if c == k then some ([], r) else elim rest [ none ↦ none | some p ↦ some (c ∷ p.0, p.1) ]

abbrev drop_star : ℕ → Text → Text → Text
drop_star c r rest = if c == b'*' then rest else c ∷ r

unfoldable drop_stars : Text → Text
drop_stars [] = []
drop_stars (c ∷ r) = let rest = drop_stars r in drop_star c r rest

-- strings.Trim(t, "*")
unfoldable pub trim_stars : Text → Text
unfolding drop_stars
trim_stars t = reverse (drop_stars (reverse (drop_stars t)))

-- The byte that ends what a byte opens.
unfoldable pub closer : ℕ → Option ℕ
closer c = if c == b'[' then some b']' else (if c == b'{' then some b'}' else none)

abbrev closed_in : Text → Option ℕ → Option Text
closed_in r none = none
closed_in r (some k) = until k r

-- The text between a byte and its closer, where the byte opens and the closer comes.
unfoldable pub enclosed : ℕ → Text → Option Text
unfolding until closer
enclosed c r = closed_in r (closer c)

abbrev skipped : Option Text → ℕ
skipped none = 0
skipped (some raw) = suc (length raw)

abbrev pub found : ℕ → ℕ → Option Text → List (ℕ × ℕ × Text) → List (ℕ × ℕ × Text)
found at c none rest = rest
found at c (some raw) rest = (at, c, raw) ∷ rest

-- scanBodyCues, from an offset, with a number of bytes still to be passed over: where each cue starts, the
-- byte that opens it, and its text.
unfoldable pub scan : ℕ → ℕ → Text → List (ℕ × ℕ × Text)
unfolding enclosed
scan n at [] = []
scan (suc n) at (c ∷ r) = scan n (suc at) r
scan zero at (c ∷ r) =
    let raw = enclosed c r in let rest = scan (skipped raw) (suc at) r in found at c raw rest

-- The paragraphs, joined by line feeds, and where each starts.
unfoldable pub joined : List Text → Text
joined [] = []
joined (p ∷ []) = p
joined (p ∷ q ∷ ps) = p ++ 10 ∷ joined (q ∷ ps)

unfoldable pub starts : ℕ → List Text → List ℕ
starts at [] = []
starts at (p ∷ ps) = at ∷ starts (suc (at + length p)) ps

-- paragraphAt: the index of the last start that is not behind the offset
unfoldable pub paragraph_at : ℕ → ℕ → ℕ → List ℕ → ℕ
paragraph_at offset i index [] = index
paragraph_at offset i index (s ∷ ss) =
    let rest = paragraph_at offset (suc i) i ss in if ltb offset s then index else rest

abbrev cue_production : Text
cue_production = text "PRODUCTION"

abbrev cue_serial_cg : Text
cue_serial_cg = text "SERIAL_CG"

abbrev cue_prompter : Text
cue_prompter = text "PROMPTER"

-- strings.ToUpper and strings.EqualFold
pub record Casing : Type 0 where
  pub to_upper : Text → Text
  pub equal_fold : Text → Text → Bool

module _ (to_upper : Text → Text) (equal_fold : Text → Text → Bool) where
  abbrev param_of : Option (Text × Text) → Table Text → Table Text
  param_of none t = t
  param_of (some p) t =
      let key = to_upper (trim_space p.0) in if is_empty key then t else put key (trim_space p.1) t

  -- The loop over the lines behind the first.
  unfoldable pub params_of : List Text → Table Text → Table Text
  unfolding cut_at put is_empty trim_space
  params_of [] t = t
  params_of (l ∷ ls) t = params_of ls (param_of (cut_at b':' (trim_space l)) t)

  abbrev cue_of : Text → Text → Text → Text → List Text → Table Text → ℕ → BodyCue
  cue_of kind raw verb target fields params paragraph = record {
    kind = kind;
    raw = raw;
    verb = verb;
    target = target;
    fields = fields;
    params = params;
    paragraph = paragraph;
  }

  abbrev spoken : Text → Table Text → ℕ → Text → Option (Text × Text) → BodyCue
  spoken raw params paragraph head p =
      let verb : Text = elim p [ none ↦ head | some q ↦ q.0 ] in
      let behind : Text = elim p [ none ↦ [] | some q ↦ q.1 ] in
      let rest = trim_space behind in
      let parts = split_at 92 rest in
      elim (until 92 rest) [
        | none ↦ cue_of cue_production raw (to_upper (trim_space verb)) rest [] params paragraph
        | some _ ↦
            cue_of cue_serial_cg raw (to_upper (trim_space verb)) (trim_space parts.0) parts.1
              params paragraph
      ]

  abbrev routed : Text → Table Text → ℕ → Text → BodyCue
  routed raw params paragraph rest =
      let parts = split_at 92 rest in
      let target = trim_space parts.0 in
      cue_of (if equal_fold target (text "CG") then cue_serial_cg else cue_production) raw
        (text "AUTOMATION") target parts.1 params paragraph

  abbrev by_colon : Text → Table Text → ℕ → Text → Option (Text × Text) → BodyCue
  by_colon raw params paragraph head none = spoken raw params paragraph head (cut_at b' ' head)
  by_colon raw params paragraph head (some p) =
      if equal_fold (trim_space p.0) (text "AUTOMATION")
      then routed raw params paragraph p.1
      else spoken raw params paragraph head (cut_at b' ' head)

  -- BodyCue.parseCommand
  unfoldable pub parse_command : Text → ℕ → BodyCue
  unfolding params_of split_at cut_at until trim_space
  parse_command raw paragraph =
      let lines = split_at 10 raw in
      let head = trim_space lines.0 in
      by_colon raw (params_of lines.1 []) paragraph head (cut_at b':' head)

  unfoldable pub read_cue : List ℕ → ℕ × ℕ × Text → BodyCue
  unfolding parse_command trim_stars trim_space paragraph_at
  read_cue ss (at, c, raw) =
      let paragraph = paragraph_at at 0 0 ss in
      if c == b'{'
      then cue_of cue_prompter raw [] (trim_space (trim_stars (trim_space raw))) [] [] paragraph
      else parse_command raw paragraph

  -- StoryBody.Cues
  unfoldable pub body_cues : List Text → List BodyCue
  unfolding scan joined starts read_cue
  body_cues ps = map (read_cue (starts 0 ps)) (scan 0 0 (joined ps))
