-- ===== src/Service/Timing.antt =====
-- src/internal/service/timing.go: durations in samples, and media pointers. Floating-point numbers are a
-- parameter: `parse_float` is strconv.ParseFloat(_, 64), none for its error; `is_at_most_zero` is
-- _ <= 0;
-- `round` is int(math.Round(_)), and `seconds` is int(math.Round(float64(samples) / rate)).
use open_mos.Prelude.{
  ◌^◌, Bool, true, false, ◌&&◌, List, [], ◌∷◌, ◌++◌, Option, none, some, if◌then◌else◌, ◌==◌,
}
use open_mos.Text.{Text, text, same, is_empty}
use open_mos.Text.Trim.{trim_space}
use open_mos.Text.Number.{ℤ, pos, negsuc, atoi, parse_int}
use open_mos.Model.{MediaPath, MediaPaths, ExternalMetadata}
use open_mos.Wire.{ObjPath, ObjPaths, MosExternalMetadata}

pub record ItemTiming : Type 0 where
  pub seconds : ℤ
  pub samples : ℤ
  pub time_base : ℤ
  pub known : Bool

-- A parsed number that is not negative.
abbrev pub natural : Option ℤ → Option ℤ
natural none = none
natural (some (pos n)) = some (pos n)
natural (some (negsuc n)) = none

-- What is left of a text behind a prefix of it.
abbrev pub behind : Text → Text → Option Text
behind [] s = some s
behind (p ∷ ps) [] = none
behind (p ∷ ps) (c ∷ s) = if p == c then behind ps s else none

-- strings.TrimPrefix
unfoldable pub trim_prefix : Text → Text → Text
trim_prefix p s = elim (behind p s) [ none ↦ s | some rest ↦ rest ]

-- The figures behind the prefix of a hexadecimal number.
abbrev hex_samples : Text → Text → Option ℤ
hex_samples value trimmed =
    if same trimmed value then none else natural (parse_int 16 (2 ^ 63) trimmed)

abbrev or_hex : Text → Option ℤ → Option ℤ
or_hex value (some n) = some n
or_hex value none = hex_samples value (trim_prefix (text "x") (trim_prefix (text "0x") value))

-- parseSamples: none where it returns false
unfoldable pub parse_samples : Text → Option ℤ
unfolding trim_space trim_prefix atoi parse_int
parse_samples value =
    let trimmed = trim_space value in
    if is_empty trimmed then none else or_hex trimmed (natural (atoi trimmed))

abbrev pub first_of : Option ℤ → Option ℤ → Option ℤ
first_of (some n) o = some n
first_of none o = o

abbrev pub or_zero : Option ℤ → ℤ
or_zero none = pos 0
or_zero (some n) = n

pub record Floats (Rate : Type 0) : Type 0 where
  pub parse_float : Text → Option Rate
  pub is_at_most_zero : Rate → Bool
  pub round : Rate → ℤ
  pub seconds : ℤ → Rate → ℤ

module _ {Rate : Type 0} (floats : Floats Rate) where
  open floats use {parse_float, is_at_most_zero, round, seconds}

  abbrev positive_rate : Option Rate → Option Rate
  positive_rate none = none
  positive_rate (some r) = if is_at_most_zero r then none else some r

  -- parseTimeBase: none where it returns false
  unfoldable pub parse_time_base : Text → Option Rate
  unfolding trim_space
  parse_time_base value =
      let trimmed = trim_space value in
      if is_empty trimmed then none else positive_rate (parse_float trimmed)

  -- The rate is positive, as parseTimeBase returns it.
  abbrev timing_of : Option ℤ → Option Rate → ItemTiming
  timing_of samples none = record {
    seconds = pos 0;
    samples = or_zero samples;
    time_base = pos 0;
    known = false;
  }
  timing_of none (some rate) = record {
    seconds = pos 0;
    samples = pos 0;
    time_base = round rate;
    known = false;
  }
  timing_of (some n) (some rate) = record {
    seconds = seconds n rate;
    samples = n;
    time_base = round rate;
    known = true;
  }

  -- resolveItemTiming
  unfoldable pub resolve_item_timing : Text → Text → Text → ItemTiming
  unfolding parse_samples parse_time_base
  resolve_item_timing item_ed_dur obj_dur obj_tb =
      timing_of (first_of (parse_samples item_ed_dur) (parse_samples obj_dur))
        (parse_time_base obj_tb)

-- convertPaths: a path without a URL is dropped
unfoldable pub convert_paths : List ObjPath → List MediaPath
unfolding trim_space
convert_paths [] = []
convert_paths (p ∷ ps) =
    let rest = convert_paths ps in
    if is_empty (trim_space p.value)
    then rest
    else record { url = trim_space p.value; tech_description = trim_space p.tech_description }
      ∷ rest

abbrev converted : Option ObjPaths → MediaPaths
converted none = record { essence = []; proxy = []; metadata = [] }
converted (some p) = record {
  essence = convert_paths p.obj_path;
  proxy = convert_paths p.obj_proxy_path;
  metadata = convert_paths p.obj_metadata_path;
}

abbrev with_bare : Text → MediaPaths → MediaPaths
with_bare bare m =
    if is_empty bare
    then m
    else record m { essence = m.essence ++ record { url = bare; tech_description = [] } ∷ [] }

abbrev pub has_none {ℓ} : {A : Type ℓ} → List A → Bool
has_none [] = true
has_none (_ ∷ _) = false

abbrev some_paths : MediaPaths → Option MediaPaths
some_paths m =
    if has_none m.essence && has_none m.proxy && has_none m.metadata then none else some m

-- mediaPathsFrom
unfoldable pub media_paths_from : Option ObjPaths → Text → Option MediaPaths
unfolding convert_paths trim_space
media_paths_from paths bare = some_paths (with_bare (trim_space bare) (converted paths))

-- preserveExternalMetadata (service/resync.go)
unfoldable pub preserve_external_metadata : List MosExternalMetadata → List ExternalMetadata
preserve_external_metadata [] = []
preserve_external_metadata (b ∷ bs) =
    record { scope = b.mos_scope; schema = b.mos_schema; payload = b.mos_payload }
    ∷ preserve_external_metadata bs

-- ExternalMetadataToWire (service/resync.go)
unfoldable pub external_metadata_to_wire : List ExternalMetadata → List MosExternalMetadata
external_metadata_to_wire [] = []
external_metadata_to_wire (b ∷ bs) =
    record { mos_scope = b.scope; mos_schema = b.schema; mos_payload = b.payload }
    ∷ external_metadata_to_wire bs
