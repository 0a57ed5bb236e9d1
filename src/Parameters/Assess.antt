-- ===== src/Parameters/Assess.antt =====
-- What the server reports of the configuration file: `assessParameters` of internal/controller/pgconfig.go,
-- with the rows of internal/postgres/client.go.
use pgop.Prelude.{
  Bool, true, false, not, ◌&&◌, ◌||◌, List, [], ◌∷◌, ◌++◌, ◌==◌, nat_eq, if◌then◌else◌, contains,
  Option, none, some, length, is_empty,
}
use pgop.Text.{Text, text_eq, text}
use pgop.Text.Strings.{to_lower}
use pgop.Text.Sort.{sort}
use pgop.Settings.{Settings, names_of, value_of}

-- A row of pg_file_settings.
pub record FileSetting : Type 0 where
  pub source_file : Text
  pub name : Text
  pub setting : Text
  pub error : Text

-- A row of pg_settings.
pub record Setting : Type 0 where
  pub name : Text
  pub context : Text
  pub source_file : Text
  pub pending_restart : Bool

abbrev pub config_file_path : Text
config_file_path = text "/etc/pgop/config/postgresql.conf"

abbrev pub pg_context_postmaster : Text
pg_context_postmaster = text "postmaster"

-- `parameterAssessment`; the entries that the server rejects are the rows.
pub record Assessment : Type 0 where
  pub uses_generated_file : Bool
  pub synced : Bool
  pub invalid : List FileSetting
  pub invalid_after_reload : List FileSetting
  pub pending : List Text
  pub restart_needed : Bool
  pub overridden : List Text

-- `desired`
unfoldable pub lower_names : Settings → Settings
unfolding to_lower
lower_names [] = []
lower_names ((k, v) ∷ s) = (to_lower k, v) ∷ lower_names s

abbrev pub or_this : Bool → Setting → Option Setting → Option Setting
or_this here s (some later) = some later
or_this true s none = some s
or_this false s none = none

-- byName[name]: the last row with the name.
unfoldable pub by_name : List Setting → Text → Option Setting
unfolding to_lower
by_name [] name = none
by_name (s ∷ ss) name = or_this (to_lower s.name == name) s (by_name ss name)

-- inFile[name] = value
unfoldable pub assign : Text → Text → Settings → Settings
assign name value [] = (name, value) ∷ []
assign name value ((n, v) ∷ s) =
    let rest = assign name value s in if n == name then (n, value) ∷ s else (n, v) ∷ rest

-- What the loop over the rows of the file collects.
pub record FileScan : Type 0 where
  pub in_file : Settings
  pub invalid : List FileSetting
  pub invalid_after_reload : List FileSetting

abbrev pub rejected : FileSetting → FileScan → Option Setting → FileScan
rejected f scan none = record scan { invalid = scan.invalid ++ f ∷ [] }
rejected f scan (some s) =
    if s.context == pg_context_postmaster
    then if not s.pending_restart
      then record scan { invalid_after_reload = scan.invalid_after_reload ++ f ∷ [] }
      else scan
    else record scan { invalid = scan.invalid ++ f ∷ [] }

-- The row's value is kept.
abbrev pub with_value : FileSetting → Text → FileScan → FileScan
with_value f name scan =
    if is_empty name then scan else record scan { in_file = assign name f.setting scan.in_file }

unfoldable pub scan_row : List Setting → FileSetting → FileScan → FileScan
unfolding by_name assign
scan_row settings f scan =
    if not (f.source_file == config_file_path)
    then scan
    else let name = to_lower f.name in
      let kept = with_value f name scan in
      if is_empty f.error then kept else rejected f kept (by_name settings name)

unfoldable pub scan_files : List Setting → List FileSetting → FileScan → FileScan
unfolding scan_row
scan_files settings [] scan = scan
scan_files settings (f ∷ fs) scan = scan_files settings fs (scan_row settings f scan)

abbrev pub has_value : Settings → Text → Text → Bool
has_value s n v = elim (value_of s n) [ some w ↦ w == v | none ↦ false ]

unfoldable pub all_in : Settings → Settings → Bool
unfolding value_of
all_in s [] = true
all_in s ((n, v) ∷ t) = has_value s n v && all_in s t

-- maps.Equal
unfoldable pub maps_equal : Settings → Settings → Bool
unfolding all_in
maps_equal a b = length a == length b && all_in b a

-- What the loop over pg_settings collects.
pub record SettingScan : Type 0 where
  pub pending : List Text
  pub restart_needed : Bool
  pub overridden : List Text

unfoldable pub scan_setting : Settings → Text → Setting → SettingScan → SettingScan
unfolding contains to_lower
scan_setting desired auto_conf_path s later =
    let wanted = contains (names_of desired) (to_lower s.name) in
    record {
      pending = if s.pending_restart then s.name ∷ later.pending else later.pending;
      restart_needed =
          (s.pending_restart && (wanted || s.source_file == config_file_path))
          || later.restart_needed;
      overridden =
          if wanted && s.source_file == auto_conf_path
          then s.name ∷ later.overridden
          else later.overridden;
    }

unfoldable pub scan_settings : Settings → Text → List Setting → SettingScan
unfolding scan_setting
scan_settings desired auto_conf_path [] = record {
  pending = [];
  restart_needed = false;
  overridden = [];
}
scan_settings desired auto_conf_path (s ∷ ss) =
    scan_setting desired auto_conf_path s (scan_settings desired auto_conf_path ss)

abbrev pub empty_scan : FileScan
empty_scan = record { in_file = []; invalid = []; invalid_after_reload = [] }

-- `assessParameters`
unfoldable pub assess_parameters :
    Settings → Text → List FileSetting → List Setting → Text → Assessment
unfolding lower_names scan_files scan_settings maps_equal
assess_parameters params config_file files settings auto_conf_path =
    let desired = lower_names params in
    let files' = scan_files settings files empty_scan in
    let settings' = scan_settings desired auto_conf_path settings in
    record {
      uses_generated_file = config_file == config_file_path;
      synced = maps_equal desired files'.in_file;
      invalid = files'.invalid;
      invalid_after_reload = files'.invalid_after_reload;
      pending = sort settings'.pending;
      restart_needed = settings'.restart_needed;
      overridden = sort settings'.overridden;
    }
