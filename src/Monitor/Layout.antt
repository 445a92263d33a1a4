-- ===== src/Monitor/Layout.antt =====
-- server/bbz_core/domain/monitor/catalog.py and layout.py: the inputs and outputs, the documented
-- standard layout, and what an assignment and a layout must meet.
pub mod Fixed
mod Tests
use bbz_platform.Prelude.{
  ℕ, String, Bool, true, false, not, Option, none, some, List, [], ◌∷◌, map, Result, ok, err, ◌>>=◌,
  ◌>>◌, guard, filter, is_empty, contains, sorted, Dict, lookup, keys, find, nat_eq, ◌&&◌, ◌==◌,
  str_lt, is_some,
}

pub record MonitorInputSpec : Type 0 where
  pub key : String
  pub label : String
  pub sort_order : ℕ

pub record MonitorOutputSpec : Type 0 where
  pub key : String
  pub label : String
  pub grid_row : Option ℕ
  pub grid_col : Option ℕ
  pub is_large_display : Bool
  pub sort_order : ℕ

abbrev input_spec : String → String → ℕ → MonitorInputSpec
input_spec key label sort_order = record { key = key; label = label; sort_order = sort_order }

-- a workplace monitor stands in the grid
abbrev in_grid : String → String → ℕ → ℕ → ℕ → MonitorOutputSpec
in_grid key label row col sort_order = record {
  key = key;
  label = label;
  grid_row = some row;
  grid_col = some col;
  is_large_display = false;
  sort_order = sort_order;
}

abbrev pub inputs : List MonitorInputSpec
inputs =
    input_spec "bbz-os" "BBZ-OS" 0
    ∷ input_spec "bku1" "BKU 1" 1
    ∷ input_spec "bku2" "BKU 2" 2
    ∷ input_spec "bku3" "BKU 3" 3
    ∷ input_spec "bku4" "BKU 4" 4
    ∷ input_spec "coda1" "Coda 1" 5
    ∷ input_spec "coda2" "Coda 2" 6
    ∷ []

abbrev pub outputs : List MonitorOutputSpec
outputs =
    in_grid "workplace1" "Arbeitsplatzmonitor 1" 0 0 0
    ∷ in_grid "workplace2" "Arbeitsplatzmonitor 2" 0 1 1
    ∷ in_grid "workplace3" "Arbeitsplatzmonitor 3" 0 2 2
    ∷ in_grid "workplace4" "Arbeitsplatzmonitor 4" 1 0 3
    ∷ in_grid "workplace5" "Arbeitsplatzmonitor 5" 1 1 4
    ∷ in_grid "workplace6" "Arbeitsplatzmonitor 6" 1 2 5
    ∷ record {
      key = "large-display";
      label = "Mittelmonitor / Großbild";
      grid_row = none;
      grid_col = none;
      is_large_display = true;
      sort_order = 6;
    }
    ∷ []

abbrev pub input_keys : List String
input_keys = map (λ i. i.key) inputs

abbrev pub output_keys : List String
output_keys = map (λ o. o.key) outputs

abbrev is_number : Option ℕ → ℕ → Bool
is_number none n = false
is_number (some m) n = nat_eq m n

-- `_OUTPUT_BY_SLOT[(GRID_ROWS - 1, 0)].key`, which is there
abbrev pub bottom_left : String
bottom_left =
    elim (find (λ o. not o.is_large_display && is_number o.grid_row 1 && is_number o.grid_col 0)
      outputs) [ some o ↦ o.key | none ↦ "" ]

abbrev pub standard_layout : Dict String
standard_layout =
    ("workplace1", "bku1")
    ∷ ("workplace2", "bku2")
    ∷ ("workplace3", "bku3")
    ∷ (bottom_left, "bbz-os")
    ∷ ("workplace5", "bku4")
    ∷ ("workplace6", "coda1")
    ∷ ("large-display", "coda2")
    ∷ []

abbrev pub fixed_assignments : Dict String
fixed_assignments = (bottom_left, "bbz-os") ∷ []

abbrev pub is_fixed_output : String → Bool
is_fixed_output output_key = contains output_key (keys fixed_assignments)

abbrev pub fixed_input_for : String → Option String
fixed_input_for output_key = lookup output_key fixed_assignments

-- `MonitorDomainError`, `FixedRouteViolation` among them, and the failure of a provider
pub data MonitorError : Type 0 where
  unknown_output : String → MonitorError
  unknown_input : String → MonitorError
  fixed_route : String → MonitorError
  missing_outputs : List String → MonitorError
  unknown_outputs : List String → MonitorError
  provider_rejected : String → MonitorError

abbrev pub honours : Option String → String → Bool
honours none input_key = true
honours (some fixed) input_key = input_key == fixed

unfoldable pub validate_assignment : String → String → Result MonitorError (Unit {0})
validate_assignment output_key input_key =
    guard (contains output_key output_keys) (unknown_output output_key)
    >> (guard (contains input_key input_keys) (unknown_input input_key)
        >> guard (honours (fixed_input_for output_key) input_key) (fixed_route output_key))

unfoldable pub validate_items : Dict String → Result MonitorError (Unit {0})
unfolding validate_assignment
validate_items [] = ok tt
validate_items ((output_key, input_key) ∷ rest) =
    validate_assignment output_key input_key >> validate_items rest

abbrev pub without : List String → List String → List String
without ks removed = filter (λ k. not (contains k removed)) ks

pub validate_layout : Dict String → Result MonitorError (Unit {0})
unfolding validate_items sorted
validate_layout mapping =
    let missing = without output_keys (keys mapping) in
    let extra = without (keys mapping) output_keys in
    guard (is_empty missing) (missing_outputs (sorted str_lt missing))
    >> (guard (is_empty extra) (unknown_outputs (sorted str_lt extra)) >> validate_items mapping)
