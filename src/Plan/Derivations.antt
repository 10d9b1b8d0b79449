-- ===== src/Plan/Derivations.antt =====
-- iroh-nix/src/main.rs: what `nix derivation show` and `nix path-info` say, and the plan that is made of it.
use iroh_nix.Support.{
  Bool, not, Option, none, some, List, [], ◌∷◌, ◌++◌, map, if◌then◌else◌, Bytes, codes, eq_nat,
  eq_bytes, contains, all,
}
use iroh_nix.Support.Maps.{Map, lookup, insert}
use iroh_nix.Support.Texts.{split_whitespace}
use iroh_nix.Support.Lines.{lines, trim}
use iroh_nix.Error.{protocol, Result, ok, err, ◌>>=◌}
use iroh_nix.Plan.{DrvInfo, BuildPlan, topological_sort}

-- A value of `serde_json`, by the functions that look into it; an object is its members in the order of
-- iteration.
pub record Json (Value : Type 0) : Type 0 where
  pub from_str : Bytes → Option Value
  pub get : Bytes → Value → Option Value
  pub as_str : Value → Option Bytes
  pub as_array : Value → Option (List Value)
  pub as_object : Value → Option (List (Bytes × Value))

pub record Output : Type 0 where
  pub success : Bool
  pub stdout : Bytes

-- `nix derivation show --recursive` and `nix path-info`, where the process can be run, and the reading of
-- what they print.
pub record Nix : Type 0 where
  pub derivation_show : Bytes → Option Output
  pub path_info : List Bytes → Option Output
  pub from_utf8_lossy : Bytes → Bytes

unfoldable pub filter_map {ℓ κ} : {A : Type ℓ} {B : Type κ} → (A → Option B) → List A → List B
filter_map f [] = []
filter_map f (x ∷ xs) = let rest = filter_map f xs in elim (f x) [ none ↦ rest | some y ↦ y ∷ rest ]

abbrev and_then {ℓ κ} : {A : Type ℓ} {B : Type κ} → (A → Option B) → Option A → Option B
and_then f none = none
and_then f (some a) = f a

abbrev unwrap_or {ℓ} : {A : Type ℓ} → A → Option A → A
unwrap_or a none = a
unwrap_or a (some b) = b

module _ {Value : Type 0} (json : Json Value) where
  unfoldable pub system_of : Value → Result Bytes
  system_of drv_obj = elim (and_then json.as_str (json.get (codes "system") drv_obj)) [
    | none ↦ err (protocol (codes ": missing 'system' field"))
    | some system ↦ ok system
  ]

  unfoldable pub strings_of : Value → List Bytes
  strings_of v = filter_map json.as_str (unwrap_or [] (json.as_array v))

  unfoldable pub features_of : Value → List Bytes
  features_of drv_obj =
      elim (and_then json.as_str
        (and_then (json.get (codes "requiredSystemFeatures")) (json.get (codes "env") drv_obj))) [
          | none ↦ []
          | some s ↦ split_whitespace s
        ]

  unfoldable pub output_path : Bytes × Value → Option Bytes
  output_path (name, v) = and_then json.as_str (json.get (codes "path") v)

  unfoldable pub outputs_of : Value → List Bytes
  outputs_of drv_obj =
      filter_map output_path
        (unwrap_or [] (and_then json.as_object (json.get (codes "outputs") drv_obj)))

  unfoldable pub input_outputs : Value → List Bytes
  input_outputs info = elim (and_then json.as_array (json.get (codes "outputs") info)) [
    | none ↦ codes "out" ∷ []
    | some arr ↦ filter_map json.as_str arr
  ]

  -- `collect()` into a `HashMap`
  unfoldable pub collect_inputs :
      List (Bytes × Value) → Map Bytes (List Bytes) → Map Bytes (List Bytes)
  collect_inputs [] m = m
  collect_inputs ((drv, info) ∷ more) m = collect_inputs more (insert drv (input_outputs info) m)

  unfoldable pub input_drvs_of : Value → Map Bytes (List Bytes)
  input_drvs_of drv_obj =
      collect_inputs (unwrap_or [] (and_then json.as_object (json.get (codes "inputDrvs") drv_obj)))
        []

  unfoldable pub input_srcs_of : Value → List Bytes
  input_srcs_of drv_obj = elim (json.get (codes "inputSrcs") drv_obj) [
    | none ↦ []
    | some v ↦ strings_of v
  ]

  unfoldable pub parse_drv_from_json : Bytes → Value → Result DrvInfo
  parse_drv_from_json drv_path drv_obj = do
    system ← system_of drv_obj
    ok (record {
      drv_path = drv_path;
      system = system;
      required_features = features_of drv_obj;
      outputs = outputs_of drv_obj;
      input_drvs = input_drvs_of drv_obj;
      input_srcs = input_srcs_of drv_obj;
    })

  unfoldable pub parse_drvs : List (Bytes × Value) → Map Bytes DrvInfo → Result (Map Bytes DrvInfo)
  parse_drvs [] drvs = ok drvs
  parse_drvs ((path, drv_obj) ∷ more) drvs = do
    info ← parse_drv_from_json path drv_obj
    parse_drvs more (insert path info drvs)

  unfoldable pub parse_shown : Nix → Output → Result (Map Bytes DrvInfo)
  parse_shown nix output =
      if not output.success
      then err (protocol (codes "nix derivation show failed: "))
      else elim (json.from_str (nix.from_utf8_lossy output.stdout)) [
        | none ↦ err (protocol (codes "failed to parse derivation JSON: "))
        | some v ↦ parse_drvs (unwrap_or [] (json.as_object v)) []
      ]

  unfoldable pub parse_drvs_recursive : Nix → Bytes → Result (Map Bytes DrvInfo)
  parse_drvs_recursive nix drv_path = elim (nix.derivation_show drv_path) [
    | none ↦ err (protocol (codes "failed to run 'nix derivation show': "))
    | some output ↦ parse_shown nix output
  ]

-- `HashSet::insert`, and `collect()` into a `HashSet`
unfoldable pub add_to_set : Bytes → List Bytes → List Bytes
add_to_set x xs = if contains xs x then xs else x ∷ xs

unfoldable pub set_of : List Bytes → List Bytes
set_of [] = []
set_of (x ∷ xs) = add_to_set x (set_of xs)

unfoldable pub check_existing_paths : Nix → List Bytes → Result (List Bytes)
check_existing_paths nix [] = ok []
check_existing_paths nix (p ∷ ps) = elim (nix.path_info (p ∷ ps)) [
  | none ↦ err (protocol (codes "failed to run 'nix path-info': "))
  | some output ↦ ok (set_of (map trim (lines (nix.from_utf8_lossy output.stdout))))
]

-- `drvs.values().flat_map(|d| d.outputs.clone())`
unfoldable pub all_outputs : Map Bytes DrvInfo → List Bytes
all_outputs [] = []
all_outputs ((k, info) ∷ drvs) = info.outputs ++ all_outputs drvs

unfoldable pub needs_build : List Bytes → DrvInfo → Bool
needs_build existing info = not (all (contains existing) info.outputs)

unfoldable pub to_build_set : List Bytes → Map Bytes DrvInfo → List Bytes
to_build_set existing [] = []
to_build_set existing ((drv_path, info) ∷ drvs) =
    let rest = to_build_set existing drvs in
    if needs_build existing info then add_to_set drv_path rest else rest

unfoldable pub planned : Map Bytes DrvInfo → List Bytes → Option (List Bytes) → Option BuildPlan
planned drvs existing none = none
planned drvs existing (some build_order) = some (record {
  to_build = filter_map (λ path. lookup path drvs) build_order;
  existing_paths = existing;
})

-- The plan of what Nix shows and has; `none` inside where the rounds of the sort run out.
unfoldable pub create_build_plan :
    {Value : Type 0} → Json Value → Nix → Bytes → Result (Option BuildPlan)
create_build_plan json nix drv_path = do
  drvs ← parse_drvs_recursive json nix drv_path
  existing ← check_existing_paths nix (all_outputs drvs)
  ok (planned drvs existing (topological_sort drvs (to_build_set existing drvs)))
