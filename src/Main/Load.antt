-- ===== src/Main/Load.antt =====
-- `load_devices` and `_build_cyclic_task` of main.py over the configuration as `json.load` gives it:
-- an entry may lack a key, hold a value of another type, or a text that is no number, and a value
-- file may not open. "delay" and "errors" are finite numbers, and keys that are not read are left
-- out. `files` is what opening a path below the directory of the configuration and reading its
-- lines gives.
pub mod Blocks
mod Tests
use e3on_canserver.Device.{SimulatedDevice, make_device}
use e3on_canserver.Base.{
  ◌>>=◌, Exc, value_error, key_error, type_error, Result, ok, err, ℕ, zero, suc, ◌-◌, Bool, true,
  false, Option, none, some, List, [], ◌∷◌, ◌++◌, ◌==◌, if◌then◌else◌, length,
}
use e3on_canserver.Base.Int.{ℤ}
use e3on_canserver.Datastore.{DatapointStore}
use e3on_canserver.Datastore.File.{Text, from_file}
use e3on_canserver.Faults.Config.{FaultConfig, from_config}
use e3on_canserver.Cyclic.{Encoder}
use e3on_canserver.Cyclic.Config.{lower, same_text, raw_name, localtime_name, encoder_from_config}
use e3on_canserver.Main.Json.{
  Json, text, array, object, nil, end, subscript, get, text_method, is_falsy, iterate, int_16,
  int_10, ints, float_check,
}

-- `d[key]`
abbrev pub required {ℓ} : {A : Type ℓ} → Option A → Result A
required none = err key_error
required (some a) = ok a

pub record RawEntry : Type 0 where
  pub raw_tx : Option Json
  pub dp_list : Option Json
  pub raw_delay : Option ℤ
  pub raw_errors : Option ℤ
  pub raw_service77 : Option Json
  pub raw_cyclic : Option Json

-- The keys of a "cyclic" block and of what stands in it, by their names.
abbrev pub tx_key : Text
tx_key = 116 ∷ 120 ∷ []

abbrev pub messages_key : Text
messages_key = 109 ∷ 101 ∷ 115 ∷ 115 ∷ 97 ∷ 103 ∷ 101 ∷ 115 ∷ []

abbrev pub did_key : Text
did_key = 100 ∷ 105 ∷ 100 ∷ []

abbrev pub schedule_key : Text
schedule_key = 115 ∷ 99 ∷ 104 ∷ 101 ∷ 100 ∷ 117 ∷ 108 ∷ 101 ∷ []

abbrev pub encoder_key : Text
encoder_key = 101 ∷ 110 ∷ 99 ∷ 111 ∷ 100 ∷ 101 ∷ 114 ∷ []

abbrev pub fct_key : Text
fct_key = 102 ∷ 99 ∷ 116 ∷ []

abbrev pub args_key : Text
args_key = 95 ∷ 97 ∷ 114 ∷ 103 ∷ 115 ∷ []

abbrev pub val_key : Text
val_key = 118 ∷ 97 ∷ 108 ∷ []

abbrev pub format_key : Text
format_key = 102 ∷ 111 ∷ 114 ∷ 109 ∷ 97 ∷ 116 ∷ []

abbrev pub or_default {ℓ} : {A : Type ℓ} → Option A → A → A
or_default none a = a
or_default (some b) a = b

-- `args.get(key, …)`, to which a method of `str` is applied.
unfoldable pub text_argument : Json → Text → Result (Option Text)
unfolding get text_method
text_argument args key = do
  found ← get args key
  elim found [ none ↦ ok none | some j ↦ (do t ← text_method j; ok (some t)) ]

-- `Encoder.from_config`: the encoder reads the one key of "_args" that it knows.
unfoldable pub json_encoder : Json → Json → Result Encoder
unfolding text_method text_argument encoder_from_config same_text lower
json_encoder fct args = do
  name ← text_method fct
  (if same_text (lower name) raw_name
      then (do
        given ← text_argument args val_key
        encoder_from_config name (record { val = given; format = none }))
      else if same_text (lower name) localtime_name
      then (do
        given ← text_argument args format_key
        encoder_from_config name (record { val = none; format = given }))
      else encoder_from_config name (record { val = none; format = none }))

-- What the cyclic task of a device holds: its CAN-ID, and each message's identifier and encoder.
abbrev pub TaskOf : Type 0
TaskOf = ℤ × List (ℤ × Encoder)

-- One round of the loop over the messages.
unfoldable pub json_message : Json → Result (ℤ × Encoder)
unfolding subscript get int_10 float_check json_encoder
json_message entry = do
  did_value ← subscript entry did_key
  did ← int_10 did_value
  schedule_value ← subscript entry schedule_key
  schedule ← float_check schedule_value
  enc_cfg ← subscript entry encoder_key
  fct ← subscript enc_cfg fct_key
  args ← get enc_cfg args_key
  encoder ← json_encoder fct (or_default args (object end))
  ok (did, encoder)

unfoldable pub json_messages : List Json → Result (List (ℤ × Encoder))
unfolding json_message
json_messages [] = ok []
json_messages (entry ∷ entries) = do
  message ← json_message entry
  messages ← json_messages entries
  ok (message ∷ messages)

-- `_build_cyclic_task`: no messages, no task.
unfoldable pub json_cyclic_task : Json → Result (Option TaskOf)
unfolding subscript get int_16 is_falsy iterate json_messages
json_cyclic_task cyclic_cfg = do
  tx ← subscript cyclic_cfg tx_key
  tx_id ← int_16 tx
  found ← get cyclic_cfg messages_key
  let raw_messages = or_default found (array nil)
  (if is_falsy raw_messages then ok none else (do
    entries ← iterate raw_messages
    messages ← json_messages entries
    ok (some (tx_id, messages))))

-- `except (KeyError, ValueError)`
abbrev pub caught : Exc → Bool
caught key_error = true
caught value_error = true
caught _ = false

-- A block that raises a KeyError or a ValueError leaves the device without a task.
unfoldable pub attach_cyclic : Option Json → Result (Option TaskOf)
unfolding json_cyclic_task
attach_cyclic none = ok none
attach_cyclic (some block) = elim (json_cyclic_task block) [
  | ok task ↦ ok task
  | err e ↦ if caught e then ok none else err e
]

-- The text behind a prefix.
unfoldable pub after_prefix : Text → Text → Option Text
after_prefix [] t = some t
after_prefix (p ∷ ps) [] = none
after_prefix (p ∷ ps) (c ∷ cs) = let rest = after_prefix ps cs in if p == c then rest else none

-- `str.replace`, with the characters of an occurrence that are still to be passed over.
unfoldable pub replace_from : ℕ → Text → Text → Text → Text
unfolding after_prefix
replace_from skip old new [] = []
replace_from (suc skip) old new (c ∷ cs) = replace_from skip old new cs
replace_from zero old new (c ∷ cs) =
    let within = replace_from (length old - 1) old new cs in
    let behind = replace_from zero old new cs in
    elim (after_prefix old (c ∷ cs)) [ some rest ↦ new ++ within | none ↦ c ∷ behind ]

-- "Open3Edatapoints", "virtdata", ".py" and ".txt"
abbrev pub list_stem : Text
list_stem =
    79 ∷ 112 ∷ 101 ∷ 110 ∷ 51 ∷ 69 ∷ 100 ∷ 97 ∷ 116 ∷ 97 ∷ 112 ∷ 111 ∷ 105 ∷ 110 ∷ 116 ∷ 115 ∷ []

abbrev pub values_stem : Text
values_stem = 118 ∷ 105 ∷ 114 ∷ 116 ∷ 100 ∷ 97 ∷ 116 ∷ 97 ∷ []

abbrev pub list_suffix : Text
list_suffix = 46 ∷ 112 ∷ 121 ∷ []

abbrev pub values_suffix : Text
values_suffix = 46 ∷ 116 ∷ 120 ∷ 116 ∷ []

-- The path of the value file.
unfoldable pub values_path : Text → Text
unfolding replace_from
values_path dp_list =
    replace_from 0 list_suffix values_suffix (replace_from 0 list_stem values_stem dp_list)

-- `base_dir / j`
unfoldable pub path_text : Json → Result Text
path_text (text t) = ok t
path_text _ = err type_error

-- What loading an entry makes: the arguments of `SimulatedDevice`, and its cyclic task.
pub record Loaded : Type 0 where
  pub loaded_tx : ℤ
  pub fault_config : FaultConfig
  pub service77_dids : List ℤ
  pub loaded_store : DatapointStore
  pub cyclic_task : Option TaskOf

-- "energy_meter"
abbrev pub energy_meter_key : Text
energy_meter_key = 101 ∷ 110 ∷ 101 ∷ 114 ∷ 103 ∷ 121 ∷ 95 ∷ 109 ∷ 101 ∷ 116 ∷ 101 ∷ 114 ∷ []

module _ (files : Text → Result (List Text)) (cli_delay cli_errors : ℤ) where
  unfoldable pub load_entry : RawEntry → Result Loaded
  unfolding int_16 path_text values_path from_config iterate ints from_file attach_cyclic
  load_entry e = do
    tx ← required e.raw_tx
    tx_id ← int_16 tx
    dp_path ← required e.dp_list
    path ← path_text dp_path
    listed ← iterate (or_default e.raw_service77 (array nil))
    dids ← ints listed
    lines ← files (values_path path)
    store ← from_file lines
    task ← attach_cyclic e.raw_cyclic
    ok record {
      loaded_tx = tx_id;
      fault_config = from_config e.raw_delay e.raw_errors (some cli_delay) (some cli_errors);
      service77_dids = dids;
      loaded_store = store;
      cyclic_task = task;
    }

  -- The loop over the items of the configuration.
  unfoldable pub load_config : List (Text × RawEntry) → Result (List Loaded)
  unfolding load_entry same_text
  load_config [] = ok []
  load_config ((name, e) ∷ items) =
      let rest = load_config items in
      if same_text name energy_meter_key
      then rest
      else (do loaded ← load_entry e; later ← rest; ok (loaded ∷ later))
