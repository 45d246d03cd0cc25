-- ===== src/Main/Load/Tests.antt =====
-- Loading a configuration with main.py, and its theorems at concrete inputs.
use e3on_canserver.Base.{
  Exc, value_error, key_error, file_not_found, type_error, Result, ok, err, map_result, ◌≡◌, refl,
  ◌⊎◌, none, some, List, [], ◌∷◌, ◌++◌, map, if◌then◌else◌,
}
use e3on_canserver.Base.Int.{pos, negsuc}
use e3on_canserver.Datastore.File.{Text, is_space, is_number_space}
use e3on_canserver.Faults.Config.{from_config}
use e3on_canserver.Cyclic.{raw}
use e3on_canserver.Cyclic.Config.{same_text, raw_name}
use e3on_canserver.Main.Json.{Json, null, whole, text, array, object, nil, item, end, field}
use e3on_canserver.Main.Load.{
  RawEntry, tx_key, messages_key, did_key, schedule_key, encoder_key, fct_key, json_cyclic_task,
  list_stem, values_stem, list_suffix, values_suffix, values_path, energy_meter_key, load_config,
}
use e3on_canserver.Main.Load.Blocks.{
  without_blocks, without_task, SomeBlockRaises, load_config-without_blocks,
}

-- "_680"
abbrev number_680 : Text
number_680 = 95 ∷ 54 ∷ 56 ∷ 48 ∷ []

abbrev list_path : Text
list_path = list_stem ++ (number_680 ++ list_suffix)

values_path_680 : values_path list_path ≡ values_stem ++ (number_680 ++ values_suffix)
unfolding values_path
values_path_680 = refl

-- "256 0a"
abbrev value_line : Text
value_line = 50 ∷ 53 ∷ 54 ∷ 32 ∷ 48 ∷ 97 ∷ []

-- There is one value file.
abbrev directory : Text → Result (List Text)
directory path =
    if same_text path (values_stem ++ (number_680 ++ values_suffix))
    then ok (value_line ∷ [])
    else err file_not_found

-- "0x693", "256" and "1.5"
abbrev hex_693 : Json
hex_693 = text (48 ∷ 120 ∷ 54 ∷ 57 ∷ 51 ∷ [])

abbrev text_256 : Json
text_256 = text (50 ∷ 53 ∷ 54 ∷ [])

abbrev half_past : Json
half_past = text (49 ∷ 46 ∷ 53 ∷ [])

-- A block with one message, for a CAN-ID and the name of an encoder.
abbrev block_with : Json → Text → Json
block_with tx fct = object (
    field tx_key tx (
      field messages_key
        (array (
          item
            (object (
              field did_key text_256 (
                field schedule_key half_past
                  (field encoder_key (object (field fct_key (text fct) end)) end))))
            nil))
        end))

-- Its encoder is unknown.
abbrev bad_block : Json
bad_block = block_with hex_693 number_680

good_block :
    json_cyclic_task (block_with hex_693 raw_name) ≡ ok (some (pos 0x693, (pos 256, raw none) ∷ []))
unfolding json_cyclic_task is_number_space
good_block = refl

unknown_encoder : json_cyclic_task bad_block ≡ err value_error
unfolding json_cyclic_task is_number_space
unknown_encoder = refl

no_messages : json_cyclic_task (object (field tx_key hex_693 end)) ≡ ok none
unfolding json_cyclic_task is_number_space
no_messages = refl

null_block : json_cyclic_task null ≡ err type_error
unfolding json_cyclic_task is_number_space
null_block = refl

-- The CAN-ID 1683 as a number.
abbrev whole_tx : Json
whole_tx = block_with (whole (pos 1683)) raw_name

-- An entry with the CAN-ID "0x680" and the protected identifiers 1100 and "-1".
abbrev entry : RawEntry
entry = record {
  raw_tx = some (text (48 ∷ 120 ∷ 54 ∷ 56 ∷ 48 ∷ []));
  dp_list = some (text list_path);
  raw_delay = none;
  raw_errors = some (pos 5);
  raw_service77 = some (array (item (whole (pos 1100)) (item (text (45 ∷ 49 ∷ [])) nil)));
  raw_cyclic = some bad_block;
}

abbrev meter : RawEntry
meter = record {
  raw_tx = none;
  dp_list = none;
  raw_delay = none;
  raw_errors = none;
  raw_service77 = none;
  raw_cyclic = none;
}

abbrev items : List (Text × RawEntry)
items = (number_680, entry) ∷ (energy_meter_key, meter) ∷ []

device_loads :
    load_config directory (pos 20) (pos 0) items
    ≡ ok (
        record {
          loaded_tx = pos 0x680;
          fault_config = from_config none (some (pos 5)) (some (pos 20)) (some (pos 0));
          service77_dids = pos 1100 ∷ negsuc 0 ∷ [];
          loaded_store = record { table = (256, 10 ∷ []) ∷ []; resolvers = [] };
          cyclic_task = none;
        }
        ∷ [])
unfolding load_config is_space is_number_space
device_loads = refl

-- An ill-typed block keeps the configuration from loading.
ill_typed_block :
    load_config directory
      (pos 20)
      (pos 0)
      ((number_680, record entry { raw_cyclic = some whole_tx }) ∷ [])
    ≡ err type_error
unfolding load_config is_space is_number_space
ill_typed_block = refl

missing_tx : load_config directory (pos 0) (pos 0) ((number_680, meter) ∷ []) ≡ err key_error
unfolding load_config is_space is_number_space
missing_tx = refl

load_config-without_blocks_example :
    (map_result (map without_task) (load_config directory (pos 20) (pos 0) items)
      ≡ load_config directory (pos 20) (pos 0) (without_blocks items))
    ⊎ ((x : Exc) × SomeBlockRaises items x × (load_config directory (pos 20) (pos 0) items ≡ err x))
load_config-without_blocks_example = load_config-without_blocks directory (pos 20) (pos 0) items
