-- ===== src/TaskRegistry.antt =====
-- The local registry of trusted scripts: mobile/src/task-registry.ts.
pub mod Params
pub mod Execute
pub mod Runs
mod Tests
use Prim.Native.String
use one_autojs.Base.{ℕ, String, Option, none, some, List, [], ◌∷◌, str_eq, if◌then◌else◌}

pub data ScriptKind : Type 0 where
  autojs client : ScriptKind

-- `RegisteredTaskScript`
pub record RegisteredTaskScript : Type 0 where
  pub script_id : String
  pub kind : ScriptKind
  pub file_name : Option String
  pub version : ℕ
  pub default_timeout_ms : ℕ
  pub max_timeout_ms : ℕ

abbrev script : String → String → ℕ → ℕ → RegisteredTaskScript
script script_id file_name default_timeout_ms max_timeout_ms = record {
  script_id = script_id;
  kind = autojs;
  file_name = some file_name;
  version = 1;
  default_timeout_ms = default_timeout_ms;
  max_timeout_ms = max_timeout_ms;
}

abbrev built_in : String → ℕ → ℕ → RegisteredTaskScript
built_in script_id default_timeout_ms max_timeout_ms = record {
  script_id = script_id;
  kind = client;
  file_name = none;
  version = 1;
  default_timeout_ms = default_timeout_ms;
  max_timeout_ms = max_timeout_ms;
}

-- `REGISTRY`
unfoldable pub registry : List RegisteredTaskScript
registry =
    script "device.apps.list" "device_apps_list.js" 120000 300000
    ∷ script "app.install" "app_install.js" 300000 900000
    ∷ script "app.version.check" "app_version_check.js" 60000 120000
    ∷ script "app.update.store" "app_update_store.js" 120000 300000
    ∷ script "app.update.zip" "app_update_zip.js" 600000 900000
    ∷ script "file.download" "file_download.js" 300000 900000
    ∷ script "tiktok.post" "tiktok_post_v2.js" 420000 900000
    ∷ script "device.network.switch" "device_network_switch.js" 60000 150000
    ∷ built_in "device.network.routing.apply" 120000 300000
    ∷ built_in "device.network.routing.disable" 60000 120000
    ∷ []

abbrev pub find_script : String → List RegisteredTaskScript → Option RegisteredTaskScript
find_script script_id [] = none
find_script script_id (item ∷ items) =
    if str_eq item.script_id script_id then some item else find_script script_id items

-- `getRegisteredScript`
unfoldable pub get_registered_script : String → Option RegisteredTaskScript
unfolding registry
get_registered_script script_id = find_script script_id registry
