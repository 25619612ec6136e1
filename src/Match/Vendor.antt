-- ===== src/Match/Vendor.antt =====
-- vendor/modules.txt as tool/preprocess/match.go reads it.
pub mod Parse
use opentelemetry_go_auto_in.Base.{Bool, false, ◌||◌, List, [], ◌∷◌, if◌then◌else◌, Str, str_eq}

pub record VendorModule : Type 0 where
  pub path : Str
  pub version : Str
  pub submodules : List Str

-- The inner loop of findVendorModuleVersion.
unfoldable pub has_submodule : List Str → Str → Bool
has_submodule [] import_path = false
has_submodule (submodule ∷ rest) import_path =
    str_eq submodule import_path || has_submodule rest import_path

unfoldable pub find_vendor_module_version : List VendorModule → Str → Str
find_vendor_module_version [] import_path = []
find_vendor_module_version (m ∷ modules) import_path =
    if str_eq m.path import_path
    then m.version
    else if has_submodule m.submodules import_path
    then m.version
    else find_vendor_module_version modules import_path
