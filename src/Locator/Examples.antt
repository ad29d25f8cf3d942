-- ===== src/Locator/Examples.antt =====
-- Sample locators of resource_locators.py, and its theorems at them.
use malts.Base.{text_leb, ◌≡◌, refl, some, [], ◌∷◌, none}
use malts.Locator.{
  path_kind, read_access, write_access, Locator, Conflict, left_parent, locator_conflict,
  locator_code,
}
use malts.Locator.Conflicts.{is_some, locator_conflict_comm}
use malts.Locator.Overlap.{IsOverlap, locator_conflict-IsOverlap}

abbrev folder : Locator
folder = record {
  locator_id = "folder";
  kind = path_kind;
  access = write_access;
  canonical_value = "/work/src";
  canonical_aliases = [];
  canonical_backing_paths = [];
  physical_paths = "/work/src" ∷ [];
  physical_file_ids = "MALTS-FILE-ID:1:2" ∷ [];
}

abbrev file : Locator
file = record folder {
  locator_id = "file";
  access = read_access;
  canonical_value = "/work/src/tools/main.py";
  physical_paths = [];
  physical_file_ids = [];
}

abbrev conflict : Conflict
conflict = record {
  left_locator_id = "folder";
  right_locator_id = "file";
  conflict_kind = path_kind;
  relationship = left_parent;
  left_value = "/work/src";
  right_value = "/work/src/tools/main.py";
}

folder_over_file : locator_conflict folder file ≡ some conflict
unfolding locator_code text_leb
folder_over_file = refl

siblings :
    locator_conflict (record folder { canonical_value = "/work/sr"; physical_paths = [] }) file
    ≡ none
unfolding locator_code text_leb
siblings = refl

locator_conflict_comm_example :
    is_some (locator_conflict folder file) ≡ is_some (locator_conflict file folder)
locator_conflict_comm_example = locator_conflict_comm folder file

locator_conflict-IsOverlap_example : IsOverlap folder file
locator_conflict-IsOverlap_example =
    locator_conflict-IsOverlap folder file conflict folder_over_file
