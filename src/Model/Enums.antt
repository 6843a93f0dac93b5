-- ===== src/Model/Enums.antt =====
-- model/enums.py, and `Severity` of diagnostics.py
use snapshot_fs.Prelude.{Bool, true, false, ◌≡◌, refl, Text, codes}

pub data NodeKind : Type 0 where
  directory file symlink special unknown : NodeKind

pub data ContentStatus : Type 0 where
  not_applicable missing present remote failed redacted : ContentStatus

pub data Observation : Type 0 where
  section_header directory_entry file_entry : Observation

pub data Severity : Type 0 where
  warning error : Severity

-- `a is b`
abbrev pub kind_is : NodeKind → NodeKind → Bool
kind_is NodeKind.directory NodeKind.directory = true
kind_is NodeKind.file NodeKind.file = true
kind_is NodeKind.symlink NodeKind.symlink = true
kind_is NodeKind.special NodeKind.special = true
kind_is NodeKind.unknown NodeKind.unknown = true
kind_is _ _ = false

abbrev pub status_is : ContentStatus → ContentStatus → Bool
status_is ContentStatus.not_applicable ContentStatus.not_applicable = true
status_is ContentStatus.missing ContentStatus.missing = true
status_is ContentStatus.present ContentStatus.present = true
status_is ContentStatus.remote ContentStatus.remote = true
status_is ContentStatus.failed ContentStatus.failed = true
status_is ContentStatus.redacted ContentStatus.redacted = true
status_is _ _ = false

-- `status.value`
abbrev pub status_value : ContentStatus → Text
status_value ContentStatus.not_applicable = codes "not_applicable"
status_value ContentStatus.missing = codes "missing"
status_value ContentStatus.present = codes "present"
status_value ContentStatus.remote = codes "remote"
status_value ContentStatus.failed = codes "failed"
status_value ContentStatus.redacted = codes "redacted"

pub kind_is→eq : (a b : NodeKind) → kind_is a b ≡ true → a ≡ b
kind_is→eq NodeKind.directory NodeKind.directory h = refl
kind_is→eq NodeKind.file NodeKind.file h = refl
kind_is→eq NodeKind.symlink NodeKind.symlink h = refl
kind_is→eq NodeKind.special NodeKind.special h = refl
kind_is→eq NodeKind.unknown NodeKind.unknown h = refl
kind_is→eq _ _ h = cc

pub kind_is_refl : (a : NodeKind) → kind_is a a ≡ true
kind_is_refl NodeKind.directory = refl
kind_is_refl _ = refl
