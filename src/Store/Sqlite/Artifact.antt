-- ===== src/Store/Sqlite/Artifact.antt =====
-- store/sqlite/artifact.py. The files are a dictionary from paths to contents, and `Host` says
-- which calls of the operating system succeed, where their outcome does not follow from the
-- files.
pub mod Atomic
use snapshot_fs.Prelude.{
  ℕ, Bool, true, false, not, Option, none, some, List, [], ◌∷◌, ◌++◌, String, Text, codes, Result,
  ok, err, if◌then◌else◌,
}
use snapshot_fs.Dict.{Dict, get, put, remove, text_key}
use snapshot_fs.Model.Message.{Message, lit, exception, says}
use snapshot_fs.Store.Errors.{StoreError}
use snapshot_fs.Store.Building.{Exception, store_error}

pub record Host : Type 0 where
  pub parent_is_directory : Bool
  pub temporary_name : Option Text
  pub syncs : Bool
  pub replaces : Bool
  pub links : Bool
  pub unlinks : Bool
  pub syncs_directory : Bool
  pub directory_sync_supported : Bool

abbrev pub Files {ℓ} : Type ℓ → Type ℓ
Files C = Dict Text C

abbrev pub os_error : String → Message
os_error what = lit what ∷ exception "OSError" ∷ []

-- `tempfile.mkstemp`: a new, empty file.
unfoldable pub create_temporary {ℓ} :
    {C : Type ℓ} → Host → Text → C → Files C → Result Exception Text × Files C
unfolding put
create_temporary host destination empty files = elim host.temporary_name [
  | none ↦ (
    err (
        store_error StoreError.persistence destination
          (os_error "cannot create temporary artifact: ")),
    files,
  )
  | some temporary ↦ (ok temporary, put temporary empty files)
]

module _ {ℓ} {C : Type ℓ} (host : Host) (temporary destination : Text) (content : C)
    (files : Files C) where
  -- `os.replace(temporary, destination)`
  unfoldable pub replace : Result Exception (Unit {0}) × Files C
  unfolding put remove
  replace = if host.replaces then (ok tt, put destination content (remove temporary files)) else (
    err (store_error StoreError.persistence destination (os_error "cannot publish artifact: ")),
    files,
  )

  unfoldable pub unlink_linked : Files C → Result Exception (Unit {0}) × Files C
  unfolding remove
  unlink_linked linked = if host.unlinks then (ok tt, remove temporary linked) else (
    err (
        store_error StoreError.publication destination
          (os_error "artifact was published, but its temporary link could not be removed: ")),
    linked,
  )

  -- `os.link(temporary, destination)` and the `unlink` after it
  unfoldable pub link : Result Exception (Unit {0}) × Files C
  unfolding get put unlink_linked
  link = elim (get destination files) [
    | some old ↦ (
      err (
          store_error StoreError.destination_exists destination
            (says "destination already exists (use overwrite=True)")),
      files,
    )
    | none ↦ if host.links then unlink_linked (put destination content files) else (
      err (store_error StoreError.persistence destination (os_error "cannot publish artifact: ")),
      files,
    )
  ]

-- What follows: the directory is synced where the platform can do it.
unfoldable pub sync_directory : Host → Text → Result Exception (Unit {0})
sync_directory host destination =
    if not host.directory_sync_supported
    then ok tt
    else if host.syncs_directory
    then ok tt
    else err (
        store_error StoreError.durability destination
          (os_error "artifact was published, but the destination directory could not be synced: "))

abbrev pub then_sync {ℓ} :
    {C : Type ℓ}
    → Host
    → Text
    → Result Exception (Unit {0}) × Files C
    → Result Exception (Unit {0}) × Files C
unfolding sync_directory
then_sync host destination (err e, files) = (err e, files)
then_sync host destination (ok done, files) = (sync_directory host destination, files)

unfoldable pub publish {ℓ} :
    {C : Type ℓ} → Host → Bool → Text → Text → Files C → Result Exception (Unit {0}) × Files C
unfolding get replace link then_sync
publish host overwrite temporary destination files = elim (get temporary files) [
  | none ↦ (
    err (
        store_error StoreError.persistence destination
          (os_error "cannot sync temporary artifact: ")),
    files,
  )
  | some content ↦
      if host.syncs
      then then_sync host destination (
          if overwrite
          then replace host temporary destination content files
          else link host temporary destination content files)
      else (
        err (
            store_error StoreError.persistence destination
              (os_error "cannot sync temporary artifact: ")),
        files,
      )
]

-- Each file is unlinked unless the host refuses.
unfoldable pub cleanup {ℓ} : {C : Type ℓ} → Host → Option Text → Files C → Files C
unfolding remove
cleanup host none files = files
cleanup host (some temporary) files =
    if host.unlinks
    then remove (temporary ++ codes "-journal") (
        remove (temporary ++ codes "-shm")
          (remove (temporary ++ codes "-wal") (remove temporary files)))
    else files
