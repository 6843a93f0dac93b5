-- ===== src/Store/Sqlite/Opening/Mirrored.antt =====
-- A new builder in SQLite beside a new one in memory.
use snapshot_fs.Prelude.{
  ◌≡◌, not, ◌&&◌, is_some, Option-cases, refl, subst, Bool, Text, ok, err, Result, Result-cases,
  inl, inr, ok≢err, ok-injective, Bool-cases,
}
use snapshot_fs.Dict.{get, nat_key, text_key}
use snapshot_fs.Model.Snapshot.{Snapshot}
use snapshot_fs.Store.Building.{Exception}
use snapshot_fs.Store.Memory.Builder.{builder}
use snapshot_fs.Store.Sqlite.Codec.{encode_metadata}
use snapshot_fs.Store.Sqlite.Tables.{insert_row, bindable, check_size, check_source_line}
use snapshot_fs.Store.Sqlite.Artifact.{Host, Files, create_temporary}
use snapshot_fs.Store.Sqlite.Builder.{
  Content, empty, SqliteBuilder, node_row, empty_json, is_active,
}
use snapshot_fs.Store.Sqlite.Builder.Mirroring.{Mirrors}
use snapshot_fs.Store.Sqlite.Opening.{initialize, open_builder}

module _ (host : Host) (given : Snapshot) (destination : Text) (overwrite : Bool) where
  initialize-returns :
      (temporary : Text) (files : Files Content) (s : SqliteBuilder)
      → (initialize host given destination overwrite temporary files).0 ≡ ok s
      → Mirrors (builder given) s
  unfolding initialize insert_row node_row bindable check_size check_source_line builder is_active
  initialize-returns temporary files s h =
      elim (Result-cases (encode_metadata given.source_metadata)) [
        | inl (json, encoded) ↦
            subst (Mirrors (builder given)) (ok-injective (rw (encoded, initialize) at h)) (record {
              snapshot = refl;
              next = refl;
              active = refl;
              unique = (refl, tt);
              rows = (
                refl,
                record {
                  json = empty_json;
                  encoded = refl;
                  written = refl;
                  fits = refl;
                  checked = refl;
                },
                tt,
              );
            })
        | inr (e, failed) ↦ absurd (ok≢err (rw (failed, initialize) at h))
      ]

  created-returns :
      (files : Files Content) (s : SqliteBuilder)
      → (let (created, files') = create_temporary host destination empty files in
          elim created as (λ _. Result Exception SqliteBuilder × Files Content) [
            | ok temporary ↦ initialize host given destination overwrite temporary files'
            | err e ↦ (err e, files')
          ]).0
        ≡ ok s
      → Mirrors (builder given) s
  unfolding create_temporary
  created-returns files s h = elim (Option-cases host.temporary_name) [
    | inl refused ↦ absurd (ok≢err (rw (refused, create_temporary) at h))
    | inr (temporary, made) ↦ initialize-returns temporary _ s (rw (made, create_temporary) at h)
  ]

  -- If the constructor of the SQLite builder returns, then the builder mirrors a new builder
  -- in memory for the same snapshot.
  pub open_builder-Mirrors :
      (files : Files Content) (s : SqliteBuilder)
      → (open_builder host given destination overwrite files).0 ≡ ok s
      → Mirrors (builder given) s
  unfolding open_builder
  open_builder-Mirrors files s h =
      elim (Bool-cases (is_some (get destination files) && not overwrite)) [
        | inl taken ↦ absurd (ok≢err (rw taken at h))
        | inr free ↦ elim (Bool-cases host.parent_is_directory) [
          | inl there ↦ created-returns files s (rw (free, there) at h)
          | inr absent ↦ absurd (ok≢err (rw (free, absent) at h))
        ]
      ]
