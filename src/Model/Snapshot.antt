-- ===== src/Model/Snapshot.antt =====
-- model/snapshot.py
use snapshot_fs.Prelude.{Text, Result, ok, ◌>>=◌}
use snapshot_fs.Model.Message.{Error}
use snapshot_fs.Model.DateTime.{DateTime}
use snapshot_fs.Model.Metadata.{Metadata, freeze_metadata, require_unicode}

pub record Snapshot : Type 0 where
  pub id : Text
  pub source_uri : Text
  pub source_format : Text
  pub imported_at : DateTime
  pub source_metadata : Metadata

-- The constructor: the given fields, checked, with the metadata frozen.
unfoldable pub snapshot : Snapshot → Result Error Snapshot
unfolding require_unicode
snapshot s = do
  _ ← require_unicode s.id "snapshot ID"
  _ ← require_unicode s.source_uri "source URI"
  _ ← require_unicode s.source_format "source format"
  frozen ← freeze_metadata s.source_metadata
  ok (record s { source_metadata = frozen })
