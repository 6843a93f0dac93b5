-- ===== src/Examples/Records.antt =====
-- The theorems on the records of the model at concrete metadata.
use snapshot_fs.Prelude.{◌≡◌, refl, codes, ok, pos}
use snapshot_fs.Utf8.{encodable}
use snapshot_fs.Model.Metadata.{
  null, int, str, list, frozen_list, dict, proxy, nil, cons, end, field, Metadata, freeze_metadata,
  thaw_metadata,
}
use snapshot_fs.Model.Metadata.Freezing.{ArePlain, freeze_metadata-idempotent, thaw-freeze_metadata}

abbrev plain_metadata : Metadata
plain_metadata =
    field (str (codes "tags"))
      (list (cons null (cons (dict (field (str (codes "n")) (int (pos 1)) end)) nil))) end

abbrev frozen_plain : Metadata
frozen_plain =
    field (str (codes "tags"))
      (frozen_list (cons null (cons (proxy (field (str (codes "n")) (int (pos 1)) end)) nil))) end

plain_freezes : freeze_metadata plain_metadata ≡ ok frozen_plain
unfolding freeze_metadata encodable
plain_freezes = refl

plain_metadata-ArePlain : ArePlain plain_metadata
unfolding ArePlain
plain_metadata-ArePlain = ((tt, ((tt, tt), tt)), tt)

freeze_metadata-idempotent_example : freeze_metadata frozen_plain ≡ ok frozen_plain
freeze_metadata-idempotent_example =
    freeze_metadata-idempotent plain_metadata frozen_plain plain_freezes

thaw-freeze_metadata_example : thaw_metadata frozen_plain ≡ plain_metadata
thaw-freeze_metadata_example =
    thaw-freeze_metadata plain_metadata frozen_plain plain_metadata-ArePlain plain_freezes
