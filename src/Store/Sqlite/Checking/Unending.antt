-- ===== src/Store/Sqlite/Checking/Unending.antt =====
-- An artifact whose validation does not return.
use snapshot_fs.Prelude.{ℕ, ◌≡◌, refl, false, some, none, Text, ok, any}
use snapshot_fs.Dict.{get, values, nat_key}
use snapshot_fs.Store.Sqlite.Tables.{NodeRow, Tables}
use snapshot_fs.Store.Sqlite.Validation.{require_ranges_and_domain_values, parent_is_no_directory}
use snapshot_fs.Store.Sqlite.Validation.Graph.{require_graph_runs}
use snapshot_fs.Store.Sqlite.Checking.{breaks_key, one_root, validate_records, validate}

-- If inode 1 is its own parent, the foreign keys hold, there are one snapshot, an inode 1
-- and one node without a parent, the ranges and values are right and every parent is a
-- directory, then the validation has not returned after any number of levels.
pub validate_runs :
    (path : Text) (t : Tables) (root : NodeRow) (fuel : ℕ)
    → get 1 t.nodes ≡ some root
    → root.parent_id ≡ some 1
    → any (λ row. breaks_key t row) (values t.nodes) ≡ false
    → one_root path t ≡ ok tt
    → require_ranges_and_domain_values path t ≡ ok tt
    → any (λ row. parent_is_no_directory t.nodes row) (values t.nodes) ≡ false
    → validate path fuel t ≡ none
unfolding validate validate_records
validate_runs path t root fuel held own keys one ranges directories =
    rw (keys, one, ranges, require_graph_runs path t root fuel held own directories) refl
