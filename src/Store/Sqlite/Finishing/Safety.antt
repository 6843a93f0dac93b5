-- ===== src/Store/Sqlite/Finishing/Safety.antt =====
-- What `finish` leaves at the destination, whether it returns or raises.
use snapshot_fs.Prelude.{
  ℕ, ◌≡◌, ◌≢◌, ◌⊎◌, inl, inr, refl, sym, ◌∙◌, ap, subst, true, Option, none, some, List, ◌++◌, Text,
  codes, Result, ok, err, ok≢err, ok-injective, some-injective, none≢some, Bool-cases, any,
}
use snapshot_fs.Dict.{get, values, nat_key, text_key}
use snapshot_fs.Dict.Laws.{get-put_ne, get-remove_ne}
use snapshot_fs.Diagnostics.{ImportDiagnostic}
use snapshot_fs.Store.Building.{Exception}
use snapshot_fs.Store.Memory.Builder.{count_or}
use snapshot_fs.Store.Sqlite.Tables.{Tables, SqlError, DiagnosticRow}
use snapshot_fs.Store.Sqlite.Artifact.{Host, Files, publish, cleanup}
use snapshot_fs.Store.Sqlite.Artifact.Atomic.{Leaves, publish-Leaves}
use snapshot_fs.Store.Sqlite.Builder.{Content, empty, artifact, foreign, SqliteBuilder, is_active}
use snapshot_fs.Store.Sqlite.Opening.{abort}
use snapshot_fs.Store.Sqlite.Store.{SqliteStore}
use snapshot_fs.Store.Sqlite.Checking.{validate, breaks_key}
use snapshot_fs.Store.Sqlite.Finishing.{
  from_temporary, key_failure, finish_failure, concluded, committed, written, inserted, opened,
  open_content, returning, open_store, failing, publish_artifact, commit, finish_tables, finish,
  insert_diagnostics, finish_rows, count_diagnostics,
}

-- The destination is none of the files that `cleanup` removes.
pub record IsApart (temporary destination : Text) : Type 0 where
  pub main : destination ≢ temporary
  pub wal : destination ≢ temporary ++ codes "-wal"
  pub shm : destination ≢ temporary ++ codes "-shm"
  pub journal : destination ≢ temporary ++ codes "-journal"

cleanup_keeps :
    (host : Host) (temporary destination : Text) (files : Files Content)
    → IsApart temporary destination
    → get destination (cleanup host (some temporary) files) ≡ get destination files
unfolding cleanup
cleanup_keeps host temporary destination files a = elim (Bool-cases host.unlinks) [
  | inl works ↦ rw works (
      get-remove_ne destination (temporary ++ codes "-journal") _ a.journal
      ∙ get-remove_ne destination (temporary ++ codes "-shm") _ a.shm
      ∙ get-remove_ne destination (temporary ++ codes "-wal") _ a.wal
      ∙ get-remove_ne destination temporary files a.main)
  | inr fails ↦ rw fails refl
]

opened-tables :
    (path : Text) (tables : Tables) (r : Option (Result Exception (Unit {0}))) (store : SqliteStore)
    → opened path tables r ≡ some (ok store)
    → (tables ≡ store.tables) × (r ≡ some (ok tt))
opened-tables path tables none store h = absurd (none≢some h)
opened-tables path tables (some (ok done)) store h =
    (ap (λ x. x.tables) (ok-injective (some-injective _ _ h)), refl)
opened-tables path tables (some (err e)) store h = absurd (ok≢err (some-injective _ _ h))

-- A store that opens has the tables of the file, which pass the validation.
open_content-tables :
    (fuel : ℕ) (path : Text) (c : Option Content) (store : SqliteStore)
    → open_content fuel path c ≡ some (ok store)
    → (c ≡ some (artifact store.tables)) × (validate path fuel store.tables ≡ some (ok tt))
unfolding open_content
open_content-tables fuel path none store h = absurd (ok≢err (some-injective _ _ h))
open_content-tables fuel path (some (artifact tables)) store h =
    let (same, valid) = opened-tables path tables (validate path fuel tables) store h in
    (ap (λ t. some (artifact t)) same, subst (λ t. validate path fuel t ≡ some (ok tt)) same valid)
open_content-tables fuel path (some empty) store h = absurd (ok≢err (some-injective _ _ h))
open_content-tables fuel path (some (foreign bytes)) store h =
    absurd (ok≢err (some-injective _ _ h))

open_store-tables :
    (fuel : ℕ) (path : Text) (files : Files Content) (store : SqliteStore)
    → open_store fuel path files ≡ some (ok store)
    → (get path files ≡ some (artifact store.tables))
      × (validate path fuel store.tables ≡ some (ok tt))
unfolding open_store
open_store-tables fuel path files store h = open_content-tables fuel path (get path files) store h

-- The destination is as it was, or a complete artifact that passed the validation.
abbrev pub KeptOrNew : ℕ → Text → Text → Files Content → Files Content → Type 0
KeptOrNew fuel temporary destination old files =
    (get destination files ≡ get destination old)
    ⊎ ((t : Tables) × (get destination files ≡ some (artifact t))
        × (validate temporary fuel t ≡ some (ok tt)))

pub record IsSafe (fuel : ℕ) (temporary destination : Text) (old : Files Content)
    (out : Result Exception SqliteStore × SqliteBuilder) : Type 0 where
  pub left : KeptOrNew fuel temporary destination old out.1.files
  pub returned :
      (store : SqliteStore)
      → out.0 ≡ ok store
      → get destination out.1.files ≡ some (artifact store.tables)

module _ (host : Host) (fuel : ℕ) (s : SqliteBuilder) (temporary : Text)
    (apart : IsApart temporary s.destination) where
  -- Of a call that returns or raises.
  abbrev Safely : Option (Result Exception SqliteStore × SqliteBuilder) → Type 0
  Safely none = Unit {0}
  Safely (some out) = IsSafe fuel temporary s.destination s.files out

  failing-Safely :
      (e : Exception) (left : SqliteBuilder)
      → (left.temporary ≡ some temporary) ⊎ (left.temporary ≡ none)
      → KeptOrNew fuel temporary s.destination s.files left.files
      → Safely (failing host fuel s e left)
  unfolding failing abort cleanup
  failing-Safely e left (inl there) k = record {
    left =
        subst (λ t. KeptOrNew fuel temporary s.destination s.files (cleanup host t left.files))
          (sym there)
          (subst
            (λ c.
              (c ≡ get s.destination s.files)
              ⊎ ((t : Tables) × (c ≡ some (artifact t))
                  × (validate temporary fuel t ≡ some (ok tt))))
            (sym (cleanup_keeps host temporary s.destination left.files apart)) k);
    returned = λ store h. absurd (ok≢err h);
  }
  failing-Safely e left (inr gone) k = record {
    left =
        subst (λ t. KeptOrNew fuel temporary s.destination s.files (cleanup host t left.files))
          (sym gone) k;
    returned = λ store h. absurd (ok≢err h);
  }

  returning-Safely :
      (published : SqliteBuilder) (o : Option (Result Exception SqliteStore))
      → published.temporary ≡ none
      → open_store fuel s.destination published.files ≡ o
      → KeptOrNew fuel temporary s.destination s.files published.files
      → Safely (returning host fuel s published o)
  unfolding failing
  returning-Safely published none gone h k = tt
  returning-Safely published (some (ok store)) gone h k = record {
    left = k;
    returned = λ other same.
        (open_store-tables fuel s.destination published.files store h).0
        ∙ ap (λ x. some (artifact x.tables)) (ok-injective same);
  }
  returning-Safely published (some (err e)) gone h k = failing-Safely e published (inr gone) k

  module _ (left : SqliteBuilder) (t : Tables) (destination : left.destination ≡ s.destination)
      (temp : left.temporary ≡ some temporary)
      (there : get temporary left.files ≡ some (artifact t))
      (valid : validate temporary fuel t ≡ some (ok tt))
      (kept : get s.destination left.files ≡ get s.destination s.files) where
    concluded-Safely :
        (out : Result Exception (Unit {0}) × Files Content)
        → Leaves temporary s.destination (artifact t) left.files out
        → Safely (concluded host fuel s left out)
    unfolding concluded
    concluded-Safely (err e, files) (inl (d, same, h)) =
        failing-Safely e (record left { files = files }) (inl temp)
          (inl (ap (λ o. get s.destination o.1) same ∙ kept))
    concluded-Safely (err e, files) (inr p) =
        failing-Safely e (record left { files = files }) (inl temp) (inr (t, p.new, valid))
    concluded-Safely (ok done, files) (inl (d, same, h)) =
        absurd (ok≢err (sym (ap (λ o. o.0) same)))
    concluded-Safely (ok done, files) (inr p) =
        returning-Safely (record left { files = files; temporary = none; finished = true })
          (open_store fuel left.destination files) refl
          (ap (λ d. open_store fuel d files) (sym destination)) (inr (t, p.new, valid))

    publish_artifact-Safely : Safely (publish_artifact host fuel s temporary left)
    unfolding publish_artifact
    publish_artifact-Safely =
        concluded-Safely (publish host left.overwrite temporary left.destination left.files) (
          subst
            (λ d.
              Leaves temporary s.destination (artifact t) left.files
                (publish host left.overwrite temporary d left.files))
            (sym destination)
            (publish-Leaves host temporary s.destination (artifact t) left.files
              (λ same. apart.main (sym same)) left.overwrite there))

  module _ (temp : s.temporary ≡ some temporary) where
    committed-Safely :
        (tables : Tables) (o : Option (Result Exception SqliteStore))
        → open_store fuel temporary (written host fuel s temporary tables).files ≡ o
        → Safely (committed host fuel s temporary (written host fuel s temporary tables) o)
    unfolding committed written
    committed-Safely tables none h = tt
    committed-Safely tables (some (err e)) h =
        failing-Safely e (written host fuel s temporary tables) (inl temp)
          (inl (get-put_ne s.destination temporary (artifact tables) s.files apart.main))
    committed-Safely tables (some (ok store)) h =
        let (there, valid) =
          open_store-tables fuel temporary (written host fuel s temporary tables).files store h in
        publish_artifact-Safely (written host fuel s temporary tables) store.tables refl temp there
          valid (get-put_ne s.destination temporary (artifact tables) s.files apart.main)

    commit-Safely : (tables : Tables) → Safely (commit host fuel s temporary tables)
    unfolding commit
    commit-Safely tables =
        committed-Safely tables
          (open_store fuel temporary (written host fuel s temporary tables).files) refl

    finish_tables-Safely : (tables : Tables) → Safely (finish_tables host fuel s temporary tables)
    unfolding finish_tables
    finish_tables-Safely tables =
        elim (Bool-cases (any (λ row. breaks_key tables row) (values tables.nodes))) [
          | inl broken ↦
              rw broken (failing-Safely (key_failure host fuel s) s (inl temp) (inl refl))
          | inr right ↦ rw right (commit-Safely tables)
        ]

    inserted-Safely :
        (count : ℕ) (r : Result SqlError (List DiagnosticRow))
        → Safely (inserted host fuel s temporary count r)
    unfolding inserted
    inserted-Safely count (err e) =
        failing-Safely (finish_failure host fuel s e) s (inl temp) (inl refl)
    inserted-Safely count (ok rows) = finish_tables-Safely (record {
      snapshot = count_diagnostics count s.snapshots;
      nodes = finish_rows s.nodes;
      diagnostics = rows;
    })

    from_temporary-Safely :
        (items : List ImportDiagnostic) (count : ℕ)
        → Safely (from_temporary host fuel s items count s.temporary)
    unfolding from_temporary
    from_temporary-Safely items count =
        subst (λ o. Safely (from_temporary host fuel s items count o)) (sym temp)
          (inserted-Safely count (insert_diagnostics 0 items))

    finish-Safely :
        (items : List ImportDiagnostic) (count : Option ℕ) → Safely (finish host fuel s items count)
    unfolding finish
    finish-Safely items count = elim (Bool-cases (is_active s)) [
      | inl going ↦ rw going (from_temporary-Safely items (count_or count items))
      | inr done ↦ rw done (record { left = inl refl; returned = λ store h. absurd (ok≢err h) })
    ]

    -- If the destination is none of the files that `cleanup` removes, the builder has its
    -- temporary file and `finish` returns or raises, then the destination is as it was or holds
    -- an artifact that passed the validation, and if `finish` returns a store, then the
    -- destination holds the tables of the store.
    pub finish-IsSafe :
        (items : List ImportDiagnostic) (count : Option ℕ)
        (out : Result Exception SqliteStore × SqliteBuilder)
        → finish host fuel s items count ≡ some out
        → IsSafe fuel temporary s.destination s.files out
    finish-IsSafe items count out h = subst Safely h (finish-Safely items count)
