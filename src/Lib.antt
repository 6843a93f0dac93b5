-- ===== src/Lib.antt =====
-- SnapshotFS imports the listing of a directory tree into an immutable snapshot and mounts it
-- read-only.
--
-- An import (`src/snapshotfs/import_service.py`) opens a source, has a parser turn its bytes into
-- entries and diagnostics, adds the entries to a builder and publishes the builder's store, or
-- aborts. The mounted file system (`src/snapshotfs/fuse`) answers the kernel's calls from a store.
--
-- Files, by the part of the program:
--
-- Prelude, Dict, Utf8: what the rest shares. `str` is the list of its code points, `bytes` the
--   list of its bytes, an integer of Python is ℤ, and a dictionary is an association list in the
--   order of insertion. An exception is a value of `Result`.
-- Model/*: `src/snapshotfs/model`. A record for each class; the function named after the class is
--   the constructor, with the checks of `__post_init__`.
-- Diagnostics: `src/snapshotfs/diagnostics.py`; the bound is that of the source, 1000. `report` is
--   `error` for the calls whose constructor accepts, those with a positive line number or none and
--   a message that can be encoded. The key of a time zone is taken to be such text.
-- Store/Building, Store/Memory: `src/snapshotfs/store/building.py` and `store/memory`. A method of
--   the builder returns its outcome beside the builder that it leaves, also when it raises. The
--   body of the loop of `add` is `visit`; its two branches are `create` and `existing`.
-- Store/Errors, Store/Sqlite: `src/snapshotfs/store/sqlite`. `Tables` has a record for the rows of each
--   table and a function for each statement; `Codec` represents the text of a column by what it
--   reads as. `Artifact` works on a dictionary of files, and `Host` says which calls of the
--   system succeed. In `Builder` the body of the loop of `_add_entry` is `visit_row`, with the branches
--   `insert_node` and `reuse_row`; `Opening` has the constructor and `abort`. A statement fails by
--   its constraints and by numbers that do not fit, and in no other way. `Store` and `Reading` have
--   the reading methods, `Validation` and `Checking` the validation of an artifact. Its recursive
--   queries have as fuel the number of levels that they may yield; a query that has not ended is
--   none, and so is a call that waits for it. `Finishing` has `finish`.
-- Importing: `src/snapshotfs/import_service.py` and `parser/base.py`. The builder is a parameter, the
--   record `SnapshotBuilder`; so are what the source and the parser give, as a `Stream`.
-- Fuse/Policy: `src/snapshotfs/fuse/policy.py`.
-- Fuse/State, Fuse/Attributes, Fuse/Operations, Fuse/ReadOnly: `src/snapshotfs/fuse/adapter`. The
--   handle tables and the lookup counts are the state `Operations`; the store, the host, and
--   whether missing content is simulated are parameters. Calls are steps of this state, one after
--   another: no method of the program awaits between its reads and writes.
-- Decoding, Decoding/Lines, Decoding/Utf16, Decoding/Streams: `src/snapshotfs/decoding.py`. A stream is
--   the list of the chunks that its reads give, and a generator the list of what it yields with the
--   error that ends it. `Reading` has what such a stream means, as a relation. The two loops over lines have as fuel the number of pending bytes, since
--   each line takes at least one. The codecs are a parameter. The machine of the parser reads lines
--   and an error of this form.
-- Parser/Unicode, Parser/Regex: what the parser uses of `str` and `re`. A matcher returns all its
--   matches in the order in which `re` tries them. The repetition of a group has as fuel the length
--   of the text: each round of the one pattern that repeats a group consumes a character. `int`
--   refuses more than 4300 digits.
-- Parser/Timestamps: `src/snapshotfs/timestamps.py`; the zone is a parameter, and a conversion of it may
--   overflow. That exception leaves the parser: the state of its loop has a place for it.
-- Parser/Windows: `src/snapshotfs/parser/windows_dir`. `Patterns` and `Grammar` read a line; `State` and
--   `Handlers` have the state of a section and of the footer and one function for each kind of
--   line, `Machine` the loop as a step that yields at most one entry, and what follows the loop. The
--   path class is modelled for paths that begin with a drive and a backslash, the only ones that
--   are mounted.
-- Examples: concrete data, and each theorem applied to some.
--
-- Not modelled: the schema contract of an artifact, the command line, the registry of mounts and the
-- processes behind it, logging, and the call of pyfuse3 that mounts. The rendering of values in
-- messages is left open: a message is the list of its pieces. The characters of JSON text and of ISO
-- times are left out: `json.dumps` and `json.loads` are represented by the value that the text stands
-- for, so nothing is shown of the module `json` itself.
pub mod Prelude
pub mod Dict
pub mod Utf8
pub mod Model
pub mod Diagnostics
pub mod Store
pub mod Importing
pub mod Fuse
pub mod Decoding
pub mod Parser
pub mod Examples
