-- ===== src/Fuse/Operations/Sessions.antt =====
-- Sequences of calls: the tables stay sound, and an open handle reads its file.
use snapshot_fs.Prelude.{
  ℕ, ◌+◌, ◌≡◌, ◌⊎◌, refl, sym, ◌∙◌, ap, subst, Bool, true, false, not, ◌&&◌, none, some, List, [],
  ◌∷◌, ℤ, Bytes, ok, err, ok-injective, ok≢err, ◌>>=◌, arith, if◌then◌else◌, Result-cases, inl, inr,
  is_none,
}
use snapshot_fs.Dict.{get, put, remove, nat_key}
use snapshot_fs.Dict.Laws.{get-put_self, get-remove_self}
use snapshot_fs.Model.Enums.{NodeKind}
use snapshot_fs.Model.DateTime.{DateTime}
use snapshot_fs.Model.Node.{Node}
use snapshot_fs.Fuse.Policy.{Errno, read_node}
use snapshot_fs.Fuse.State.{
  SnapshotStore, Operations, operations, Failure, fuse_error, Handled, node_of, passing,
  increment_lookup, file_handle, directory_handle, forget, forget_one,
}
use snapshot_fs.Fuse.Attributes.{Host, EntryAttributes}
use snapshot_fs.Fuse.Operations.{
  FileInfo, require_file, asks_for_write, target, lookup, opendir, send, readdir, open_file,
  content_error, read, release, releasedir,
}
use snapshot_fs.Fuse.Operations.Handles.{
  HasKind, IsSound, IsSound-operations, IsSound-counts, IsSound-release, IsSound-releasedir,
  with_file, IsSound-with_directory, IsSound-with_file, opened_file, opendir_case, release-open,
  release-closed, file_free, directory_free,
}

record SameHandles (s t : Operations) : Type 0 where
  files : t.file_handles ≡ s.file_handles
  directories : t.directory_handles ≡ s.directory_handles
  next_handle : t.next_handle ≡ s.next_handle

SameHandles-refl : (s : Operations) → SameHandles s s
SameHandles-refl s = record { files = refl; directories = refl; next_handle = refl }

SameHandles-trans : {s t u : Operations} → SameHandles s t → SameHandles t u → SameHandles s u
SameHandles-trans a b = record {
  files = b.files ∙ a.files;
  directories = b.directories ∙ a.directories;
  next_handle = b.next_handle ∙ a.next_handle;
}

SameHandles-increment_lookup : (i : ℕ) (s : Operations) → SameHandles s (increment_lookup i s)
unfolding increment_lookup
SameHandles-increment_lookup i s = record { files = refl; directories = refl; next_handle = refl }

SameHandles-forget_one : (i : ℕ) (n : ℤ) (s : Operations) → SameHandles s (forget_one i n s)
unfolding forget_one
SameHandles-forget_one i n s = ground arith

SameHandles-forget : (pairs : List (ℕ × ℤ)) (s : Operations) → SameHandles s (forget pairs s)
unfolding forget
SameHandles-forget [] s = SameHandles-refl s
SameHandles-forget ((i, n) ∷ rest) s =
    SameHandles-trans (SameHandles-forget_one i n s) (SameHandles-forget rest (forget_one i n s))

-- The kernel's answers to `readdir_reply`, in order; past their end its buffer is full.
abbrev pub answer : List Bool → Bytes → EntryAttributes → ℕ → Bool × List Bool
answer [] name attr next_id = (false, [])
answer (a ∷ rest) name attr next_id = (a, rest)

-- The calls that can change the tables.
pub data Call : Type 0 where
  look_up : (parent : ℕ) (name : Bytes) → Call
  forget_all : List (ℕ × ℤ) → Call
  open_directory : (inode : ℕ) → Call
  read_directory : (answers : List Bool) (fh start_id : ℕ) → Call
  close_directory : (fh : ℕ) → Call
  open_inode : (inode flags : ℕ) → Call
  close_file : (fh : ℕ) → Call

module _ (store : SnapshotStore) (host : Host) (imported_at : DateTime) (simulate : Bool) where
  unfoldable pub step : Call → Operations → Operations
  step (look_up parent name) s = (lookup store host imported_at simulate parent name s).1
  step (forget_all pairs) s = forget pairs s
  step (open_directory inode) s = (opendir store host imported_at simulate inode s).1
  step (read_directory answers fh start_id) s =
      (readdir store host imported_at simulate answer answers fh start_id s).1
  step (close_directory fh) s = (releasedir fh s).1
  step (open_inode inode flags) s = (open_file store host imported_at simulate inode flags s).1
  step (close_file fh) s = (release fh s).1

  unfoldable pub steps : List Call → Operations → Operations
  unfolding step
  steps [] s = s
  steps (c ∷ cs) s = steps cs (step c s)

  lookup-SameHandles :
      (parent : ℕ) (name : Bytes) (s : Operations)
      → SameHandles s (lookup store host imported_at simulate parent name s).1
  unfolding lookup
  lookup-SameHandles parent name s =
      elim (Result-cases (target store host imported_at simulate parent name)) [
        | inl (n, at) ↦ rw (at, lookup) (SameHandles-increment_lookup n.id s)
        | inr (e, failed) ↦ rw (failed, lookup) (SameHandles-refl s)
      ]

  send-SameHandles :
      (answers : List Bool) (nodes : List Node) (next_id : ℕ) (s : Operations)
      → SameHandles s (send store host imported_at simulate answer answers nodes next_id s).1
  unfolding send
  send-SameHandles answers [] next_id s = SameHandles-refl s
  send-SameHandles [] (n ∷ ns) next_id s = SameHandles-refl s
  send-SameHandles (true ∷ answers) (n ∷ ns) next_id s =
      SameHandles-trans (SameHandles-increment_lookup n.id s)
        (send-SameHandles answers ns (next_id + 1) (increment_lookup n.id s))
  send-SameHandles (false ∷ answers) (n ∷ ns) next_id s = SameHandles-refl s

  readdir-SameHandles :
      (answers : List Bool) (fh start_id : ℕ) (s : Operations)
      → SameHandles s (readdir store host imported_at simulate answer answers fh start_id s).1
  unfolding readdir
  readdir-SameHandles answers fh start_id s =
      elim (Result-cases
        (do inode ← directory_handle fh s; passing (store.iter_children inode (ℤ.pos start_id)))) [
          | inl (nodes, at) ↦ rw (at, readdir) (send-SameHandles answers nodes (start_id + 1) s)
          | inr (e, failed) ↦ rw (failed, readdir) (SameHandles-refl s)
        ]

  -- What `open` does: a refusal that changes nothing, or a new handle on a file.
  open_file_case :
      (inode flags : ℕ) (s : Operations) (v : IsSound store s)
      → ((info : FileInfo) × (info.fh ≡ s.next_handle)
          × (open_file store host imported_at simulate inode flags s
              ≡ (ok info, with_file store s v inode))
          × HasKind store NodeKind.file inode)
        ⊎ ((e : Failure) × (open_file store host imported_at simulate inode flags s ≡ (err e, s)))
  unfolding open_file
  open_file_case inode flags s v =
      elim (Result-cases (do
        n ← node_of store inode
        _ ← require_file n.kind
        if asks_for_write flags then err (fuse_error Errno.erofs) else ok n)) [
          | inl (n, opened) ↦
              let unavailable = is_none n.content && not simulate in
              inl (
                record {
                  fh = s.next_handle;
                  keep_cache = not unavailable;
                  direct_io = unavailable;
                },
                refl,
                rw (opened, open_file) refl,
                opened_file store s v inode flags n opened,
              )
          | inr (e, failed) ↦ inr (e, rw (failed, open_file) refl)
        ]

  same-IsSound : {s t : Operations} → SameHandles s t → IsSound store s → IsSound store t
  same-IsSound {s} {t} h v = IsSound-counts store s v t h.files h.directories h.next_handle

  step-IsSound : (c : Call) (s : Operations) → IsSound store s → IsSound store (step c s)
  unfolding step
  step-IsSound (look_up parent name) s v = same-IsSound (lookup-SameHandles parent name s) v
  step-IsSound (forget_all pairs) s v = same-IsSound (SameHandles-forget pairs s) v
  step-IsSound (open_directory inode) s v =
      elim (opendir_case store s v host imported_at simulate inode) [
        | inl (opened, kind) ↦
            subst (λ o. IsSound store o.1) (sym opened)
              (IsSound-with_directory store s v inode kind)
        | inr (e, failed) ↦ subst (λ o. IsSound store o.1) (sym failed) v
      ]
  step-IsSound (read_directory answers fh start_id) s v =
      same-IsSound (readdir-SameHandles answers fh start_id s) v
  step-IsSound (close_directory fh) s v = IsSound-releasedir store s v fh
  step-IsSound (open_inode inode flags) s v = elim (open_file_case inode flags s v) [
    | inl (info, fresh, opened, kind) ↦
        subst (λ o. IsSound store o.1) (sym opened) (IsSound-with_file store s v inode kind)
    | inr (e, failed) ↦ subst (λ o. IsSound store o.1) (sym failed) v
  ]
  step-IsSound (close_file fh) s v = IsSound-release store s v fh

  steps-IsSound_from :
      (cs : List Call) (s : Operations) → IsSound store s → IsSound store (steps cs s)
  unfolding steps
  steps-IsSound_from [] s v = v
  steps-IsSound_from (c ∷ cs) s v = steps-IsSound_from cs (step c s) (step-IsSound c s v)

  -- For any store, after any calls, failing ones included, every handle that is out has a
  -- number below the next one, no number is both a file's and a directory's handle, and each
  -- stands for a node of its kind in the store.
  pub steps-IsSound : (cs : List Call) → IsSound store (steps cs operations)
  steps-IsSound cs = steps-IsSound_from cs operations (IsSound-operations store)

  read-held :
      (fh inode : ℕ) (n : Node) (off size : ℤ) (s : Operations)
      → get fh s.file_handles ≡ some inode
      → node_of store inode ≡ ok n
      → read store host imported_at simulate fh off size s
        ≡ content_error store host imported_at simulate (read_node n off size simulate)
  unfolding read file_handle
  read-held fh inode n off size s held at = ground arith

  -- After any calls, if `open` accepts an inode, then the inode is a file of the store, a
  -- read through the new handle is what the read policy says of that node, and the handle's
  -- number was no open handle before.
  pub read-open_file :
      (cs : List Call) (inode flags : ℕ) (info : FileInfo) (off size : ℤ)
      → let s = steps cs operations in
        (open_file store host imported_at simulate inode flags s).0 ≡ ok info
        → (n : Node) × (node_of store inode ≡ ok n)
          × (n.kind ≡ NodeKind.file)
          × (read store host imported_at simulate info.fh off size
                (open_file store host imported_at simulate inode flags s).1
              ≡ content_error store host imported_at simulate (read_node n off size simulate))
          × (get info.fh s.file_handles ≡ none)
          × (get info.fh s.directory_handles ≡ none)
  read-open_file cs inode flags info off size h =
      let s = steps cs operations in
      let v = steps-IsSound cs in
      elim (open_file_case inode flags s v) [
        | inl (info', fresh, opened, kind) ↦
            let same : info' ≡ info =
              ok-injective (sym (ap (λ (o : Handled FileInfo). o.0) opened) ∙ h) in
            let number : info.fh ≡ s.next_handle = ap (λ (i : FileInfo). i.fh) (sym same) ∙ fresh in
            let held =
              subst (λ k. get k (put s.next_handle inode s.file_handles) ≡ some inode) (sym number)
                (get-put_self s.next_handle inode s.file_handles) in
            (
              kind.at,
              kind.held,
              kind.kind_of,
              subst
                  (λ o.
                    read store host imported_at simulate info.fh off size o.1
                    ≡ content_error store host imported_at simulate
                        (read_node kind.at off size simulate))
                  (sym opened)
                  (read-held info.fh inode kind.at off size (with_file store s v inode) held
                    kind.held),
              subst (λ k. get k s.file_handles ≡ none) (sym number) (file_free store s v),
              subst (λ k. get k s.directory_handles ≡ none) (sym number) (directory_free store s v),
            )
        | inr (e, failed) ↦ absurd (ok≢err (sym (ap (λ (o : Handled FileInfo). o.0) failed) ∙ h))
      ]

-- If a file handle is open, then its release succeeds and a release right after it is
-- EBADF.
pub release_twice :
    (fh inode : ℕ) (s : Operations)
    → get fh s.file_handles ≡ some inode
    → ((release fh s).0 ≡ ok tt) × ((release fh (release fh s).1).0 ≡ err (fuse_error Errno.ebadf))
release_twice fh inode s held =
    let opened = release-open fh inode s held in
    (
      ap (λ (o : Handled (Unit {0})). o.0) opened,
      subst (λ o. (release fh o.1).0 ≡ err (fuse_error Errno.ebadf)) (sym opened)
          (ap (λ (o : Handled (Unit {0})). o.0)
            (release-closed fh (record s { file_handles = remove fh s.file_handles })
              (get-remove_self fh s.file_handles))),
    )
