-- ===== src/Fuse/Operations/Handles.antt =====
-- Handles: fresh when they are given out, bound to the right kind of node, closed once.
use snapshot_fs.Prelude.{
  ℕ, ◌+◌, ◌<◌, ◌≡◌, ◌⊎◌, refl, sym, subst, Option-cases, Bool, Option, none, some, ok, err, ◌>>=◌,
  >>=-eq-ok, ok≢err, arith, if◌then◌else◌, ◌==◌, Bool-cases, Result-cases, inl, inr,
}
use snapshot_fs.Dict.{get, put, remove, nat_key}
use snapshot_fs.Dict.Laws.{get-put, get-remove}
use snapshot_fs.Model.Enums.{NodeKind, kind_is, kind_is→eq}
use snapshot_fs.Model.DateTime.{DateTime}
use snapshot_fs.Model.Node.{Node}
use snapshot_fs.Fuse.Policy.{Errno}
use snapshot_fs.Fuse.State.{SnapshotStore, Operations, operations, Failure, fuse_error, node_of}
use snapshot_fs.Fuse.Attributes.{Host}
use snapshot_fs.Fuse.Operations.{
  require_directory, require_file, asks_for_write, opendir, release, releasedir,
}

-- The inode is one of the store, of this kind.
pub record HasKind (store : SnapshotStore) (kind : NodeKind) (inode : ℕ) : Type 0 where
  pub at : Node
  pub held : node_of store inode ≡ ok at
  pub kind_of : at.kind ≡ kind

require_directory-kind : (m n : Node) → require_directory m ≡ ok n → m.kind ≡ NodeKind.directory
unfolding require_directory
require_directory-kind m n h = elim (Bool-cases (kind_is m.kind NodeKind.directory)) [
  | inl is ↦ kind_is→eq m.kind NodeKind.directory is
  | inr other ↦ absurd (ok≢err (rw other at h))
]

require_file-kind : (k : NodeKind) {u : Unit} → require_file k ≡ ok u → k ≡ NodeKind.file
unfolding require_file
require_file-kind NodeKind.file h = refl
require_file-kind _ h = cc

pub record IsSound (store : SnapshotStore) (s : Operations) : Type 0 where
  pub file_below : (fh i : ℕ) → get fh s.file_handles ≡ some i → fh < s.next_handle
  pub directory_below : (fh i : ℕ) → get fh s.directory_handles ≡ some i → fh < s.next_handle
  pub disjoint : (fh i : ℕ) → get fh s.file_handles ≡ some i → get fh s.directory_handles ≡ none
  pub files : (fh i : ℕ) → get fh s.file_handles ≡ some i → HasKind store NodeKind.file i
  pub directories :
      (fh i : ℕ) → get fh s.directory_handles ≡ some i → HasKind store NodeKind.directory i

pub IsSound-operations : (store : SnapshotStore) → IsSound store operations
unfolding operations get
IsSound-operations store = record {
  file_below = λ fh i h. cc;
  directory_below = λ fh i h. cc;
  disjoint = λ fh i h. cc;
  files = λ fh i h. cc;
  directories = λ fh i h. cc;
}

pub release-closed :
    (fh : ℕ) (s : Operations)
    → get fh s.file_handles ≡ none
    → release fh s ≡ (err (fuse_error Errno.ebadf), s)
unfolding release
release-closed fh s h = ground arith

pub release-open :
    (fh inode : ℕ) (s : Operations)
    → get fh s.file_handles ≡ some inode
    → release fh s ≡ (ok tt, record s { file_handles = remove fh s.file_handles })
unfolding release
release-open fh inode s h = ground arith

releasedir-closed :
    (fh : ℕ) (s : Operations)
    → get fh s.directory_handles ≡ none
    → releasedir fh s ≡ (err (fuse_error Errno.ebadf), s)
unfolding releasedir
releasedir-closed fh s h = ground arith

releasedir-open :
    (fh inode : ℕ) (s : Operations)
    → get fh s.directory_handles ≡ some inode
    → releasedir fh s ≡ (ok tt, record s { directory_handles = remove fh s.directory_handles })
unfolding releasedir
releasedir-open fh inode s h = ground arith

module _ (store : SnapshotStore) (s : Operations) (v : IsSound store s) where
  -- No handle that is out has the next number.
  pub file_free : get s.next_handle s.file_handles ≡ none
  file_free = go (get s.next_handle s.file_handles) refl
    where
      go :
          (o : Option ℕ)
          → get s.next_handle s.file_handles ≡ o
          → get s.next_handle s.file_handles ≡ none
      go none e = e
      go (some i) e = absurd (omega (arith, v.file_below s.next_handle i e))

  pub directory_free : get s.next_handle s.directory_handles ≡ none
  directory_free = go (get s.next_handle s.directory_handles) refl
    where
      go :
          (o : Option ℕ)
          → get s.next_handle s.directory_handles ≡ o
          → get s.next_handle s.directory_handles ≡ none
      go none e = e
      go (some i) e = absurd (omega (arith, v.directory_below s.next_handle i e))

  abbrev pub with_directory : ℕ → Operations
  with_directory inode = record s {
    next_handle = s.next_handle + 1;
    directory_handles = put s.next_handle inode s.directory_handles;
  }

  abbrev pub with_file : ℕ → Operations
  with_file inode = record s {
    next_handle = s.next_handle + 1;
    file_handles = put s.next_handle inode s.file_handles;
  }

  pub IsSound-with_directory :
      (inode : ℕ) → HasKind store NodeKind.directory inode → IsSound store (with_directory inode)
  IsSound-with_directory inode k = record {
    file_below = λ fh i h. ground (arith, v.file_below fh i);
    directory_below = λ fh i h.
        ground (arith, get-put fh s.next_handle inode s.directory_handles, v.directory_below fh i);
    disjoint = λ fh i h. ground (
      arith,
      get-put fh s.next_handle inode s.directory_handles,
      v.file_below fh i,
      v.disjoint fh i,
    );
    files = v.files;
    directories = λ fh i h. elim (Bool-cases (s.next_handle == fh)) [
      | inl here ↦
          subst (HasKind store NodeKind.directory)
            (ground (arith, get-put fh s.next_handle inode s.directory_handles)) k
      | inr other ↦
          v.directories fh i (ground (arith, get-put fh s.next_handle inode s.directory_handles))
    ];
  }

  pub IsSound-with_file :
      (inode : ℕ) → HasKind store NodeKind.file inode → IsSound store (with_file inode)
  IsSound-with_file inode k = record {
    file_below =
        λ fh i h. ground (arith, get-put fh s.next_handle inode s.file_handles, v.file_below fh i);
    directory_below = λ fh i h. ground (arith, v.directory_below fh i);
    disjoint = λ fh i h.
        ground
          (arith, get-put fh s.next_handle inode s.file_handles, directory_free, v.disjoint fh i);
    files = λ fh i h. elim (Bool-cases (s.next_handle == fh)) [
      | inl here ↦
          subst (HasKind store NodeKind.file)
            (ground (arith, get-put fh s.next_handle inode s.file_handles)) k
      | inr other ↦ v.files fh i (ground (arith, get-put fh s.next_handle inode s.file_handles))
    ];
    directories = v.directories;
  }

  IsSound-without_file :
      (fh : ℕ) → IsSound store (record s { file_handles = remove fh s.file_handles })
  IsSound-without_file fh = record {
    file_below = λ g i h. ground (arith, get-remove g fh s.file_handles, v.file_below g i);
    directory_below = v.directory_below;
    disjoint = λ g i h. ground (arith, get-remove g fh s.file_handles, v.disjoint g i);
    files = λ g i h. v.files g i (ground (arith, get-remove g fh s.file_handles));
    directories = v.directories;
  }

  IsSound-without_directory :
      (fh : ℕ) → IsSound store (record s { directory_handles = remove fh s.directory_handles })
  IsSound-without_directory fh = record {
    file_below = v.file_below;
    directory_below =
        λ g i h. ground (arith, get-remove g fh s.directory_handles, v.directory_below g i);
    disjoint = λ g i h. ground (arith, get-remove g fh s.directory_handles, v.disjoint g i h);
    files = v.files;
    directories = λ g i h. v.directories g i (ground (arith, get-remove g fh s.directory_handles));
  }

  pub IsSound-release : (fh : ℕ) → IsSound store (release fh s).1
  IsSound-release fh = elim (Option-cases (get fh s.file_handles)) [
    | inl closed ↦ subst (λ o. IsSound store o.1) (sym (release-closed fh s closed)) v
    | inr (inode, open') ↦
        subst (λ o. IsSound store o.1) (sym (release-open fh inode s open'))
          (IsSound-without_file fh)
  ]

  pub IsSound-releasedir : (fh : ℕ) → IsSound store (releasedir fh s).1
  IsSound-releasedir fh = elim (Option-cases (get fh s.directory_handles)) [
    | inl closed ↦ subst (λ o. IsSound store o.1) (sym (releasedir-closed fh s closed)) v
    | inr (inode, open') ↦
        subst (λ o. IsSound store o.1) (sym (releasedir-open fh inode s open'))
          (IsSound-without_directory fh)
  ]

  -- Only the counts change.
  pub IsSound-counts :
      (t : Operations)
      → t.file_handles ≡ s.file_handles
      → t.directory_handles ≡ s.directory_handles
      → t.next_handle ≡ s.next_handle
      → IsSound store t
  IsSound-counts t f d n = record {
    file_below = λ g i h. rw n (v.file_below g i (rw f at h));
    directory_below = λ g i h. rw n (v.directory_below g i (rw d at h));
    disjoint = λ g i h. rw d (v.disjoint g i (rw f at h));
    files = λ g i h. v.files g i (rw f at h);
    directories = λ g i h. v.directories g i (rw d at h);
  }

  opened_directory :
      (inode : ℕ) (n : Node)
      → (do found ← node_of store inode; require_directory found) ≡ ok n
      → HasKind store NodeKind.directory inode
  opened_directory inode n h =
      let (found, held, checked) = >>=-eq-ok (node_of store inode) require_directory h in
      record { at = found; held = held; kind_of = require_directory-kind found n checked }

  pub opened_file :
      (inode flags : ℕ) (n : Node)
      → (do
        m ← node_of store inode
        _ ← require_file m.kind
        if asks_for_write flags then err (fuse_error Errno.erofs) else ok m)
        ≡ ok n
      → HasKind store NodeKind.file inode
  opened_file inode flags n h =
      let (found, held, rest) = >>=-eq-ok (node_of store inode) _ h in
      let (_, checked, _) = >>=-eq-ok (require_file found.kind) _ rest in
      record { at = found; held = held; kind_of = require_file-kind found.kind checked }

  module _ (host : Host) (imported_at : DateTime) (simulate : Bool) where
    pub opendir_case :
        (inode : ℕ)
        → (opendir store host imported_at simulate inode s
              ≡ (ok s.next_handle, with_directory inode))
            × HasKind store NodeKind.directory inode
          ⊎ ((e : Failure) × (opendir store host imported_at simulate inode s ≡ (err e, s)))
    unfolding opendir
    opendir_case inode =
        elim (Result-cases (do found ← node_of store inode; require_directory found)) [
          | inl (n, opened) ↦ inl (rw (opened, opendir) refl, opened_directory inode n opened)
          | inr (e, failed) ↦ inr (e, rw (failed, opendir) refl)
        ]
