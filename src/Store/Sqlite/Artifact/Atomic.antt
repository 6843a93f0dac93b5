-- ===== src/Store/Sqlite/Artifact/Atomic.antt =====
-- Publication leaves the old file or the complete new one.
use snapshot_fs.Prelude.{
  ◌≡◌, ◌≢◌, ◌⊎◌, inl, inr, refl, sym, ◌∙◌, ap, subst, Bool, true, false, none, some, Text, Result,
  ok, err, if◌then◌else◌, ok≢err, err-injective, arith, Bool-cases, Option-cases,
}
use snapshot_fs.Dict.{get, put, remove, text_key}
use snapshot_fs.Dict.Laws.{get-put_self, get-put_ne, get-remove_self, get-remove_ne}
use snapshot_fs.Model.Message.{says}
use snapshot_fs.Store.Errors.{StoreError}
use snapshot_fs.Store.Building.{Exception, store_error}
use snapshot_fs.Store.Sqlite.Artifact.{
  Host, Files, os_error, replace, link, unlink_linked, sync_directory, then_sync, publish,
}

-- An error that says that the artifact was published all the same.
abbrev pub IsAfterPublication : Exception → Type 0
IsAfterPublication (store_error StoreError.publication path detail) = Unit {0}
IsAfterPublication (store_error StoreError.durability path detail) = Unit {0}
IsAfterPublication e = ⊥

-- The new file, without the temporary one unless the error says that it was left.
pub record IsPublished {ℓ} {C : Type ℓ} (temporary destination : Text) (content : C)
    (files : Files C) (r : Result Exception (Unit {0})) (after : Files C) : Type ℓ where
  pub told : (e : Exception) → r ≡ err e → IsAfterPublication e
  pub new : get destination after ≡ some content
  pub moved : r ≡ ok tt → get temporary after ≡ none
  pub others : (p : Text) → p ≢ temporary → p ≢ destination → get p after ≡ get p files

-- What a call of `publish` may leave: every file as it was, with an error that does not claim
-- otherwise, or the new file.
abbrev pub Leaves {ℓ} :
    {C : Type ℓ} → Text → Text → C → Files C → Result Exception (Unit {0}) × Files C → Type ℓ
Leaves temporary destination content files out =
    ((e : Exception) × (out ≡ (err e, files)) × (IsAfterPublication e → ⊥))
    ⊎ IsPublished temporary destination content files out.0 out.1

abbrev exists_error : Text → Exception
exists_error destination =
    store_error StoreError.destination_exists destination
      (says "destination already exists (use overwrite=True)")

module _ {ℓ} {C : Type ℓ} (host : Host) (temporary destination : Text) (content : C)
    (files : Files C) where
  publish-found :
      (overwrite : Bool)
      → get temporary files ≡ some content
      → publish host overwrite temporary destination files ≡ (
          if host.syncs
          then then_sync host destination (
              if overwrite
              then replace host temporary destination content files
              else link host temporary destination content files)
          else (
            err (
                store_error StoreError.persistence destination
                  (os_error "cannot sync temporary artifact: ")),
            files,
          ))
  unfolding publish
  publish-found overwrite there = rw (there, publish) refl

  synced_refused :
      (works : Bool) (out : Result Exception (Unit {0}) × Files C) (e : Exception)
      → ((d : Exception) × (out ≡ (err d, files)))
      → (d : Exception) × ((if works then out else (err e, files)) ≡ (err d, files))
  synced_refused true out e h = h
  synced_refused false out e h = (e, refl)

  link_refused :
      (old : C)
      → get destination files ≡ some old
      → (d : Exception) × (then_sync host destination
            (link host temporary destination content files)
          ≡ (err d, files))
  unfolding link then_sync
  link_refused old there = (exists_error destination, rw (there, link) refl)

  -- If the temporary artifact and the destination are both there, then without `overwrite`
  -- `publish` raises with every file as it was.
  pub publish_keeps :
      (old : C)
      → get temporary files ≡ some content
      → get destination files ≡ some old
      → (e : Exception) × (publish host false temporary destination files ≡ (err e, files))
  publish_keeps old there taken =
      let (e, same) = synced_refused host.syncs _ _ (link_refused old taken) in
      (e, publish-found false there ∙ same)

module _ {ℓ} {C : Type ℓ} (host : Host) (temporary destination : Text) (content : C)
    (files : Files C) (apart : temporary ≢ destination) where
  abbrev Left : Result Exception (Unit {0}) × Files C → Type ℓ
  Left = Leaves temporary destination content files

  untouched : (e : Exception) → (IsAfterPublication e → ⊥) → Left (err e, files)
  untouched e h = inl (e, refl, h)

  replaced : Left (ok tt, put destination content (remove temporary files))
  replaced = inr (record {
    told = λ e h. absurd (ok≢err (sym h));
    new = get-put_self destination content (remove temporary files);
    moved = λ h.
        get-put_ne temporary destination content (remove temporary files) apart
        ∙ get-remove_self temporary files;
    others = λ p other away.
        get-put_ne p destination content (remove temporary files) away
        ∙ get-remove_ne p temporary files other;
  })

  replace-Left : Left (replace host temporary destination content files)
  unfolding replace
  replace-Left = elim (Bool-cases host.replaces) [
    | inl works ↦ rw works replaced
    | inr fails ↦ rw fails (untouched _ (λ h. h))
  ]

  unlinked : Left (ok tt, remove temporary (put destination content files))
  unlinked = inr (record {
    told = λ e h. absurd (ok≢err (sym h));
    new =
        get-remove_ne destination temporary (put destination content files)
          (λ same. apart (sym same))
        ∙ get-put_self destination content files;
    moved = λ h. get-remove_self temporary (put destination content files);
    others = λ p other away.
        get-remove_ne p temporary (put destination content files) other
        ∙ get-put_ne p destination content files away;
  })

  unlink_linked-Left :
      Left (unlink_linked host temporary destination content files (put destination content files))
  unfolding unlink_linked
  unlink_linked-Left = elim (Bool-cases host.unlinks) [
    | inl works ↦ rw works unlinked
    | inr fails ↦ rw fails (
        inr (record {
          told = λ e h. subst IsAfterPublication (err-injective h) tt;
          new = get-put_self destination content files;
          moved = λ h. absurd (ok≢err h);
          others = λ p other away. get-put_ne p destination content files away;
        }))
  ]

  link-Left : Left (link host temporary destination content files)
  unfolding link
  link-Left = elim (Option-cases (get destination files)) [
    | inl free ↦ elim (Bool-cases host.links) [
      | inl works ↦ rw (free, link) (rw works unlink_linked-Left)
      | inr fails ↦ rw (free, link) (rw fails (untouched _ (λ h. h)))
    ]
    | inr (old, there) ↦ rw (there, link) (untouched _ (λ h. h))
  ]

  sync_directory-told :
      (e : Exception) → sync_directory host destination ≡ err e → IsAfterPublication e
  unfolding sync_directory
  sync_directory-told e h = ground arith

  then_sync-Left :
      (out : Result Exception (Unit {0}) × Files C)
      → Left out
      → Left (then_sync host destination out)
  unfolding then_sync
  then_sync-Left (err e, after) l = l
  then_sync-Left (ok done, after) (inl (e, same, h)) = absurd (ok≢err (sym (ap (λ o. o.0) same)))
  then_sync-Left (ok done, after) (inr p) = inr (record {
    told = sync_directory-told;
    new = p.new;
    moved = λ h. p.moved refl;
    others = p.others;
  })

  moved-Left :
      (overwrite : Bool)
      → Left (
          if overwrite
          then replace host temporary destination content files
          else link host temporary destination content files)
  moved-Left true = replace-Left
  moved-Left false = link-Left

  synced-Left :
      (works : Bool) (out : Result Exception (Unit {0}) × Files C) (e : Exception)
      → (IsAfterPublication e → ⊥)
      → Left out
      → Left (if works then out else (err e, files))
  synced-Left true out e h l = l
  synced-Left false out e h l = untouched e h

  -- If the temporary artifact is there and is not the destination, then whatever the host
  -- refuses, `publish` either raises with every file as it was, in an error that does not say
  -- that the artifact was published, or the destination holds the complete artifact, every
  -- other file is as it was, and the temporary one is gone unless an error says that
  -- publication is done but for the cleaning or syncing.
  pub publish-Leaves :
      (overwrite : Bool)
      → get temporary files ≡ some content
      → Leaves temporary destination content files
          (publish host overwrite temporary destination files)
  publish-Leaves overwrite there =
      subst Left (sym (publish-found host temporary destination content files overwrite there))
        (synced-Left host.syncs _ _ (λ h. h) (then_sync-Left _ (moved-Left overwrite)))
