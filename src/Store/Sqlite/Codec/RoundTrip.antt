-- ===== src/Store/Sqlite/Codec/RoundTrip.antt =====
-- What is written is read as a value that is written in the same way.
use snapshot_fs.Prelude.{true, ◌≡◌, refl, sym, ◌∙◌, ap, subst, ok, >>=-eq-ok, ok-injective}
use snapshot_fs.Model.Metadata.{dict, Fields, Metadata, thaw_mapping, thaw_metadata}
use snapshot_fs.Store.Sqlite.Codec.{
  JsonText, sort_value, sort_fields, string_keys, validate_json, encode_metadata, decode_metadata,
}
use snapshot_fs.Store.Sqlite.Codec.Sorting.{
  sort_fields-Sorted, sort_fields-Still, Still-Sorted, thaw-sort_fields, string_keys-sort_fields,
  dict-valid, sort_value_valid,
}

encode_metadata-eq :
    (m : Metadata)
    → validate_json (dict (thaw_metadata m)) ≡ ok tt
    → encode_metadata m ≡ ok (JsonText.compact (dict (sort_fields (thaw_mapping m))))
unfolding encode_metadata thaw_metadata
encode_metadata-eq m h = rw h refl

decode_metadata-eq :
    (fields : Fields)
    → string_keys fields ≡ true
    → decode_metadata (JsonText.compact (dict fields)) ≡ ok fields
unfolding decode_metadata
decode_metadata-eq fields h = rw h refl

-- What `encode_metadata` writes is valid and has sorted keys.
encode_metadata-returns :
    (m : Metadata) (text : JsonText)
    → encode_metadata m ≡ ok text
    → (validate_json (dict (thaw_metadata m)) ≡ ok tt)
      × (text ≡ JsonText.compact (dict (sort_fields (thaw_mapping m))))
unfolding encode_metadata thaw_metadata
encode_metadata-returns m text h =
    let (_, valid, same) =
      >>=-eq-ok (validate_json (dict (thaw_metadata m)))
        (λ _. ok (JsonText.compact (dict (sort_fields (thaw_mapping m))))) h in
    (valid, ok-injective (sym same))

-- What is read are the thawed fields, sorted.
pub decode_written :
    (m read : Metadata) (text : JsonText)
    → encode_metadata m ≡ ok text
    → decode_metadata text ≡ ok read
    → read ≡ sort_fields (thaw_metadata m)
unfolding thaw_metadata
decode_written m read text h decoded =
    let (valid, same) = encode_metadata-returns m text h in
    let (strings, items) = dict-valid (thaw_mapping m) valid in
    ok-injective (
      sym decoded
      ∙ ap decode_metadata same
      ∙ decode_metadata-eq (sort_fields (thaw_mapping m))
          (string_keys-sort_fields (thaw_mapping m) ∙ strings))

-- If `encode_metadata` writes metadata, then `decode_metadata` reads the text, and
-- `encode_metadata` writes what was read as the same text.
pub encode-decode_metadata :
    (m : Metadata) (text : JsonText)
    → encode_metadata m ≡ ok text
    → (read : Metadata) × (decode_metadata text ≡ ok read) × (encode_metadata read ≡ ok text)
unfolding thaw_metadata sort_value
encode-decode_metadata m text h =
    let (valid, same) = encode_metadata-returns m text h in
    let (strings, items) = dict-valid (thaw_mapping m) valid in
    let sorted = sort_fields (thaw_mapping m) in
    let sorted_strings = string_keys-sort_fields (thaw_mapping m) ∙ strings in
    let still : thaw_mapping sorted ≡ sorted = thaw-sort_fields m in
    let again : sort_fields sorted ≡ sorted =
      Still-Sorted sorted (sort_fields-Sorted (thaw_mapping m))
        (sort_fields-Still (thaw_mapping m)) in
    (
      sorted,
      ap decode_metadata same ∙ decode_metadata-eq sorted sorted_strings,
      encode_metadata-eq sorted (
            subst (λ f. validate_json (dict f) ≡ ok tt) (sym still)
              (sort_value_valid (dict (thaw_mapping m)) valid))
          ∙ ap (λ f. ok (JsonText.compact (dict f))) (ap sort_fields still ∙ again)
          ∙ ap ok (sym same),
    )
