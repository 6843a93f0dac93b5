-- ===== src/Store/Errors.antt =====
-- store/sqlite/errors.py: the subclasses of `SQLiteStoreError`.

pub data StoreError : Type 0 where
  store persistence schema closed destination_exists durability publication : StoreError
