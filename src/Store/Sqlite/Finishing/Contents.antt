-- ===== src/Store/Sqlite/Finishing/Contents.antt =====
-- The two updates of `finish` give the content and the status that `content_values` gives.
use snapshot_fs.Prelude.{
  ◌≡◌, refl, Bytes, Option, none, some, ℤ, pos, Text, int_eq, option_eq, text_eq, Bool-cases, inl,
  inr,
}
use snapshot_fs.Model.Enums.{NodeKind, status_value}
use snapshot_fs.Store.Building.{MutableNode, content_values}
use snapshot_fs.Store.Sqlite.Codec.{JsonText}
use snapshot_fs.Store.Sqlite.Builder.{node_row}
use snapshot_fs.Store.Sqlite.Finishing.{fill_content, set_status}

abbrev Agrees : Text → JsonText → MutableNode → Type 0
Agrees sid json n =
    ((set_status (fill_content (node_row sid json n))).content ≡ (content_values n).0)
    × ((set_status (fill_content (node_row sid json n))).content_status
        ≡ status_value (content_values n).1)

module _ (sid : Text) (json : JsonText) (n : MutableNode) where
  by_case :
      (kind : NodeKind) (size : Option ℤ) (content : Option Bytes)
      → n.kind ≡ kind
      → n.size ≡ size
      → n.content ≡ content
      → Agrees sid json n
  unfolding set_status fill_content node_row content_values text_eq option_eq
  by_case NodeKind.file (some z) none k s c = elim (Bool-cases (int_eq z (pos 0))) [
    | inl zero' ↦ rw (k, s, c, zero') (refl, refl)
    | inr more ↦ rw (k, s, c, more) (refl, refl)
  ]
  by_case NodeKind.file none none k s c = rw (k, s, c) (refl, refl)
  by_case NodeKind.file none (some bytes) k s c = rw (k, s, c) (refl, refl)
  by_case NodeKind.file (some z) (some bytes) k s c = elim (Bool-cases (int_eq z (pos 0))) [
    | inl zero' ↦ rw (k, s, c, zero') (refl, refl)
    | inr more ↦ rw (k, s, c, more) (refl, refl)
  ]
  by_case NodeKind.directory size content k s c = rw k (refl, refl)
  by_case _ size content k s c = rw k (refl, refl)

-- For every node, the two updates of `finish` give its row the content and the status that
-- `content_values` gives the node.
pub updates-content_values :
    (sid : Text) (json : JsonText) (n : MutableNode)
    → ((set_status (fill_content (node_row sid json n))).content ≡ (content_values n).0)
      × ((set_status (fill_content (node_row sid json n))).content_status
          ≡ status_value (content_values n).1)
updates-content_values sid json n = by_case sid json n n.kind n.size n.content refl refl refl
