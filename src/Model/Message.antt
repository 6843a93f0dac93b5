-- ===== src/Model/Message.antt =====
-- Messages and exceptions. An f-string is the list of its pieces: literal text and the values
-- that it formats, `exception` being the text of an exception that Python raises by itself. How
-- Python renders a value is left open.
use snapshot_fs.Prelude.{ℤ, String, Bool, List, ◌∷◌, [], Text, all}
use snapshot_fs.Model.DateTime.{DateTime}
use snapshot_fs.Utf8.{encodable}

pub data Piece : Type 0 where
  lit : String → Piece
  str repr ascii : Text → Piece
  int : ℤ → Piece
  time : DateTime → Piece
  exception : String → Piece

abbrev pub Message : Type 0
Message = List Piece

abbrev pub says : String → Message
says s = lit s ∷ []

-- Only text that is copied unescaped can spoil the encoding of a message.
abbrev pub piece_encodable : Piece → Bool
piece_encodable (str t) = encodable t
piece_encodable _ = Bool.true

unfoldable pub message_encodable : Message → Bool
message_encodable m = all piece_encodable m

pub data Error : Type 0 where
  type_error value_error runtime_error overflow_error : Message → Error
