-- ===== src/Client/Sockets/Messages.antt =====
-- `handleMessage` and `toWebSocketText` of src/internal/client/websocket.ts. The decoder of bytes and
-- `JSON.parse` are parameters; none stands for a text that is no JSON.
use kenojs.Prelude.{ℕ, Option, none, some, List, [], ◌∷◌}
use kenojs.Prelude.Text.{Text}

-- The data of a message: a text, the bytes of a Blob, an ArrayBuffer or a view, or something else.
pub data MessageData : Type 0 where
  text_data : Text → MessageData
  bytes_data : List ℕ → MessageData
  other_data : MessageData

pub data Emitted (J : Type 0) : Type 0 where
  emits_text : Text → Emitted J
  emits_json : J → Emitted J

unfoldable pub to_web_socket_text : (decode : List ℕ → Text) → MessageData → Option Text
to_web_socket_text decode (text_data text) = some text
to_web_socket_text decode (bytes_data bytes) = some (decode bytes)
to_web_socket_text decode other_data = none

abbrev pub json_event : {J : Type 0} → Option J → List (Emitted J)
json_event none = []
json_event (some payload) = emits_json payload ∷ []

unfoldable pub handle_message :
    {J : Type 0}
    → (json_parse : Text → Option J) → (decode : List ℕ → Text) → MessageData
    → List (Emitted J)
handle_message json_parse decode message = elim (to_web_socket_text decode message) [
  | none ↦ []
  | some text ↦ emits_text text ∷ json_event (json_parse text)
]
