-- ===== src/Repository/Cursors.antt =====
-- internal/repository/notification.go, `Encode` and `DecodeCursor`, over the encoders of JSON and of
-- base64.
use notification_system.Base.{String, ◌≡◌, ap, ◌∙◌, ◌<>◌}
use notification_system.Domain.Errors.{Result, ok, err, wrapped, error_text}
use notification_system.Repository.Listing.{Cursor}

-- `json.Marshal` and `json.Unmarshal` of a cursor, and `base64.URLEncoding`, with their errors.
pub record Codec : Type 0 where
  pub marshal : Cursor → String
  pub unmarshal : String → Result Cursor
  pub encode_to_string : String → String
  pub decode_string : String → Result String

unfoldable pub encode : Codec → Cursor → String
encode k c = k.encode_to_string (k.marshal c)

invalid {ℓ} : {A : Type ℓ} → String → Result A
invalid e = err (wrapped ("invalid cursor: " <> e))

decoded : Codec → Result String → Result Cursor
unfolding invalid
decoded k (err e) = invalid (error_text e)
decoded k (ok bytes) = elim (k.unmarshal bytes) [ err e ↦ invalid (error_text e) | ok c ↦ ok c ]

unfoldable pub decode_cursor : Codec → String → Result Cursor
unfolding decoded
decode_cursor k text = decoded k (k.decode_string text)

-- A cursor is read back from its text, provided that base64 and the cursor's JSON are.
pub decode_cursor-encode :
    (k : Codec) (c : Cursor)
    → ((bytes : String) → k.decode_string (k.encode_to_string bytes) ≡ ok bytes)
    → k.unmarshal (k.marshal c) ≡ ok c
    → decode_cursor k (encode k c) ≡ ok c
unfolding decode_cursor encode decoded
decode_cursor-encode k c base64 json =
    ap (decoded k) (base64 (k.marshal c))
    ∙ ap (λ r. elim r [ err e ↦ invalid (error_text e) | ok c' ↦ ok c' ]) json
