-- ===== src/Passwords/Confirmed.antt =====
-- A stale cache never rolls a password back: before a password is sent, the Secret is read anew.
use pgop.Prelude.{◌≡◌, Option, none, some, ok, err}
use pgop.Text.{Text, text_eq}
use pgop.Passwords.{Secret}
use pgop.Passwords.Source.{not_found, ApiReader}

-- The Secret is as the API server has it: gone, or of the version that was read.
abbrev pub IsCurrent : ApiReader → Option Secret → Type 0
IsCurrent reader none = reader.secret ≡ err not_found
IsCurrent reader (some secret) =
    (latest : Secret) × (reader.secret ≡ ok latest)
    × (secret.resource_version ≡ latest.resource_version)
