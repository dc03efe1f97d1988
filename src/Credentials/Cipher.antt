-- ===== src/Credentials/Cipher.antt =====
-- What the credential store uses of the encryption of server/shared/utils/secrets-store.ts, which is
-- AES-256-GCM of node's crypto module under the master key of the server.
use specifyr.Prelude.{◌≡◌, ◌≢◌, Option, some, [], Text}

pub record EncryptedEntry : Type 0 where
  pub iv : Text
  pub tag : Text
  pub payload : Text

-- `encrypt` takes the random iv; `decrypt` throws on an entry that fails authentication.
pub record Cipher : Type 0 where
  pub encrypt : Text → Text → EncryptedEntry
  pub decrypt : EncryptedEntry → Option Text

-- The documented behaviour of the cipher: what it encrypts it decrypts, and the parts of an
-- encrypted text that is not empty are not empty.
pub record CipherLaws (cipher : Cipher) : Type 0 where
  pub decrypt-encrypt : (iv t : Text) → cipher.decrypt (cipher.encrypt iv t) ≡ some t
  pub iv_present : (iv t : Text) → t ≢ [] → (cipher.encrypt iv t).iv ≢ []
  pub tag_present : (iv t : Text) → t ≢ [] → (cipher.encrypt iv t).tag ≢ []
  pub payload_present : (iv t : Text) → t ≢ [] → (cipher.encrypt iv t).payload ≢ []
