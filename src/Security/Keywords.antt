-- ===== src/Security/Keywords.antt =====
-- The word lists of src/util/security/is-sensitive-key.ts.
use nodejs_template.Prelude.{List, [], ◌∷◌, ◌++◌}
use nodejs_template.Text.{Text, text}

unfoldable pub card_keywords : List Text
card_keywords =
    text "card"
    ∷ text "creditcard"
    ∷ text "credit_card"
    ∷ text "cardnumber"
    ∷ text "card_number"
    ∷ text "card_num"
    ∷ text "cardnum"
    ∷ text "card_no"
    ∷ text "cardno"
    ∷ text "cc_number"
    ∷ text "ccnumber"
    ∷ text "pan"
    ∷ []

unfoldable pub redact_keywords : List Text
redact_keywords =
    text "password"
    ∷ text "passwd"
    ∷ text "pwd"
    ∷ text "secret"
    ∷ text "token"
    ∷ text "apikey"
    ∷ text "api_key"
    ∷ text "auth"
    ∷ text "authorization"
    ∷ text "authentication"
    ∷ text "bearer"
    ∷ text "private"
    ∷ text "privatekey"
    ∷ text "private_key"
    ∷ text "jwt"
    ∷ text "session_id"
    ∷ text "sessionid"
    ∷ text "access_token"
    ∷ text "accesstoken"
    ∷ text "refresh_token"
    ∷ text "refreshtoken"
    ∷ text "api_secret"
    ∷ text "apisecret"
    ∷ text "client_secret"
    ∷ text "clientsecret"
    ∷ text "signing_key"
    ∷ text "signingkey"
    ∷ text "webhook_secret"
    ∷ text "webhooksecret"
    ∷ []

unfoldable pub partial_keywords : List Text
partial_keywords =
    text "cvv"
    ∷ text "cvv2"
    ∷ text "cvc"
    ∷ text "cvc2"
    ∷ text "security_code"
    ∷ text "securitycode"
    ∷ text "ssn"
    ∷ text "cpf"
    ∷ text "cnpj"
    ∷ text "rg"
    ∷ text "pin"
    ∷ text "otp"
    ∷ text "mfa"
    ∷ text "expiry"
    ∷ text "expiration"
    ∷ text "dob"
    ∷ text "birth"
    ∷ text "passport"
    ∷ text "driver_license"
    ∷ text "driverlicense"
    ∷ text "national_id"
    ∷ text "nationalid"
    ∷ text "tax_id"
    ∷ text "taxid"
    ∷ text "fiscal"
    ∷ []

unfoldable pub key_affixes : List Text
key_affixes =
    text "my"
    ∷ text "our"
    ∷ text "user"
    ∷ text "users"
    ∷ text "client"
    ∷ text "customer"
    ∷ text "account"
    ∷ text "pre"
    ∷ text "post"
    ∷ text "new"
    ∷ text "old"
    ∷ text "current"
    ∷ text "previous"
    ∷ text "internal"
    ∷ text "external"
    ∷ text "default"
    ∷ text "temp"
    ∷ text "tmp"
    ∷ text "raw"
    ∷ text "encoded"
    ∷ text "hashed"
    ∷ text "masked"
    ∷ text "data"
    ∷ text "value"
    ∷ text "values"
    ∷ text "info"
    ∷ text "id"
    ∷ text "ids"
    ∷ text "key"
    ∷ text "keys"
    ∷ text "code"
    ∷ text "codes"
    ∷ text "number"
    ∷ text "num"
    ∷ text "no"
    ∷ text "hash"
    ∷ text "header"
    ∷ text "headers"
    ∷ text "token"
    ∷ text "tokens"
    ∷ text "secret"
    ∷ text "type"
    ∷ text "name"
    ∷ text "list"
    ∷ text "field"
    ∷ text "fields"
    ∷ text "string"
    ∷ text "str"
    ∷ text "text"
    ∷ text "content"
    ∷ text "payload"
    ∷ text "body"
    ∷ text "param"
    ∷ text "params"
    ∷ text "document"
    ∷ text "documento"
    ∷ text "documentos"
    ∷ text "doc"
    ∷ text "docs"
    ∷ text "usuario"
    ∷ text "cliente"
    ∷ text "conta"
    ∷ text "numero"
    ∷ text "nro"
    ∷ text "codigo"
    ∷ text "chave"
    ∷ text "dados"
    ∷ text "valor"
    ∷ text "campo"
    ∷ text "texto"
    ∷ []

-- A keyword may itself surround another one.
unfoldable pub key_fragments : List Text
unfolding card_keywords redact_keywords partial_keywords key_affixes
key_fragments = key_affixes ++ card_keywords ++ redact_keywords ++ partial_keywords
