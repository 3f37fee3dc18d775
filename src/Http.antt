-- ===== src/Http.antt =====
-- The JSON envelope that every endpoint shares: server/internal/httpapi/errors.go and base64.go.
-- A request body is what encoding/json makes of it, and a reply is the status with the value that
-- is written as JSON. The base64 functions of the Go library are the parameter `Base64`.
use Prim.Native.String.{◌++◌ as ◌<>◌}
use familycards.Prelude.{
  refl, Bool, true, false, if◌then◌else◌, ℕ, String, ◌==◌, ◌≡◌, List, Option, none, some,
}

abbrev pub Bytes : Type 0
Bytes = List ℕ

-- httpapi.APIError
pub record ApiError : Type 0 where
  pub status : ℕ
  pub code : String
  pub message : String

-- A Go error, as far as the handlers tell errors apart: an APIError, the `ErrNotFound` of a
-- repository, or any other.
pub data Error : Type 0 where
  api : ApiError → Error
  not_found : Error
  other : Error

pub data Result {ℓ} (A : Type ℓ) : Type ℓ where
  ok : A → Result A
  err : Error → Result A

infixl 5 ◌>>=◌
abbrev pub ◌>>=◌ {ℓ κ} : {A : Type ℓ} {B : Type κ} → Result A → (A → Result B) → Result B
ok a >>= f = f a
err e >>= f = err e

abbrev pub bad_request : String → Error
bad_request m = api (record { status = 400; code = "bad_request"; message = m })

abbrev pub unauthorized : String → Error
unauthorized m = api (record { status = 401; code = "unauthorized"; message = m })

abbrev pub forbidden : String → Error
forbidden m = api (record { status = 403; code = "forbidden"; message = m })

abbrev pub missing : String → Error
missing m = api (record { status = 404; code = "not_found"; message = m })

abbrev pub conflict : String → Error
conflict m = api (record { status = 409; code = "conflict"; message = m })

abbrev pub gone : String → Error
gone m = api (record { status = 410; code = "gone"; message = m })

abbrev pub too_large : String → Error
too_large m = api (record { status = 413; code = "payload_too_large"; message = m })

abbrev pub internal : String → Error
internal m = api (record { status = 500; code = "internal_error"; message = m })

-- A value that encoding/json refuses is answered with the status and no body.
pub data Reply (A : Type 0) : Type 0 where
  json : ℕ → A → Reply A
  no_body : ℕ → Reply A
  failure : ℕ → ApiError → Reply A

abbrev pub write_error : {A : Type 0} → Error → Reply A
write_error (api e) = failure e.status e
write_error not_found =
    failure 500 (record { status = 0; code = "internal_error"; message = "internal server error" })
write_error other =
    failure 500 (record { status = 0; code = "internal_error"; message = "internal server error" })

-- `WriteJSON` of a value with a field of type json.RawMessage: a text that came with a request is
-- JSON, or it is empty where the field was left out, and the empty text is not encoded.
abbrev pub json_with : {A : Type 0} → String → ℕ → A → Reply A
json_with raw status a = if raw == "" then no_body status else json status a

abbrev pub status_of : {A : Type 0} → Reply A → ℕ
status_of (json s a) = s
status_of (no_body s) = s
status_of (failure s e) = s

-- What encoding/json makes of a body: a value, or an error with its text.
pub data Body (A : Type 0) : Type 0 where
  parsed : A → Body A
  malformed : String → Body A

abbrev pub decode_json : {A : Type 0} → Body A → Result A
decode_json (parsed a) = ok a
decode_json (malformed e) = err (bad_request ("invalid request body: " <> e))

-- encoding/base64, the standard padded alphabet: decoding undoes encoding.
pub record Base64 : Type 0 where
  pub encode : Bytes → String
  pub decode : String → Option Bytes
  pub decode-encode : (b : Bytes) → decode (encode b) ≡ some b

module _ (b64 : Base64) where
  abbrev pub decode_binary_field : String → String → Result Bytes
  decode_binary_field field value = elim (b64.decode value) [
    | none ↦ err (bad_request ("invalid base64 for field: " <> field))
    | some b ↦ ok b
  ]

-- What is known of a chain of results that ended well.
pub bind-ok :
    {A B : Type 0} (r : Result A) (k : A → Result B) (b : B)
    → (r >>= k) ≡ ok b
    → (a : A) × (r ≡ ok a) × (k a ≡ ok b)
bind-ok (ok a) k b h = (a, refl, h)
bind-ok (err e) k b h = cc

pub result-inj : {A : Type 0} (a b : A) → ok a ≡ ok b → a ≡ b
result-inj a b e = cc

pub unless-ok :
    {A : Type 0} (t : Bool) (e : Error) (r : Result A) (a : A)
    → (if t then err e else r) ≡ ok a
    → (t ≡ false) × (r ≡ ok a)
unless-ok true e r a h = cc
unless-ok false e r a h = (refl, h)
