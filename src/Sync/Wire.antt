-- ===== src/Sync/Wire.antt =====
-- The wire format of the sync endpoints: server/internal/sync/types.go, and the conversions of
-- server/internal/sync/handlers.go between it and items.
use familycards.Prelude.{
  ℕ, ℤ, String, ◌==◌, Bool, true, not, ◌&&◌, ◌||◌, Option, none, some, List, [], ◌∷◌, map, is_some,
  if◌then◌else◌,
}
use familycards.Http.{Bytes, Base64, Result, ok, err, ◌>>=◌, bad_request, decode_binary_field}
use familycards.Store.{ItemOf, Item}

pub record ItemDto : Type 0 where
  pub item_id : String
  pub kind : String
  pub rev : ℕ
  pub updated_at : ℤ
  pub deleted : Bool
  pub device_id : String
  pub nonce : Option String
  pub ciphertext : Option String
  pub blob_refs : List String

pub record ChangesResponse : Type 0 where
  pub server_rev : ℕ
  pub next_since : ℤ
  pub has_more : Bool
  pub items : List ItemDto

-- A missing list of blob refs is the empty list.
pub record PushItemDto : Type 0 where
  pub item_id : String
  pub kind : String
  pub base_rev : ℤ
  pub updated_at : ℤ
  pub deleted : Bool
  pub nonce : Option String
  pub ciphertext : Option String
  pub blob_refs : List String

pub record PushRequest : Type 0 where
  pub device_id : String
  pub items : List PushItemDto

pub record AcceptedDto : Type 0 where
  pub item_id : String
  pub rev : ℕ

pub record PushResponse : Type 0 where
  pub server_rev : ℕ
  pub accepted : List AcceptedDto
  pub conflicts : List ItemDto

-- An item as `decodePushItem` returns it: its revision is the client's base_rev.
abbrev pub Decoded : Type 0
Decoded = ItemOf ℤ

-- What `decodePushItem` does once both binary fields are decoded.
unfoldable pub assemble_item :
    String → String → PushItemDto → Option Bytes → Option Bytes → Result Decoded
assemble_item vault_id device_id dto nonce ciphertext =
    if dto.item_id == "" || dto.kind == ""
    then err (bad_request "item_id and kind are required")
    else if not dto.deleted && (not (is_some nonce) || not (is_some ciphertext))
    then err (bad_request "nonce and ciphertext are required for non-deleted items")
    else ok (record {
      vault_id = vault_id;
      item_id = dto.item_id;
      kind = dto.kind;
      rev = dto.base_rev;
      updated_at = dto.updated_at;
      deleted = dto.deleted;
      device_id = device_id;
      nonce = nonce;
      ciphertext = ciphertext;
      blob_refs = dto.blob_refs;
    })

module _ (b64 : Base64) where
  unfoldable pub decode_optional_binary : String → Option String → Result (Option Bytes)
  decode_optional_binary field none = ok none
  decode_optional_binary field (some v) = do b ← decode_binary_field b64 field v; ok (some b)

  unfoldable pub decode_push_item : String → String → PushItemDto → Result Decoded
  unfolding decode_optional_binary assemble_item
  decode_push_item vault_id device_id dto = do
    nonce ← decode_optional_binary "nonce" dto.nonce
    ciphertext ← decode_optional_binary "ciphertext" dto.ciphertext
    assemble_item vault_id device_id dto nonce ciphertext

  -- Every item of the batch, or the first error.
  unfoldable pub decode_batch : String → String → List PushItemDto → Result (List Decoded)
  unfolding decode_push_item
  decode_batch vault_id device_id [] = ok []
  decode_batch vault_id device_id (dto ∷ dtos) =
      let rest = decode_batch vault_id device_id dtos in
      decode_push_item vault_id device_id dto >>= λ it. rest >>= λ its. ok (it ∷ its)

  unfoldable pub encode_optional : Option Bytes → Option String
  encode_optional none = none
  encode_optional (some b) = some (b64.encode b)

  unfoldable pub item_dto_from : Item → ItemDto
  unfolding encode_optional
  item_dto_from it = record {
    item_id = it.item_id;
    kind = it.kind;
    rev = it.rev;
    updated_at = it.updated_at;
    deleted = it.deleted;
    device_id = it.device_id;
    nonce = encode_optional it.nonce;
    ciphertext = encode_optional it.ciphertext;
    blob_refs = it.blob_refs;
  }

  unfoldable pub to_item_dtos : List Item → List ItemDto
  unfolding item_dto_from
  to_item_dtos items = map item_dto_from items

-- The conflict with an item that the server has no record of.
unfoldable pub gone_conflict_dto : String → String → ItemDto
gone_conflict_dto item_id kind = record {
  item_id = item_id;
  kind = kind;
  rev = 0;
  updated_at = ℤ.pos 0;
  deleted = true;
  device_id = "";
  nonce = none;
  ciphertext = none;
  blob_refs = [];
}
