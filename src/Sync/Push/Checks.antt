-- ===== src/Sync/Push/Checks.antt =====
-- The checks that `Push` makes before its transaction.
use familycards.Prelude.{String, ◌≡◌, Option, none, some, List, [], ◌∷◌, All, subst, arith}
use familycards.Http.{Base64, ok, Body, parsed, malformed}
use familycards.Auth.Context.{Identity}
use familycards.Sync.Wire.{
  PushRequest, PushItemDto, Decoded, decode_push_item, decode_batch, assemble_item,
}
use familycards.Sync.Push.{check_push}

module _ (b64 : Base64) where
  decode_push_item-vault :
      (v d : String) (dto : PushItemDto) (it : Decoded)
      → decode_push_item b64 v d dto ≡ ok it
      → it.vault_id ≡ v
  unfolding decode_push_item assemble_item
  decode_push_item-vault v d dto it h = ground arith

  decode_batch-vault :
      (v d : String) (dtos : List PushItemDto) (its : List Decoded)
      → decode_batch b64 v d dtos ≡ ok its
      → All (λ (it : Decoded). it.vault_id ≡ v) its
  unfolding decode_batch
  decode_batch-vault v d [] [] h = tt
  decode_batch-vault v d [] (it ∷ its) h = cc
  decode_batch-vault v d (dto ∷ dtos) [] h = ground arith
  decode_batch-vault v d (dto ∷ dtos) (it ∷ its) h = (
    decode_push_item-vault v d dto it (ground arith),
    decode_batch-vault v d dtos its (ground arith),
  )

  -- Every item that passes the checks is of the caller's vault.
  pub check_push-vault :
      (caller : Option Identity) (body : Body PushRequest) (v : String) (its : List Decoded)
      → check_push b64 caller body ≡ ok (v, its)
      → All (λ (it : Decoded). it.vault_id ≡ v) its
  unfolding check_push
  check_push-vault none body v its h = cc
  check_push-vault (some id) (malformed m) v its h = cc
  check_push-vault (some id) (parsed req) v its h =
      let same : id.vault_id ≡ v = ground arith in
      subst (λ u. All (λ (it : Decoded). it.vault_id ≡ u) its) same
        (decode_batch-vault id.vault_id req.device_id req.items its (ground arith))
