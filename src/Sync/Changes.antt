-- ===== src/Sync/Changes.antt =====
-- GET /v1/sync/changes: `GetChanges` of server/internal/sync/handlers.go. `strconv.ParseInt` is the
-- parameter `parse_int`; the two reads see the same database.
pub mod Page
pub mod Cursor
pub mod Remaining
pub mod Paging
use familycards.Prelude.{
  ℕ, ◌+◌, ℤ, pos, pos_part, neg_part, ltb_ℤ, String, ◌==◌, Bool, true, false, ◌||◌, Option, none,
  some, List, [], ◌∷◌, if◌then◌else◌,
}
use familycards.Http.{
  Base64, Error, Result, ok, err, Reply, json, write_error, bad_request, unauthorized, internal,
  ◌>>=◌,
}
use familycards.Store.{Item, Db}
use familycards.Auth.Context.{Identity, Context, current_identity}
use familycards.Sync.Repository.{list_changes, get_vault_rev}
use familycards.Sync.Wire.{ChangesResponse, to_item_dtos}

abbrev pub default_changes_limit : ℤ
default_changes_limit = pos 200

abbrev pub max_changes_limit : ℤ
max_changes_limit = pos 500

-- limit <= 0 || limit > maxChangesLimit
abbrev pub clamp_limit : ℤ → ℕ
clamp_limit limit =
    if ltb_ℤ limit (pos 1) || ltb_ℤ max_changes_limit limit
    then pos_part max_changes_limit
    else pos_part limit

-- The revision of the page's last item.
abbrev pub next_since : ℤ → List Item → ℤ
next_since since [] = since
next_since since (x ∷ xs) = next_since (pos x.rev) xs

module _ (parse_int : String → Option ℤ) where
  unfoldable pub parse_int64_query : String → ℤ → String → Result ℤ
  parse_int64_query raw default invalid =
      if raw == ""
      then ok default
      else (elim (parse_int raw) [ none ↦ err (bad_request invalid) | some n ↦ ok n ])

module _ (b64 : Base64) where
  abbrev pub changes_response : ℤ → ℕ → List Item → ChangesResponse
  changes_response since server_rev items = record {
    server_rev = server_rev;
    next_since = next_since since items;
    has_more = ltb_ℤ (next_since since items) (pos server_rev);
    items = to_item_dtos b64 items;
  }

  abbrev pub with_rev : Option ℕ → ℤ → List Item → Result ChangesResponse
  with_rev none since items = err (internal "failed to read vault revision")
  with_rev (some rev) since items = ok (changes_response since rev items)

  -- What the vault has after `since`.
  unfoldable pub changes_of : String → ℤ → ℕ → Db → Result ChangesResponse
  changes_of vault_id since limit db =
      with_rev (get_vault_rev vault_id db) since (list_changes vault_id since limit db)

  abbrev pub changes_reply : Result ChangesResponse → Reply ChangesResponse
  changes_reply (ok r) = json 200 r
  changes_reply (err e) = write_error e

  abbrev pub for_caller :
      Option Identity → (Identity → Result ChangesResponse) → Result ChangesResponse
  for_caller none f = err (unauthorized "not authenticated")
  for_caller (some id) f = f id

  -- The two strings are the query parameters `since` and `limit`.
  unfoldable pub get_changes :
      (String → Option ℤ) → Context → String → String → Db → Reply ChangesResponse
  unfolding changes_of parse_int64_query current_identity list_changes get_vault_rev
  get_changes parse_int ctx raw_since raw_limit db = changes_reply (
      for_caller (current_identity ctx) λ id.
        parse_int64_query parse_int raw_since (pos 0) "invalid since" >>= λ since.
        parse_int64_query parse_int raw_limit default_changes_limit "invalid limit" >>= λ limit.
        changes_of id.vault_id since (clamp_limit limit) db)
