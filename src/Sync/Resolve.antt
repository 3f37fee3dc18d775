-- ===== src/Sync/Resolve.antt =====
-- The last-writer-wins rule: server/internal/sync/resolve.go.
pub mod Order
use familycards.Prelude.{
  ℕ, ℤ, pos, ltb_ℤ, beq_ℤ, str_lt, String, Bool, true, not, Option, none, some, if◌then◌else◌,
}

-- What the resolver sees of the server's record; `none` stands for `Exists: false`.
pub record CurrentItem : Type 0 where
  pub rev : ℕ
  pub updated_at : ℤ
  pub device_id : String

pub record Incoming : Type 0 where
  pub base_rev : ℤ
  pub updated_at : ℤ
  pub device_id : String

unfoldable pub wins : ℤ → String → ℤ → String → Bool
unfolding str_lt
wins a_updated_at a_device_id b_updated_at b_device_id =
    if not (beq_ℤ a_updated_at b_updated_at)
    then ltb_ℤ b_updated_at a_updated_at
    else str_lt b_device_id a_device_id

unfoldable pub resolve : Option CurrentItem → Incoming → Bool
unfolding wins
resolve none incoming = beq_ℤ incoming.base_rev (pos 0)
resolve (some cur) incoming =
    if beq_ℤ (pos cur.rev) incoming.base_rev
    then true
    else wins incoming.updated_at incoming.device_id cur.updated_at cur.device_id
