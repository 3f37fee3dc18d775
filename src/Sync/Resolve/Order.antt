-- ===== src/Sync/Resolve/Order.antt =====
-- The order that `wins` of server/internal/sync/resolve.go puts on writes, and sequences of writes
-- that are resolved against one another.
use familycards.Prelude.{
  ℕ, ℤ, pos_part, eq_of_parts, str_lt_irrefl, str_lt_asym, str_lt_trans, str_lt_total, String, ◌≡◌,
  refl, ◌⊎◌, inl, inr, true, false, some, List, [], ◌∷◌, ◌+◌, ◌≤◌, ◌<◌, Bool-cases, ◌∙◌, All, arith,
  if◌then◌else◌,
}
use mathlib.Core.List.{Permᴰ}
use familycards.Sync.Resolve.{CurrentItem, Incoming, wins, resolve}

-- When two writes are compared, exactly one of three holds: the first wins, the second wins, or
-- both their times and their devices are equal.
pub wins_trichotomy :
    (a : ℤ) (d : String) (b : ℤ) (e : String)
    → ((wins a d b e ≡ true) × (wins b e a d ≡ false))
      ⊎ ((wins a d b e ≡ false) × (wins b e a d ≡ true))
      ⊎ ((a ≡ b) × (d ≡ e) × (wins a d b e ≡ false))
unfolding wins
wins_trichotomy a d b e =
    ground
      (arith, str_lt_asym d e, str_lt_asym e d, str_lt_total d e, eq_of_parts a b, str_lt_irrefl d)

pub wins_trans :
    (a : ℤ) (d : String) (b : ℤ) (e : String) (c : ℤ) (f : String)
    → wins a d b e ≡ true
    → wins b e c f ≡ true
    → wins a d c f ≡ true
unfolding wins
wins_trans a d b e c f h k = ground (arith, str_lt_trans f e d)

-- The server's record of an item, and the counter of its vault.
pub record Settled : Type 0 where
  pub item : CurrentItem
  pub counter : ℕ

-- A write is resolved against the record when it arrives: an accepted one counts the vault up and is
-- stored at the revision that this gives.
abbrev pub settle : Settled → Incoming → Settled
settle s w =
    if resolve (some s.item) w
    then record {
      item = record { rev = s.counter + 1; updated_at = w.updated_at; device_id = w.device_id };
      counter = s.counter + 1;
    }
    else s

-- The writes in the order in which they arrive.
abbrev pub settle_all : Settled → List Incoming → Settled
settle_all s [] = s
settle_all s (w ∷ ws) = settle_all (settle s w) ws

-- The write is based on a revision before `n`.
abbrev pub IsConcurrent : ℕ → Incoming → Type 0
IsConcurrent n w = pos_part w.base_rev < n

-- The record has a revision from `n` on, which is not above the counter.
pub record IsFrom (n : ℕ) (s : Settled) : Type 0 where
  pub recent : n ≤ s.item.rev
  pub counted : s.item.rev ≤ s.counter

pub record SameStamp (a b : CurrentItem) : Type 0 where
  pub same_time : a.updated_at ≡ b.updated_at
  pub same_device : a.device_id ≡ b.device_id

SameStamp-trans : {a b c : CurrentItem} → SameStamp a b → SameStamp b c → SameStamp a c
SameStamp-trans e f = record {
  same_time = e.same_time ∙ f.same_time;
  same_device = e.same_device ∙ f.same_device;
}

-- The record with the time and the device of a write.
abbrev stored : Settled → Incoming → Settled
stored s w = record {
  item = record { rev = s.counter + 1; updated_at = w.updated_at; device_id = w.device_id };
  counter = s.counter + 1;
}

settle-eq-if :
    (n : ℕ) (s : Settled) (w : Incoming)
    → IsFrom n s
    → IsConcurrent n w
    → settle s w
      ≡ (if wins w.updated_at w.device_id s.item.updated_at s.item.device_id then stored s w else s)
unfolding resolve
settle-eq-if n s w h c = let r = h.recent in ground arith

settle-IsFrom :
    (n : ℕ) (s : Settled) (w : Incoming) → IsFrom n s → IsConcurrent n w → IsFrom n (settle s w)
settle-IsFrom n s w h c =
    rw (settle-eq-if n s w h c)
      (elim (Bool-cases (wins w.updated_at w.device_id s.item.updated_at s.item.device_id)) [
        | inl won ↦
            rw won (record { recent = omega (arith, h.recent, h.counted); counted = omega arith })
        | inr lost ↦ rw lost h
      ])

-- What is stored depends on the stamps only.
settle-cong :
    (n : ℕ) (a b : Settled) (w : Incoming)
    → IsFrom n a
    → IsFrom n b
    → IsConcurrent n w
    → SameStamp a.item b.item
    → SameStamp (settle a w).item (settle b w).item
settle-cong n a b w ha hb c e =
    rw (settle-eq-if n a w ha c, settle-eq-if n b w hb c)
      (let t = e.same_time in let d = e.same_device in ground arith)

-- Of two concurrent writes the later stamp is stored, whichever arrives first.
settle_comm :
    (n : ℕ) (s : Settled) (v w : Incoming)
    → IsFrom n s
    → IsConcurrent n v
    → IsConcurrent n w
    → SameStamp (settle (settle s v) w).item (settle (settle s w) v).item
settle_comm n s v w h hv hw =
    rw
      (
        settle-eq-if n (settle s v) w (settle-IsFrom n s v h hv) hw,
        settle-eq-if n (settle s w) v (settle-IsFrom n s w h hw) hv,
        settle-eq-if n s v h hv,
        settle-eq-if n s w h hw,
      )
      (ground (
        arith,
        wins_trichotomy v.updated_at v.device_id w.updated_at w.device_id,
        wins_trichotomy v.updated_at v.device_id s.item.updated_at s.item.device_id,
        wins_trichotomy w.updated_at w.device_id s.item.updated_at s.item.device_id,
        wins_trans v.updated_at v.device_id w.updated_at w.device_id s.item.updated_at
            s.item.device_id,
        wins_trans w.updated_at w.device_id v.updated_at v.device_id s.item.updated_at
            s.item.device_id,
      ))

settle_all-cong :
    (n : ℕ) (a b : Settled) (ws : List Incoming)
    → IsFrom n a
    → IsFrom n b
    → All (IsConcurrent n) ws
    → SameStamp a.item b.item
    → SameStamp (settle_all a ws).item (settle_all b ws).item
settle_all-cong n a b [] ha hb hs e = e
settle_all-cong n a b (w ∷ ws) ha hb hs e =
    settle_all-cong n (settle a w) (settle b w) ws (settle-IsFrom n a w ha hs.0)
      (settle-IsFrom n b w hb hs.0) hs.1 (settle-cong n a b w ha hb hs.0 e)

All-perm :
    (n : ℕ) {vs ws : List Incoming}
    → Permᴰ vs ws
    → All (IsConcurrent n) vs
    → All (IsConcurrent n) ws
All-perm n Permᴰ.nil h = tt
All-perm n (Permᴰ.cons e p) h = (rw e at h.0, All-perm n p h.1)
All-perm n (Permᴰ.swap e f) h = (rw f at h.1.0, (rw e at h.0, h.1.1))
All-perm n (Permᴰ.trans p q) h = All-perm n q (All-perm n p h)

-- Writes to an item that has a revision from `n` on, each based on a revision before `n`, leave the
-- same time and the same device stored in whatever order they arrive, where each accepted write gets
-- the next revision of the vault on its arrival.
pub settle_all-perm :
    {vs ws : List Incoming} (n : ℕ) (s : Settled)
    → Permᴰ vs ws
    → IsFrom n s
    → All (IsConcurrent n) vs
    → SameStamp (settle_all s vs).item (settle_all s ws).item
settle_all-perm n s Permᴰ.nil h hs = record { same_time = refl; same_device = refl }
settle_all-perm n s (Permᴰ.cons {a} e p) h hs =
    rw (← e) (settle_all-perm n (settle s a) p (settle-IsFrom n s a h hs.0) hs.1)
settle_all-perm n s (Permᴰ.swap {a} {b} {l} e f) h hs =
    let ha = settle-IsFrom n s a h hs.0 in
    let hb = settle-IsFrom n s b h hs.1.0 in
    rw (← e, ← f)
      (settle_all-cong n _ _ l (settle-IsFrom n (settle s a) b ha hs.1.0)
        (settle-IsFrom n (settle s b) a hb hs.0) hs.1.1 (settle_comm n s a b h hs.0 hs.1.0))
settle_all-perm n s (Permᴰ.trans p q) h hs =
    SameStamp-trans (settle_all-perm n s p h hs) (settle_all-perm n s q h (All-perm n p hs))
