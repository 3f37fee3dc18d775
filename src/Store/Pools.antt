-- ===== src/Store/Pools.antt =====
-- Opening and closing the two pools: `Open` and `Close` of server/internal/storage/storage.go. What
-- the driver answers is the parameter `Driver`; a pool that is open is a handle on the list.
use Prim.Native.String.{◌++◌ as ◌<>◌}
use familycards.Prelude.{
  ℕ, String, ◌≡◌, refl, Bool, true, false, not, inl, inr, List, [], ◌∷◌, Bool-cases, if◌then◌else◌,
}
use familycards.Prelude.Table.{delete}
use familycards.Http.{Result, ok, err, other}

abbrev pub pragmas : String
pragmas =
    "?_pragma=journal_mode(WAL)&_pragma=synchronous(NORMAL)&_pragma=foreign_keys(ON)&_pragma=busy_timeout(5000)"

-- A pool: the name of its data source, and its limit.
pub data Pool : Type 0 where
  write_pool : String → ℕ → Pool
  read_pool : String → ℕ → Pool

-- DB
pub record Pools : Type 0 where
  pub write : Pool
  pub read : Pool

-- What the calls of database/sql return: whether each succeeds.
pub record Driver : Type 0 where
  pub opens : String → Bool
  pub pings : Pool → Bool
  pub closes : Pool → Bool

abbrev pub is_same : Pool → Pool → Bool
is_same (write_pool d n) (write_pool e m) = true
is_same (write_pool d n) (read_pool e m) = false
is_same (read_pool d n) (write_pool e m) = false
is_same (read_pool d n) (read_pool e m) = true

-- The pools that are open without this one.
unfoldable pub close_pool : Pool → List Pool → List Pool
close_pool p live = delete (is_same p) live

module _ (driver : Driver) where
  open driver use {opens, pings, closes}

  -- The result with the pools that are open after it.
  unfoldable pub ping_pools : Pool → Pool → Result Pools × List Pool
  unfolding close_pool
  ping_pools w r =
      let live = w ∷ r ∷ [] in
      if not (pings w)
      then (err other, close_pool r (close_pool w live))
      else if not (pings r)
      then (err other, close_pool r (close_pool w live))
      else (ok (record { write = w; read = r }), live)

  unfoldable pub open_pools : String → Result Pools × List Pool
  unfolding close_pool ping_pools
  open_pools path =
      let dsn = "file:" <> (path <> pragmas) in
      let w = write_pool (dsn <> "&_txlock=immediate") 1 in
      if not (opens (dsn <> "&_txlock=immediate"))
      then (err other, [])
      else if not (opens dsn)
      then (err other, close_pool w (w ∷ []))
      else ping_pools w (read_pool dsn 4)

  -- `Close`: the error of the write pool comes first.
  unfoldable pub close : Pools → List Pool → Result (Unit {0}) × List Pool
  unfolding close_pool
  close pools live =
      let left = close_pool pools.read (close_pool pools.write live) in
      if not (closes pools.write)
      then (err other, left)
      else if not (closes pools.read)
      then (err other, left)
      else (ok tt, left)

  -- What is open after `Open`, and after `Close` of what it returned.
  abbrev pub Settled : Result Pools × List Pool → Type 0
  Settled (err e, live) = live ≡ []
  Settled (ok pools, live) = (live ≡ pools.write ∷ pools.read ∷ []) × ((close pools live).1 ≡ [])

  close_leaves :
      (d e : String) (n m : ℕ)
      → (close
          (record { write = write_pool d n; read = read_pool e m })
          (write_pool d n ∷ read_pool e m ∷ [])).1
        ≡ []
  unfolding close close_pool delete
  close_leaves d e n m = elim (Bool-cases (closes (write_pool d n))) [
    | inr broken ↦ rw broken refl
    | inl closed ↦ elim (Bool-cases (closes (read_pool e m))) [
      | inr broken ↦ rw (closed, broken) refl
      | inl both ↦ rw (closed, both) refl
    ]
  ]

  ping_pools-Settled :
      (d e : String) (n m : ℕ) → Settled (ping_pools (write_pool d n) (read_pool e m))
  unfolding ping_pools close_pool delete close
  ping_pools-Settled d e n m = elim (Bool-cases (pings (write_pool d n))) [
    | inr dead ↦ rw dead refl
    | inl alive ↦ elim (Bool-cases (pings (read_pool e m))) [
      | inr dead ↦ rw (alive, dead) refl
      | inl both ↦ rw (alive, both) (refl, close_leaves d e n m)
    ]
  ]

  -- No pool is left open by an `Open` that fails; one that succeeds leaves its two pools open, and
  -- after `Close` none of them is, whichever calls of the driver fail.
  pub open_pools-Settled : (path : String) → Settled (open_pools path)
  unfolding open_pools close_pool delete
  open_pools-Settled path =
      let dsn = "file:" <> (path <> pragmas) in
      elim (Bool-cases (opens (dsn <> "&_txlock=immediate"))) [
        | inr broken ↦ rw broken refl
        | inl opened ↦ elim (Bool-cases (opens dsn)) [
          | inr broken ↦ rw (opened, broken) refl
          | inl both ↦ rw (opened, both) (ping_pools-Settled (dsn <> "&_txlock=immediate") dsn 1 4)
        ]
      ]
