-- ===== src/RateLimit/Isolation.antt =====
-- Clients do not share buckets: server/internal/ratelimit/ratelimit.go.
use familycards.Prelude.{
  ℕ, String, ◌==◌, ◌≡◌, refl, sym, subst, ◌∙◌, ◌++◌, inl, inr, Bool, true, false, some, List, [],
  ◌∷◌, All, arith, ==→≡, Bool-cases,
}
use familycards.Prelude.Table.{find, update, delete, exists}
use familycards.RateLimit.{
  Clockwork, Bucket, Entry, Limiter, has_key, bucket_for, set_bucket, store_bucket, allow, is_idle,
  sweep,
}

find-update_other :
    {A : Type 0} (q p : A → Bool) (f : A → A) (xs : List A)
    → ((x : A) → p x ≡ true → (q x ≡ false) × (q (f x) ≡ false))
    → find q (update p f xs) ≡ find q xs
unfolding find update
find-update_other q p f [] h = refl
find-update_other q p f (x ∷ xs) h = ground (arith, h x, find-update_other q p f xs h)

find-delete :
    {A : Type 0} (q p : A → Bool) (xs : List A) (e : A)
    → find q xs ≡ some e
    → p e ≡ false
    → find q (delete p xs) ≡ some e
unfolding find delete
find-delete q p [] e h k = h
find-delete q p (x ∷ xs) e h k = elim (Bool-cases (q x)) [
  | inl hit ↦
      let same : x ≡ e = ground arith in
      let stays : p x ≡ false = subst (λ y. p y ≡ false) (sym same) k in
      rw (stays, hit) (rw hit at h)
  | inr miss ↦
      let rest = find-delete q p xs e (rw miss at h) k in
      elim (Bool-cases (p x)) [ inl goes ↦ rw goes rest | inr stays ↦ rw (stays, miss) rest ]
]

find-insert_other :
    {A : Type 0} (q : A → Bool) (y : A) (xs : List A)
    → q y ≡ false
    → find q (xs ++ y ∷ []) ≡ find q xs
unfolding find
find-insert_other q y [] h = rw h refl
find-insert_other q y (x ∷ xs) h = ground (arith, find-insert_other q y xs h)

module _ {Float : Type 0} (clock : Clockwork Float) where
  find-store_bucket :
      (key other : String) (b : Bucket Float) (entries : List (Entry Float))
      → (key == other) ≡ false
      → find (has_key clock other) (store_bucket clock key b entries)
        ≡ find (has_key clock other) entries
  unfolding store_bucket find
  find-store_bucket key other b entries h = elim (Bool-cases (exists (has_key clock key) entries)) [
    | inl there ↦ rw there (
        find-update_other (has_key clock other) (has_key clock key) (set_bucket clock b) entries
          other_key)
    | inr absent ↦ rw absent (find-insert_other (has_key clock other) _ entries h)
  ]
    where
      other_key :
          (e : Entry Float)
          → has_key clock key e ≡ true
          → (has_key clock other e ≡ false) × (has_key clock other (set_bucket clock b e) ≡ false)
      other_key e same =
          let miss : (e.key == other) ≡ false = rw (==→≡ e.key key same) h in (miss, miss)

  -- The requests of a list, each with its time and its key, one after another.
  abbrev pub after_requests : List (ℕ × String) → Limiter Float → Limiter Float
  after_requests [] l = l
  after_requests ((now, key) ∷ rest) l = after_requests rest (allow clock now key l).1

  allow-same :
      (now : ℕ) (key : String) (l l' : Limiter Float)
      → find (has_key clock key) l'.buckets ≡ find (has_key clock key) l.buckets
      → l'.rate_per_min ≡ l.rate_per_min
      → l'.burst ≡ l.burst
      → (allow clock now key l').0 ≡ (allow clock now key l).0
  unfolding allow bucket_for
  allow-same now key l l' e r b = rw (e, r, b)

  -- Whatever requests come with other keys, in whatever number and at whatever times, the answer to a
  -- request is the one that it would have got before them.
  pub allow_isolated :
      (now : ℕ) (key : String) (others : List (ℕ × String)) (l : Limiter Float)
      → All (λ (r : ℕ × String). (r.1 == key) ≡ false) others
      → (allow clock now key (after_requests others l)).0 ≡ (allow clock now key l).0
  unfolding allow
  allow_isolated now key [] l h = refl
  allow_isolated now key ((t, other) ∷ rest) l h =
      allow_isolated now key rest (allow clock t other l).1 h.1
      ∙ allow-same now key l (allow clock t other l).1 (find-store_bucket other key _ l.buckets h.0)
          refl refl

  -- A sweep does not change the answer to a request whose key has a bucket that was seen within the
  -- expiry.
  pub sweep_keeps_recent :
      (now later : ℕ) (key : String) (l : Limiter Float) (e : Entry Float)
      → find (has_key clock key) l.buckets ≡ some e
      → is_idle clock now l e ≡ false
      → (allow clock later key (sweep clock now l)).0 ≡ (allow clock later key l).0
  unfolding sweep
  sweep_keeps_recent now later key l e found recent =
      allow-same later key l (sweep clock now l)
        (rw found (find-delete (has_key clock key) (is_idle clock now l) l.buckets e found recent))
        refl refl
