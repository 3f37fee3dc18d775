-- ===== src/Migrations/Rerun.antt =====
-- A second run of `Apply` of server/internal/migrations/migrations.go.
use familycards.Prelude.{
  ℤ, beq_ℤ, String, ◌≡◌, refl, sym, ap, subst, ◌∙◌, inl, inr, true, Option, none, some, List, [],
  ◌∷◌, ◌++◌, All, arith, Bool-cases,
}
use familycards.Prelude.Table.{exists, exists-append}
use familycards.Http.{other, Result, ok, err}
use familycards.Migrations.{
  Names, DirEntry, Migration, Tracked, is_applied, load, record_version, apply_one, go_on,
  apply_all, apply,
}

is_applied-new : (v : ℤ) (versions : List ℤ) → is_applied (versions ++ v ∷ []) v ≡ true
unfolding exists
is_applied-new v [] = ground arith
is_applied-new v (x ∷ versions) = ground (arith, is_applied-new v versions)

module _ {Schema : Type 0} (exec : String → Schema → Option Schema) where
  abbrev Recorded : List ℤ → List ℤ → Type 0
  Recorded before after = (v : ℤ) → is_applied before v ≡ true → is_applied after v ≡ true

  record_version-appends :
      (v : ℤ) (versions : List ℤ) (o : Option Schema) (t' : Tracked Schema)
      → record_version exec v versions o ≡ some t'
      → t'.versions ≡ versions ++ v ∷ []
  record_version-appends v versions none t' h = cc
  record_version-appends v versions (some schema) t' h = elim (Bool-cases (is_applied versions v)) [
    | inl there ↦ let refused = rw there at h in cc
    | inr fresh ↦ let stored = rw fresh at h in cc
  ]

  apply_one-records :
      (m : Migration) (t t' : Tracked Schema)
      → apply_one exec m t ≡ some t'
      → (is_applied t'.versions m.version ≡ true) × Recorded t.versions t'.versions
  unfolding apply_one
  apply_one-records m t t' h =
      let e = record_version-appends m.version t.versions (exec m.sql t.schema) t' h in
      (
        subst (λ vs. is_applied vs m.version ≡ true) (sym e) (is_applied-new m.version t.versions),
        λ v there.
            subst (λ vs. is_applied vs v ≡ true) (sym e)
              (exists-append (beq_ℤ v) t.versions (m.version ∷ []) ∙ ground (arith, there)),
      )

  go_on-runs :
      (rest : Tracked Schema → Tracked Schema × Result (Unit {0})) (t t' : Tracked Schema)
      (o : Option (Tracked Schema))
      → go_on exec rest t o ≡ (t', ok tt)
      → (mid : Tracked Schema) × (o ≡ some mid) × (rest mid ≡ (t', ok tt))
  go_on-runs rest t t' none h = let stopped : err other ≡ ok tt = ap (λ x. x.1) h in cc
  go_on-runs rest t t' (some mid) h = (mid, refl, h)

  apply_all-records :
      (applied : List ℤ) (ms : List Migration) (t t' : Tracked Schema)
      → Recorded applied t.versions
      → apply_all exec applied ms t ≡ (t', ok tt)
      → All (λ (m : Migration). is_applied t'.versions m.version ≡ true) ms
        × Recorded t.versions t'.versions
  unfolding apply_all
  apply_all-records applied [] t t' r h =
      let same : t ≡ t' = ap (λ x. x.0) h in
      (tt, λ v there. subst (λ x. is_applied x.versions v ≡ true) same there)
  apply_all-records applied (m ∷ ms) t t' r h = elim (Bool-cases (is_applied applied m.version)) [
    | inl old ↦
        let (done, kept) = apply_all-records applied ms t t' r (rw old at h) in
        ((kept m.version (r m.version old), done), kept)
    | inr new ↦
        let (mid, stored, k) =
          go_on-runs (apply_all exec applied ms) t t' (apply_one exec m t) (rw new at h) in
        let (here, more) = apply_one-records m t mid stored in
        let (done, kept) = apply_all-records applied ms mid t' (λ v there. more v (r v there)) k in
        ((kept m.version here, done), λ v there. kept v (more v there))
  ]

  apply_all-skips :
      (ms : List Migration) (t : Tracked Schema)
      → All (λ (m : Migration). is_applied t.versions m.version ≡ true) ms
      → apply_all exec t.versions ms t ≡ (t, ok tt)
  unfolding apply_all
  apply_all-skips [] t h = refl
  apply_all-skips (m ∷ ms) t h = rw h.0 (apply_all-skips ms t h.1)

  -- When a run of the migrations ends without an error, the version of every migration in the directory
  -- is recorded, no version that was recorded before is lost, and a second run executes nothing and
  -- leaves the database as it is.
  pub apply_completes :
      (names : Names) (entries : List DirEntry) (migs : List Migration) (t t' : Tracked Schema)
      → load names entries ≡ ok migs
      → apply exec names entries t ≡ (t', ok tt)
      → All (λ (m : Migration). is_applied t'.versions m.version ≡ true) migs
        × ((v : ℤ) → is_applied t.versions v ≡ true → is_applied t'.versions v ≡ true)
        × (apply exec names entries t' ≡ (t', ok tt))
  unfolding apply
  apply_completes names entries migs t t' loaded h =
      let (done, kept) =
        apply_all-records t.versions migs t t' (λ v there. there) (rw loaded at h) in
      (done, kept, rw loaded (apply_all-skips migs t' done))
