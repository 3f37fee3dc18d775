-- ===== src/System/Sound.antt =====
-- The invariants of the parts, of the whole server.
use familycards.Sync.Revisions.{IsRevisioned}
use familycards.Sync.Backed.{IsBacked}
use familycards.Sync.Push.Contract.{push-IsRevisioned, push-IsBacked}
use familycards.Blobs.Handlers.{Server}
use familycards.Blobs.Handlers.Content.{IsContentAddressed, upload-IsContentAddressed}
use familycards.Blobs.Gc.Pass.{swept, run_gc_keeps}
use familycards.Blobs.Gc.Safety.{run_gc-IsBacked}
use familycards.System.{Setup, Step, request, uploaded, collected, purged, Reach, start, later}
use familycards.System.Kept.{IsKept}
use familycards.System.Stepwise.{IsStepwise-IsKept}
use familycards.System.Blind.{IsBlind-IsStepwise}
use familycards.System.Requests.{handle_keeps}
use familycards.System.Content.{
  IsRevisioned-IsBlind, IsBacked-IsBlind, IsRevisioned-Grows, IsBacked-Grows, purge-IsRevisioned,
  purge-IsBacked, IsRevisioned-IsSpared, IsContentAddressed-IsSpared, upload-IsRevisioned,
  upload-IsBacked,
}

module _ (setup : Setup) where
  open setup use {services, secret, bootstrap_token, base_dir, sha256_hex, trim_space}

  pub record IsSound (s : Server) : Type 0 where
    pub revisioned : IsRevisioned s.db
    pub backed : IsBacked s.db
    pub addressed : IsContentAddressed base_dir sha256_hex s.files

  IsRevisioned-IsKept : IsKept IsRevisioned
  IsRevisioned-IsKept =
      IsStepwise-IsKept
        (IsBlind-IsStepwise IsRevisioned-IsBlind IsRevisioned-Grows push-IsRevisioned)

  IsBacked-IsKept : IsKept IsBacked
  IsBacked-IsKept =
      IsStepwise-IsKept (IsBlind-IsStepwise IsBacked-IsBlind IsBacked-Grows push-IsBacked)

  Step-IsSound : {s t : Server} → Step setup s t → IsSound s → IsSound t
  Step-IsSound (request r s) h = record {
    revisioned = handle_keeps setup IsRevisioned-IsKept r s.db h.revisioned;
    backed = handle_keeps setup IsBacked-IsKept r s.db h.backed;
    addressed = h.addressed;
  }
  Step-IsSound (uploaded fails now ctx claimed_id body s) h = record {
    revisioned =
        upload-IsRevisioned base_dir sha256_hex fails now ctx claimed_id body s h.revisioned;
    backed = upload-IsBacked base_dir sha256_hex fails now ctx claimed_id body s h.backed;
    addressed =
        upload-IsContentAddressed base_dir sha256_hex fails now ctx claimed_id body s h.addressed;
  }
  Step-IsSound (collected fails now s) h = record {
    revisioned =
        run_gc_keeps base_dir fails (swept base_dir fails (IsRevisioned-IsSpared base_dir fails))
          trim_space now s h.revisioned;
    backed = run_gc-IsBacked base_dir fails trim_space now s h.backed;
    addressed =
        run_gc_keeps base_dir fails
          (swept base_dir fails (IsContentAddressed-IsSpared base_dir sha256_hex fails)) trim_space
          now s h.addressed;
  }
  Step-IsSound (purged cutoff s) h = record {
    revisioned = purge-IsRevisioned cutoff s.db h.revisioned;
    backed = purge-IsBacked cutoff s.db h.backed;
    addressed = h.addressed;
  }

  -- In every state that the server gets to from an empty data directory, by whatever requests and
  -- timers one after another in whatever order: no item has a revision above its vault's counter, two items of a vault
  -- have different ids and different revisions, every blob that an item other than a tombstone refers
  -- to has a row in the item's vault that is marked as referenced, and every file is at the path of
  -- its content's digest in some vault.
  pub Reach-IsSound : (s : Server) → Reach setup s → IsSound s
  Reach-IsSound s start = record {
    revisioned = record { below = tt; distinct = tt };
    backed = record { backed = tt };
    addressed = tt;
  }
  Reach-IsSound s (later reach step) = Step-IsSound step (Reach-IsSound _ reach)
