-- ===== src/Service/Programs/Laws.antt =====
-- What a synchronisation through the service stores.
use mathlib.Core.Path.{subst}
use target_service.Prelude.{◌≡◌, sym, ◌∙◌, ap, map, arith}
use target_service.Model.{BugbountyProgram}
use target_service.Store.{ok, Db, World, pure, lift, ◌>>=◌}
use target_service.Store.Rules.{bind-ok, bind-run}
use target_service.Store.Reads.{list_assets-Same, list_assets-ok}
use target_service.Store.Listing.{Collation}
use target_service.Store.Programs
use target_service.Store.Programs.Sync.{sync}
use target_service.Store.Programs.Sync.Laws.{IsSynced, sync-IsSynced}
use target_service.Service.Programs.{
  ProgramPolicy, SyncProgramRequest, ProgramDto, Connectors, fetch_policy, program_of, normal_asset,
  program_to_dto, sync_program,
}

-- The policy that was fetched, the program that is stored for it, and the answer.
pub record IsAnswered (collate : Collation) (connectors : Connectors) (req : SyncProgramRequest)
    (w : World) (dto : ProgramDto) (after : Db) : Type 0 where
  pub policy : ProgramPolicy
  pub fetched : fetch_policy connectors req ≡ ok policy
  pub stored : BugbountyProgram
  pub synced :
      IsSynced (program_of req policy) (map normal_asset policy.assets) w.db w.now stored after
  pub reply :
      dto ≡ program_to_dto stored (Programs.assets_of collate stored.id after.program_assets)

-- A synchronisation request succeeds only with a policy that the platform's connector returned; the
-- program is in the table with the administrator's terms and exactly that policy's assets, in lower
-- case and trimmed, and the answer is the stored program with the assets that the table has for it.
pub sync_program-IsAnswered :
    (collate : Collation) (connectors : Connectors) (req : SyncProgramRequest) (w : World)
    (dto : ProgramDto)
    → (sync_program collate connectors req w).0 ≡ ok dto
    → IsAnswered collate connectors req w dto (sync_program collate connectors req w).1.db
unfolding sync_program
sync_program-IsAnswered collate connectors req w dto h =
    let (policy, e, k) = bind-ok (lift (fetch_policy connectors req)) _ w {b = dto} h in
    let (stored, f, l) =
      bind-ok (sync (program_of req policy) (map normal_asset policy.assets)) _ w {b = dto} k in
    let w1 = (sync (program_of req policy) (map normal_asset policy.assets) w).1 in
    let (assets, g, m) =
      bind-ok (Programs.list_assets collate stored.id)
        (λ assets. pure (program_to_dto stored assets)) w1 {b = dto} l in
    let run =
      bind-run (lift (fetch_policy connectors req))
        (λ policy. sync (program_of req policy) (map normal_asset policy.assets) >>= λ stored.
          Programs.list_assets collate stored.id >>= λ assets. pure (program_to_dto stored assets))
        w {a = policy} e
      ∙ bind-run (sync (program_of req policy) (map normal_asset policy.assets))
          (λ stored. Programs.list_assets collate stored.id >>= λ assets.
            pure (program_to_dto stored assets))
          w {a = stored} f
      ∙ bind-run (Programs.list_assets collate stored.id)
          (λ assets. pure (program_to_dto stored assets)) w1 {a = assets} g in
    let same = list_assets-Same collate stored.id w1 in
    record {
      policy = policy;
      fetched = e;
      stored = stored;
      synced =
          subst
            (IsSynced (program_of req policy) (map normal_asset policy.assets) w.db w.now stored)
            (sym (ap (λ r. r.1.db) run ∙ same.db))
            (sync-IsSynced (program_of req policy) (map normal_asset policy.assets) w stored f);
      reply =
          subst
            (λ d.
              dto ≡ program_to_dto stored (Programs.assets_of collate stored.id d.program_assets))
            (sym (ap (λ r. r.1.db) run ∙ same.db))
            (subst (λ l. dto ≡ program_to_dto stored l) (list_assets-ok collate stored.id w1 g)
              (ground arith));
    }
