-- ===== src/Backup/Complete.antt =====
-- What an execution that succeeds has done.
use doltdb_operator.Prelude.{
  Bool, true, false, List, [], ◌∷◌, Bytes, String, ◌≡◌, refl, sym, ap, ◌∙◌, is_empty, if◌then◌else◌,
}
use mathlib.Core.Path.{subst}
use doltdb_operator.Effect.{
  message, Result, ok, err, Op, pure, fail, lift, gets, resume, ◌>>=◌, attempt, wrap,
}
use doltdb_operator.Effect.Steps.{step-inv, wrap-inv}
use doltdb_operator.Effect.Knows.{wrap_returned}
use doltdb_operator.Backup.{
  Env, State, Backup, Trace, used, added, synced, completed, call, stable_backup_name,
  backup_database, back_up_all, back_up_listed, build_backup_url, execute, listed_databases,
  BackupStatus, patched, connected,
}
use doltdb_operator.Backup.Reconcile.{
  Patch, of_phase, merged, patch_backup_status, patch_answer, running_status, completed_status,
  ensure_s3, execute_backup,
}

closed :
    (t u : State) (rest : Trace)
    → t ≡ u
    → u.trace ≡ patched u.stored ∷ rest
    → t.trace ≡ patched t.stored ∷ rest
closed t u rest e h = subst (λ (x : State). x.trace ≡ patched x.stored ∷ rest) (sym e) h

module _ (env : Env) where
  -- The calls for the databases, the latest first.
  abbrev pub log_of : Bytes → List Bytes → Trace → Trace
  log_of url [] t = t
  log_of url (d ∷ ds) t =
      let name = stable_backup_name env url d in
      log_of url ds (synced name ∷ added name url ∷ used d ∷ t)

  -- Each of those calls was answered without an error.
  abbrev pub Answered : Bytes → List Bytes → Trace → Type 0
  Answered url [] t = Unit
  Answered url (d ∷ ds) t =
      let name = stable_backup_name env url d in
      let after_use = used d ∷ t in
      let after_add = added name url ∷ after_use in
      let after_sync = synced name ∷ after_add in
      (env.use_database after_use d ≡ ok tt)
      × (env.add_backup after_add name url ≡ ok tt)
      × (env.sync_backup after_sync name ≡ ok tt)
      × Answered url ds after_sync

  last_call :
      (text : String) (name : Bytes) (s : State)
      → (wrap text (call (synced name) (λ t. env.sync_backup t name)) s).1.trace
        ≡ synced name ∷ s.trace
  unfolding call attempt
  last_call text name s = traced (env.sync_backup (synced name ∷ s.trace) name)
    where
      traced :
          (r : Result (Unit {0}))
          → (resume r pure
              (λ e. fail (message text))
              (record s { trace = synced name ∷ s.trace })).1.trace
            ≡ synced name ∷ s.trace
      traced (ok a) = refl
      traced (err x) = refl

  one_backed_up :
      (d url : Bytes) (s : State)
      → let name = stable_backup_name env url d in
        let after = synced name ∷ added name url ∷ used d ∷ s.trace in
        (backup_database env d name url s).0 ≡ ok tt
        → ((backup_database env d name url s).1.trace ≡ after)
          × ((rest : List Bytes) → Answered url rest after → Answered url (d ∷ rest) s.trace)
  unfolding backup_database call
  one_backed_up d url s h =
      let name = stable_backup_name env url d in
      let (_, used_ok, h', e') = wrap-inv _ (call (used d) (λ t. env.use_database t d)) _ s h in
      let (_, add, h'', e'') =
        wrap-inv _ (call (added name url) (λ t. env.add_backup t name url)) _ _ h' in
      let sync = wrap_returned _ (call (synced name) (λ t. env.sync_backup t name)) _ _ h'' in
      (
        ap (λ (x : Result (Unit {0}) × State). x.1.trace) (e' ∙ e'') ∙ last_call _ name _,
        λ rest more. (used_ok, add, sync, more),
      )

  all_backed_up :
      (url : Bytes) (ds : List Bytes) (s : State)
      → (back_up_all env url ds s).0 ≡ ok tt
      → ((back_up_all env url ds s).1.trace ≡ log_of url ds s.trace) × Answered url ds s.trace
  unfolding back_up_all pure
  all_backed_up url [] s h = (refl, tt)
  all_backed_up url (d ∷ ds) s h =
      let name = stable_backup_name env url d in
      let (a, one, rest, e) = wrap-inv _ (backup_database env d name url) _ s h in
      let (logged, answered) = one_backed_up d url s one in
      let (log, all) = all_backed_up url ds _ rest in
      (
        ap (λ (x : Result (Unit {0}) × State). x.1.trace) e ∙ (log ∙ ap (log_of url ds) logged),
        answered ds (subst (Answered url ds) logged all),
      )

  -- The databases of the spec are backed up in their order, under the URL of the storage, and the
  -- server has answered each call without an error.
  abbrev pub Executed : Backup → Trace → Trace → Type 0
  Executed b before after =
      (url : Bytes) × (build_backup_url b.storage ≡ ok url)
      × (after ≡ log_of url b.databases before)
      × Answered url b.databases before

  listed-Executed :
      (b : Backup) (s : State) (c : Bool)
      → c ≡ false
      → let m =
          if c
          then pure tt
          else wrap "error building backup URL: %w" (lift (build_backup_url b.storage)) >>= λ url.
              back_up_all env url b.databases in
        (m s).0 ≡ ok tt → Executed b s.trace (m s).1.trace
  unfolding lift
  listed-Executed b s true e h = cc
  listed-Executed b s false e h =
      let (url, built, done, run) =
        wrap-inv "error building backup URL: %w" (lift (build_backup_url b.storage))
          (λ url. back_up_all env url b.databases) s h in
      let (log, answered) = all_backed_up url b.databases s done in
      (url, built, ap (λ (x : Result (Unit {0}) × State). x.1.trace) run ∙ log, answered)

  execute-Executed :
      (b : Backup) (s : State)
      → is_empty b.databases ≡ false
      → (execute env b s).0 ≡ ok tt
      → Executed b s.trace (execute env b s).1.trace
  unfolding execute ◌>>=◌ lift
  execute-Executed b s named h = executed (is_empty b.databases) named h
    where
      named_run : Bool → Op State (Unit {0})
      named_run none_named =
          (if none_named
            then wrap "error listing databases: %w" (call listed_databases env.list_databases)
            else pure b.databases)
          >>= λ ds. back_up_listed env b ds

      executed :
          (c : Bool)
          → c ≡ false
          → (named_run c s).0 ≡ ok tt
          → Executed b s.trace (named_run c s).1.trace
      executed true e h = cc
      executed false e h = listed-Executed b s (is_empty b.databases) named h

  finished :
      (f : BackupStatus → BackupStatus) (s : State)
      → (patch_backup_status env of_phase f s).0 ≡ ok tt
      → ((patch_backup_status env of_phase f s).1.stored.phase ≡ (f s.object).phase)
        × ((patch_backup_status env of_phase f s).1.trace
            ≡ patched (patch_backup_status env of_phase f s).1.stored ∷ s.trace)
  unfolding patch_backup_status
  finished f s h = answered (env.patch_backup (patched (sent of_phase f s) ∷ s.trace)) h
    where
      sent : Patch → (BackupStatus → BackupStatus) → State → BackupStatus
      sent patch f s = merged patch s.object (f s.object) s.stored

      answered :
          (r : Result (Unit {0}))
          → (patch_answer r (f s.object) (sent of_phase f s) s).0 ≡ ok tt
          → ((patch_answer r (f s.object) (sent of_phase f s) s).1.stored.phase
              ≡ (f s.object).phase)
            × ((patch_answer r (f s.object) (sent of_phase f s) s).1.trace
                ≡ patched (patch_answer r (f s.object) (sent of_phase f s) s).1.stored ∷ s.trace)
      answered (ok a) h = (refl, refl)
      answered (err x) h = cc

  recorded_end :
      (s : State)
      → let m = gets (λ (t : State). env.now t.trace) >>= λ ended.
          patch_backup_status env of_phase (completed_status env ended) in
        (m s).0 ≡ ok tt
        → ((m s).1.stored.phase ≡ completed) × ((m s).1.trace ≡ patched (m s).1.stored ∷ s.trace)
  unfolding ◌>>=◌ gets completed_status
  recorded_end s h = finished (completed_status env (env.now s.trace)) s h

  -- A Backup that names its databases and whose execution succeeds is completed on the server, and
  -- before that each of its databases was used, added and synced, each without an error of the server,
  -- in the order of the spec and under the URL of its storage, with nothing else in between.
  pub execute_backup-Complete :
      (b : Backup) (s : State)
      → is_empty b.databases ≡ false
      → (execute_backup env b s).0 ≡ ok tt
      → ((execute_backup env b s).1.stored.phase ≡ completed)
        × ((before : Trace) × (after : Trace) × Executed b before after
            × ((execute_backup env b s).1.trace
                ≡ patched (execute_backup env b s).1.stored ∷ after))
  unfolding execute_backup completed_status gets
  execute_backup-Complete b s named h =
      let (started, _, h1, e1) = step-inv (gets (λ s. env.now s.trace)) _ s h in
      let (_, _, h2, e2) =
        wrap-inv _ (patch_backup_status env of_phase (running_status env started)) _ _ h1 in
      let (_, _, h3, e3) = step-inv (ensure_s3 env b.storage.s3) _ _ h2 in
      let (_, _, h4, e4) = wrap-inv _ (call connected env.new_client) _ _ h3 in
      let (_, run, h5, e5) = step-inv (execute env b) _ _ h4 in
      let end = ap (λ (x : Result (Unit {0}) × State). x.1) (e1 ∙ (e2 ∙ (e3 ∙ (e4 ∙ e5)))) in
      let (stored, trace) = recorded_end _ h5 in
      (
        ap (λ x. x.stored.phase) end ∙ stored,
        (_, _, execute-Executed b _ named run, closed _ _ _ end trace),
      )
