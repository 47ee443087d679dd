-- ===== src/Resource/Kinds.antt =====
-- internal/controller/database_controller.go, user_controller.go and grant_controller.go: what the
-- three kinds put into the shared reconciler.
pub mod Database
pub mod User
pub mod Grant
pub mod Leave
pub mod Dropped
use doltdb_operator.Prelude.{ℕ, Bool, List, Bytes, String, if◌then◌else◌}
use doltdb_operator.Effect.{
  Requeue, nothing, Error, is_not_found, message, Result, Op, pure, fail, modify, ◌>>=◌, ◌>>◌,
  attempt, wrap,
}
use doltdb_operator.Api.Condition.{Condition}
use doltdb_operator.Resource.{
  Resource, State, Env, Wrapped, got_object, call, patch_conditions, patch_finalizers,
}
use doltdb_operator.Resource.Reconcile.{Options, reconcile_resource}

module _ (env : Env) where
  -- `PatchStatus` of each kind, by the text of its error.
  unfoldable pub patch_status_of : String → (List Condition → List Condition) → Op State (Unit {0})
  unfolding patch_conditions
  patch_status_of text patcher = wrap text (patch_conditions env patcher)

  unfoldable pub contains : Bytes → State → Bool
  contains finalizer s = env.util.contains_finalizer s.object.finalizers finalizer

  -- `AddFinalizer` and `RemoveFinalizer` of each kind, by its finalizer and the text of its error.
  unfoldable pub add_finalizer_of : Bytes → String → Op State (Unit {0})
  unfolding contains patch_finalizers
  add_finalizer_of finalizer text s =
      (if contains finalizer s
          then pure tt
          else wrap text (patch_finalizers env (λ fs. env.util.add_finalizer fs finalizer)))
        s

  unfoldable pub remove_finalizer_of : Bytes → String → Op State (Unit {0})
  unfolding contains patch_finalizers
  remove_finalizer_of finalizer text s =
      (if contains finalizer s
          then wrap text (patch_finalizers env (λ fs. env.util.remove_finalizer fs finalizer))
          else pure tt)
        s

  -- `Get` fills the memory with the object on the server; the reconciler of each kind then runs.
  unfoldable pub reconcile_found : String → Op State Requeue → Op State Requeue
  unfolding call
  reconcile_found text run =
      attempt
        (call got_object env.get_object >>= λ found.
          modify λ s. record s { object = found; stored = found })
        (λ _. wrap text run) (λ e. if is_not_found e then pure nothing else fail e)
