-- ===== src/Tools/Subtasks.antt =====
-- What becomes of a task of pkg/tools/subagent.go.
use picoclaw.Prelude.{String, ◌≡◌, refl, Bool, true, false, not, some, str_eq, if◌then◌else◌}
use picoclaw.Prelude.Dict.{get-put}
use picoclaw.Tools.{new_tool_result, error_result, with_error}
use picoclaw.Tools.Loop.{Outcome, failed, finished}
use picoclaw.Tools.Subagent.{store_task, end_task, get_task}
use picoclaw.Tools.Subtask.{SubagentTask, SubagentManager, announcement, settled}

settled_agrees :
    {W : Type 0} (cancelled : Bool) (t : SubagentTask) (outcome : Outcome W)
    → let (t', r) = settled cancelled t outcome in
      (t'.id ≡ t.id) × (r.is_error ≡ not (str_eq t'.status "completed"))
unfolding settled error_result with_error new_tool_result
settled_agrees true t (failed w e) = (refl, refl)
settled_agrees false t (failed w e) = (refl, refl)
settled_agrees cancelled t (finished w content messages n) = (refl, refl)

module _ {W Callback : Type 0} where
  -- When a task ends, whatever its loop has come to, the manager holds the task as it is announced, the
  -- callback is told of an error just when the task is not held as completed, and no other task changes.
  end_task_reports :
      (cancelled : Bool) (t : SubagentTask) (outcome : Outcome W) (sm : SubagentManager W Callback)
      (other : String)
      → let (sm', (msg, r)) = end_task cancelled t outcome sm in
        (t' : SubagentTask) × (get_task other sm'
          ≡ (if str_eq other t.id then some t' else get_task other sm))
        × (msg ≡ announcement t')
        × (r.is_error ≡ not (str_eq t'.status "completed"))
  unfolding end_task store_task get_task
  end_task_reports cancelled t outcome sm other =
      let (t', r) = settled cancelled t outcome in
      let (same, agrees) = settled_agrees cancelled t outcome in
      (t', rw (get-put sm.tasks t'.id other t', same) refl, refl, agrees)
