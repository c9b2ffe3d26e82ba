-- ===== src/Worker/Proc.antt =====
-- internal/worker/proc.go: the work of a task. The sleeps and the log lines have no effect that the
-- program reads.
use Prim.Native.String.{◌++◌}
use async_task_orchestrator.Prelude.{ℕ, str_eq, if◌then◌else◌, Option, some, none}
use async_task_orchestrator.Go.{Error, new}
use async_task_orchestrator.Task.Model.{TaskPayload}

unfoldable pub process_send_email : TaskPayload → ℕ → Option Error
process_send_email payload worker_id = none

unfoldable pub process_generate_report : TaskPayload → ℕ → Option Error
process_generate_report payload worker_id = none

unfoldable pub process_resize_image : TaskPayload → ℕ → Option Error
process_resize_image payload worker_id = none

unfoldable pub process_cleanup_temp : TaskPayload → ℕ → Option Error
process_cleanup_temp payload worker_id = none

unfoldable pub handle_task : TaskPayload → ℕ → Option Error
unfolding process_send_email process_generate_report process_resize_image process_cleanup_temp
handle_task payload worker_id =
    if str_eq payload.task_type "send_email"
    then process_send_email payload worker_id
    else if str_eq payload.task_type "generate_report"
    then process_generate_report payload worker_id
    else if str_eq payload.task_type "resize_image"
    then process_resize_image payload worker_id
    else if str_eq payload.task_type "cleanup_temp"
    then process_cleanup_temp payload worker_id
    else some (new ("unknown task type: " ++ payload.task_type))
