-- ===== src/Samples/Services.antt =====
-- A broker, a JSON codec for one task, and the framework's chain of handlers, for the tests.
use async_task_orchestrator.Prelude.{
  ◌==◌, pos, ◌=ℤ◌, =ℤ_iff, String, str_eq, eq_iff, Bool, true, false, ◌&&◌, ◌≡◌, refl, arith,
  Option, none, some, List, [], ◌∷◌, if◌then◌else◌, Text,
}
use async_task_orchestrator.Go.{new, Outcome, ok, err}
use async_task_orchestrator.Sql.Tables.{Task}
use async_task_orchestrator.Http.{Handler, Middleware, Engine}
use async_task_orchestrator.Queue.Message.{Publishing}
use async_task_orchestrator.Queue.Connect.{Amqp}
use async_task_orchestrator.Task.Service.{TaskJson}
use async_task_orchestrator.Task.Caching.{JsonLaws}
use async_task_orchestrator.Samples.Memory.{task_row}

-- It keeps what was published.
abbrev pub rabbit : Amqp (List Publishing)
rabbit = record {
  Connection = Unit;
  Ch = Unit;
  dial = λ url s. (ok tt, s);
  channel = λ conn s. (ok tt, s);
  queue_declare = λ ch name durable deleted exclusive no_wait s. (ok tt, s);
  publish = λ ch p s. (ok tt, p ∷ s);
  close = λ ch s. (ok tt, s);
  sleep = λ n s. s;
}

abbrev is_none : Option String → Bool
is_none none = true
is_none (some s) = false

abbrev pub sample : Task
sample = task_row (pos 7) (pos 1) "send_email" "PENDING"

abbrev is_sample : Task → Bool
is_sample t =
    (t.id =ℤ pos 7)
    && (t.user_id =ℤ pos 1)
    && str_eq t.task_type "send_email"
    && str_eq t.status "PENDING"
    && is_none t.result_file
    && is_none t.error_message
    && (t.created_at == 0)
    && (t.updated_at == 0)

sample_only : (t : Task) → is_sample t ≡ true → t ≡ sample
sample_only t h = ground (
  arith,
  =ℤ_iff t.id (pos 7),
  =ℤ_iff t.user_id (pos 1),
  eq_iff t.task_type "send_email",
  eq_iff t.status "PENDING",
)

abbrev read_tasks : Text → Option (List Task)
read_tasks [] = some []
read_tasks (c ∷ s) = none

abbrev write_tasks : List Task → Outcome Text
write_tasks [] = ok []
write_tasks (t ∷ ts) = err (new "unsupported")

abbrev pub codec : TaskJson
codec = record {
  marshal_task = λ t. if is_sample t then ok [] else err (new "unsupported");
  unmarshal_task = λ x. some sample;
  marshal_tasks = write_tasks;
  unmarshal_tasks = read_tasks;
}

tasks_back_of : (ts : List Task) (x : Text) → write_tasks ts ≡ ok x → read_tasks x ≡ some ts
tasks_back_of [] x h = ground arith
tasks_back_of (t ∷ ts) x h = absurd cc

pub codec-JsonLaws : JsonLaws codec
codec-JsonLaws = record {
  task_back = λ t x h. ground (arith, sample_only t);
  tasks_back = tasks_back_of;
}

abbrev nested : {S : Type 0} → List (Middleware S) → Handler S → Handler S
nested [] h = h
nested (m ∷ ms) h = m (nested ms h)

abbrev pub engine : (S : Type 0) → Engine S
engine S = record { chain = nested; chain_nil = λ h. refl; chain_cons = λ m ms h. refl }
